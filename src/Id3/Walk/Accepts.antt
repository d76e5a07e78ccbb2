-- ===== src/Id3/Walk/Accepts.antt =====
-- The tags that `id3v2_validate` accepts.
use native.Mathlib.Decide.{dec_lt}
use bitstream.Base.{
  &&_parts, ℕ, zero, suc, ◌+◌, ◌-◌, ◌≤◌, ◌<◌, ◌≡◌, ◌≢◌, ◌↔◌, ◌⊎◌, inl, inr, refl, sym, ap, ◌∙◌,
  subst, Bool, true, false, Option, none, some, Bytes, at, ◌==◌, ◌!=◌, ==_iff, ◌||◌, ◌&&◌, not,
  Bool-cases, arith,
}
use bitstream.Id3
use bitstream.Id3.Frame
use bitstream.Id3.Walk
use bitstream.Id3.Walk.{Walked, failed, stuck, ended}
use bitstream.Id3.Walk.Rules.{IsFooterOf, validate_footer-IsFooterOf, check_tag-bytes}
use bitstream.Id3.Walk.Valid.{
  Frames, entry, entry-some, entry-none, walk_complete, walk_total, walk_stop,
}

-- Behind the last frame comes the footer, or zeros up to the end.
pub record IsTail (p : Bytes) (last : ℕ) : Type 0 where
  pub footer :
      Id3.has_footer p ≡ true
      → (last ≡ 10 + Id3.get_size p) × IsFooterOf p (at p (10 + Id3.get_size p))
  pub padding : Id3.has_footer p ≡ false → (i : ℕ) → last ≤ i → i < 10 + Id3.get_size p → p i ≡ 0

-- A tag of version 2.4.0 inside `size` bytes: at least one frame, all frames valid, and the tail.
pub record IsTag (p : Bytes) (size : ℕ) : Type 0 where
  pub room : 10 ≤ size
  pub tag : (p 0 ≡ 0x49) × (p 1 ≡ 0x44) × (p 2 ≡ 0x33)
  pub version : (p 3 ≡ 4) × (p 4 ≡ 0)
  pub total : Id3.get_total_size p ≤ size
  pub first : (Id3.get_frames p + 10 < 10 + Id3.get_size p) × (p (Id3.get_frames p) ≢ 0)
  pub last : ℕ
  pub frames : Frames p (10 + Id3.get_size p) (Id3.get_frames p) last
  pub tail : IsTail p last

skip_sound :
    (left : ℕ) (p : Bytes) (last : ℕ)
    → Walk.skip_padding left p last ≡ true
    → (i : ℕ) → last ≤ i
    → i < last + left
    → p i ≡ 0
unfolding Walk.skip_padding
skip_sound zero p last e i a b = absurd (omega (arith, a, b))
skip_sound (suc left) p last e i a b = elim (dec_lt last i) [
  | yes later ↦ skip_sound left p (last + 1) (ground (arith, e)) i (omega arith) (omega arith)
  | no here ↦ (let same : i ≡ last = omega (arith, a, here) in ap p same ∙ ground (arith, e))
]

skip_complete :
    (left : ℕ) (p : Bytes) (last : ℕ)
    → ((i : ℕ) → last ≤ i → i < last + left → p i ≡ 0)
    → Walk.skip_padding left p last ≡ true
unfolding Walk.skip_padding
skip_complete zero p last h = refl
skip_complete (suc left) p last h = ground (
  arith,
  h last (omega arith) (omega arith),
  skip_complete left p (last + 1) (λ i a b. h i (omega arith) (omega arith)),
)

-- A test that ends, with what it decides.
Decides : Option Bool → Type 0 → Type 0
Decides o P = (b : Bool) × (o ≡ some b) × ((b ≡ true) ↔ P)

no_way : {P : Type 0} → (o : Option Bool) → o ≡ some false → (P → false ≡ true) → Decides o P
unfolding Decides
no_way o e h = (false, e, (λ q. absurd (ground (arith, q)), h))

tail_lem :
    (p : Bytes) (last : ℕ)
    → Decides (Walk.validate_end p (10 + Id3.get_size p) (ended (some last))) (IsTail p last)
unfolding Decides Walk.validate_end Id3.get_footer
tail_lem p last = elim (Bool-cases (Id3.has_footer p)) [
  | inl f ↦
      rw (f, Walk.validate_end, Id3.get_footer)
        (
          last == 10 + Id3.get_size p && Walk.validate_footer p (at p (10 + Id3.get_size p)),
          refl,
          (
            λ q. record {
              footer = λ _.
                  let (here, repeats) = &&_parts _ _ q in
                  ((==_iff _ _).0 here, (validate_footer-IsFooterOf p _).0 repeats);
              padding = λ c. absurd (ground (arith, c, f));
            },
            λ t.
                rw
                  (
                    (==_iff _ _).1 ((t.footer f).0),
                    (validate_footer-IsFooterOf p _).1 ((t.footer f).1),
                  )
                  refl,
          ),
        )
  | inr f ↦
      rw (f, Walk.validate_end, Id3.get_footer)
        (
          Walk.skip_padding (10 + Id3.get_size p - last) p last,
          refl,
          (
            λ q. record {
              footer = λ c. absurd (ground (arith, c, f));
              padding = λ _ i a b.
                  skip_sound (10 + Id3.get_size p - last) p last q i a (omega (arith, a, b));
            },
            λ t.
                skip_complete (10 + Id3.get_size p - last) p last
                  (λ i a b. t.padding f i a (omega (arith, a, b))),
          ),
        )
]

failed_not_ended : {o : Option ℕ} → failed ≢ ended o
failed_not_ended e = cc

ended_inj : {l m : ℕ} → ended (some l) ≡ ended (some m) → l ≡ m
ended_inj e = cc

-- The frames from `o` on, at least one, and the tail behind them.
abbrev Content : Bytes → ℕ → Type 0
Content p o =
    (o + 10 < 10 + Id3.get_size p)
    × (p o ≢ 0)
    × ((last : ℕ) × Frames p (10 + Id3.get_size p) o last × IsTail p last)

tail_of :
    (p : Bytes) (o last : ℕ) (r : Option Bool)
    → o + 10 < 10 + Id3.get_size p
    → p o ≢ 0
    → Frames p (10 + Id3.get_size p) o last
    → ((l : ℕ) → Frames p (10 + Id3.get_size p) o l → l ≡ last)
    → Decides r (IsTail p last)
    → Decides r (Content p o)
unfolding Decides
tail_of p o last r room differs frames only (b, e, (to, from)) = (
  b,
  e,
  (
    λ q. (room, differs, (last, frames, to q)),
    λ (_, _, (l, t, tail)). from (subst (IsTail p) (only l t) tail),
  ),
)

module _ (p : Bytes) where
  abbrev end : ℕ
  end = 10 + Id3.get_size p

  -- The first round does not read `last`.
  same_round :
      (fuel o : ℕ)
      → Walk.walk (suc fuel) p end (some o) none ≡ Walk.walk (suc fuel) p end (some o) (some o)
  unfolding Walk.walk
  same_round fuel o = refl

  first_round :
      (fuel o : ℕ) (r : Walked)
      → entry p end o ≡ some o
      → Walk.walk (suc fuel) p end (entry p end o) (some o) ≡ r
      → Walk.walk (suc fuel) p end (entry p end o) none ≡ r
  first_round fuel o r e h =
      ap (λ (x : Option ℕ). Walk.walk (suc fuel) p end x none) e
      ∙ same_round fuel o
      ∙ sym (ap (λ (x : Option ℕ). Walk.walk (suc fuel) p end x (some o)) e)
      ∙ h

  no_frame :
      (fuel o : ℕ)
      → (end ≤ o + 10) ⊎ (p o ≡ 0)
      → Decides
          (Walk.validate_end p end (Walk.walk (suc fuel) p end (entry p end o) none))
          (Content p o)
  unfolding Decides Walk.validate_end
  no_frame fuel o h =
      rw (entry-none p end o h, walk_stop p end refl fuel none)
        (false, refl, (λ q. absurd (ground (arith, q)), λ c. absurd (ground (arith, c, h))))

  frames_lem :
      (fuel o : ℕ)
      → end < fuel + o
      → 1 ≤ fuel
      → Decides (Walk.validate_end p end (Walk.walk fuel p end (entry p end o) none)) (Content p o)
  unfolding Walk.validate_end
  frames_lem zero o h k = absurd (omega (arith, k))
  frames_lem (suc fuel) o h k = elim (dec_lt (o + 10) end) [
    | no full ↦ no_frame fuel o (inl (omega (arith, full)))
    | yes room ↦ elim (Bool-cases (p o == 0)) [
      | inl e ↦ no_frame fuel o (inr ((==_iff (p o) 0).0 e))
      | inr e ↦
          let differs : p o ≢ 0 = (λ q. absurd (ground (arith, q, e))) in
          let found = entry-some p end o room differs in
          elim (walk_total p end refl (suc fuel) o h k) [
            | inl f ↦ rw (first_round fuel o failed found f) (
                no_way (some false) refl (λ (c : Content p o).
                  let (_, _, (last, frames, _)) = c in
                  absurd
                    (failed_not_ended (sym f ∙ walk_complete p end refl (suc fuel) h k frames))))
            | inr (last, g, frames) ↦ rw (first_round fuel o (ended (some last)) found g) (
                tail_of p o last _ room differs frames
                  (λ l t. ended_inj (sym (walk_complete p end refl (suc fuel) h k t) ∙ g))
                  (tail_lem p last))
          ]
    ]
  ]

  next_first : Frame.next_frame p none ≡ entry p end (Id3.get_frames p)
  unfolding Frame.next_frame
  next_first = refl

  content_lem :
      Decides
        (Walk.validate_end p end (Walk.walk (end + 2) p end (Frame.next_frame p none) none))
        (Content p (Id3.get_frames p))
  content_lem = rw next_first (frames_lem (end + 2) (Id3.get_frames p) (omega arith) (omega arith))

-- `id3v2_validate` ends on every tag, and it accepts exactly the tags of version 2.4.0 inside the
-- `size` bytes that start with `ID3` and hold at least one frame, where each frame fits and has an
-- identifier of four upper-case letters or digits and at least one byte of content, and behind the
-- frames come zeros, or at once a footer: `3DI` and the version, the four flags and the size of the
-- header.
pub validate-IsTag :
    (p : Bytes) (size : ℕ)
    → (b : Bool) × (Walk.validate p size ≡ some b) × ((b ≡ true) ↔ IsTag p size)
unfolding Walk.validate Decides Id3.get_version_major Id3.get_version_rev
validate-IsTag p size = elim (dec_lt size 10) [
  | yes short ↦ (
    false,
    ground (arith, short),
    (λ q. absurd (ground (arith, q)), λ t. absurd (omega (arith, t.room, short))),
  )
  | no room ↦
      elim (Bool-cases
        (not (Id3.check_tag p) || Id3.get_version_major p != 4 || Id3.get_version_rev p != 0)) [
          | inl wrong ↦ (
            false,
            ground (arith, room, wrong),
            (
              λ q. absurd (ground (arith, q)),
              λ t. absurd (ground (arith, wrong, (check_tag-bytes p).1 t.tag, t.version)),
            ),
          )
          | inr right ↦ elim (dec_lt size (Id3.get_total_size p)) [
            | yes cut ↦ (
              false,
              ground (arith, room, right, cut),
              (λ q. absurd (ground (arith, q)), λ t. absurd (omega (arith, t.total, cut))),
            )
            | no whole ↦
                let (b, e, (to, from)) = content_lem p in
                (
                  b,
                  ground (arith, room, right, whole, e),
                  (
                    λ q.
                        let (r, z, (last, frames, tail)) = to q in
                        record {
                          room = omega (arith, room);
                          tag = (check_tag-bytes p).0 (ground (arith, right));
                          version = (ground (arith, right), ground (arith, right));
                          total = omega (arith, whole);
                          first = (r, z);
                          last = last;
                          frames = frames;
                          tail = tail;
                        },
                    λ t. from (t.first.0, t.first.1, (t.last, t.frames, t.tail)),
                  ),
                )
          ]
        ]
]

-- ===== src/Id3/Walk/Valid.antt =====
-- The loop of `id3v2_validate` over the frames.
use native.Mathlib.Decide.{dec_lt, dec_le}
use bitstream.Base.{
  ℕ, zero, suc, ◌+◌, ◌≤◌, ◌<◌, ◌≡◌, ◌≢◌, ◌⊎◌, inl, inr, refl, ap, ◌∙◌, true, false, Option, none,
  some, Bytes, at, ◌==◌, ==_iff, leb, ltb, Bool-cases, if◌then◌else◌, arith,
}
use bitstream.Id3
use bitstream.Id3.Frame
use bitstream.Id3.Walk
use bitstream.Id3.Walk.Rules.{IsFrame, validate-IsFrame}
use bitstream.Id3.Walk.{Walked, failed, stuck, ended}

abbrev pub frame_end : Bytes → ℕ → ℕ
frame_end p o = o + 10 + Frame.get_size (at p o)

-- From `o` on, whole frames follow one another, each with a valid identifier and at least one byte
-- of content, up to `last`, where there is padding or no room for another one.
pub data Frames (p : Bytes) (end : ℕ) : ℕ → ℕ → Type 0 where
  stop : {o last : ℕ} → (end ≤ o + 10) ⊎ (p o ≡ 0) → o ≡ last → Frames p end o last
  step :
      {o last : ℕ}
      → o + 10 < end
      → p o ≢ 0
      → IsFrame (at p o)
      → frame_end p o ≤ end
      → Frames p end (frame_end p o) last
      → Frames p end o last

-- What `id3v2_next_frame` yields at the offset `o`.
abbrev pub entry : Bytes → ℕ → ℕ → Option ℕ
entry p end o = if leb end (o + 10) then none else if p o == 0 then none else some o

pub entry-some : (p : Bytes) (end o : ℕ) → o + 10 < end → p o ≢ 0 → entry p end o ≡ some o
entry-some p end o h k = ground (arith, h, k)

pub entry-none : (p : Bytes) (end o : ℕ) → (end ≤ o + 10) ⊎ (p o ≡ 0) → entry p end o ≡ none
entry-none p end o h = ground (arith, h)

module _ (p : Bytes) (end : ℕ) (end_is : end ≡ 10 + Id3.get_size p) where
  pub next-entry : (f : ℕ) → Frame.next_frame p (some f) ≡ entry p end (frame_end p f)
  unfolding Frame.next_frame Frame.get_data
  next-entry f = rw end_is refl

  walk_step :
      (fuel o : ℕ) (last : Option ℕ)
      → Frame.validate (at p o) ≡ true
      → frame_end p o ≤ end
      → Walk.walk (suc fuel) p end (some o) last
        ≡ Walk.walk fuel p end (entry p end (frame_end p o)) (some (frame_end p o))
  unfolding Walk.walk
  walk_step fuel o last v h = rw (fits, v, next-entry o, Walk.walk) refl
    where
      fits : ltb end (frame_end p o) ≡ false
      fits = ground (arith, h)

  walk_bad :
      (fuel o : ℕ) (last : Option ℕ)
      → (Frame.validate (at p o) ≡ false) ⊎ (end < frame_end p o)
      → Walk.walk (suc fuel) p end (some o) last ≡ failed
  unfolding Walk.walk
  walk_bad fuel o last h = ground (arith, h)

  pub walk_stop : (fuel : ℕ) (last : Option ℕ) → Walk.walk (suc fuel) p end none last ≡ ended last
  unfolding Walk.walk
  walk_stop fuel last = refl

  pub walk_complete :
      (fuel : ℕ) {o last : ℕ}
      → end < fuel + o
      → 1 ≤ fuel
      → Frames p end o last
      → Walk.walk fuel p end (entry p end o) (some o) ≡ ended (some last)
  walk_complete zero h k t = absurd (omega (arith, k))
  walk_complete (suc fuel) {o} {last} h k (stop c e) =
      rw (entry-none p end o c) (walk_stop fuel (some o) ∙ ap (λ (l : ℕ). ended (some l)) e)
  walk_complete (suc fuel) {o} {last} h k (step a b v c t) = rw (entry-some p end o a b) (
      walk_step fuel o (some o) ((validate-IsFrame (at p o)).1 v) c
      ∙ walk_complete fuel (omega (arith, h, c)) (omega (arith, h, c)) t)

  -- The loop ends, and it fails or has passed frames.
  pub walk_total :
      (fuel o : ℕ)
      → end < fuel + o
      → 1 ≤ fuel
      → (Walk.walk fuel p end (entry p end o) (some o) ≡ failed)
        ⊎ ((last : ℕ) × (Walk.walk fuel p end (entry p end o) (some o) ≡ ended (some last))
            × Frames p end o last)
  walk_total zero o h k = absurd (omega (arith, k))
  walk_total (suc fuel) o h k = elim (dec_lt (o + 10) end) [
    | no full ↦ inr (
      o,
      rw (entry-none p end o (inl (omega (arith, full)))) (walk_stop fuel (some o)),
      stop (inl (omega (arith, full))) refl,
    )
    | yes some_left ↦ elim (Bool-cases (p o == 0)) [
      | inl e ↦
          let padding = (==_iff (p o) 0).0 e in
          inr (
            o,
            rw (entry-none p end o (inr padding)) (walk_stop fuel (some o)),
            stop (inr padding) refl,
          )
      | inr e ↦
          let differs : p o ≢ 0 = (λ q. absurd (ground (arith, q, e))) in
          rw (entry-some p end o some_left differs) (elim (Bool-cases (Frame.validate (at p o))) [
            | inr bad ↦ inl (walk_bad fuel o (some o) (inl bad))
            | inl good ↦ elim (dec_le (frame_end p o) end) [
              | no outside ↦ inl (walk_bad fuel o (some o) (inr (omega (arith, outside))))
              | yes inside ↦
                  elim (walk_total fuel (frame_end p o) (omega (arith, h, inside))
                    (omega (arith, h, inside))) [
                      | inl f ↦ inl (walk_step fuel o (some o) good inside ∙ f)
                      | inr (last, g, t) ↦ inr (
                        last,
                        walk_step fuel o (some o) good inside ∙ g,
                        step some_left differs ((validate-IsFrame (at p o)).0 good) inside t,
                      )
                    ]
            ]
          ])
    ]
  ]

-- ===== src/Id3/Whole/Enough.antt =====
-- The rounds of the loop over the frames of a tag.
use native.Mathlib.Decide.{dec_lt}
use bitstream.Base.{
  ℕ, zero, suc, ◌+◌, ◌<◌, ◌≡◌, inl, inr, refl, sym, ap, ◌∙◌, Option, none, some, Bytes, ◌==◌,
  ==_iff, Bool-cases, arith,
}
use bitstream.Id3
use bitstream.Id3.Frame
use bitstream.Id3.Whole
use bitstream.Id3.Whole.{Tag}
use bitstream.Id3.Walk.Valid.{entry, entry-some, entry-none, frame_end, next-entry}

module _ (write : Bytes → Bytes → ℕ → Bytes × ℕ) (p : Bytes) where
  abbrev end : ℕ
  end = 10 + Id3.get_size p

  no_more : (fuel : ℕ) (s : Tag) → Whole.tag_loop write fuel p none s ≡ s
  unfolding Whole.tag_loop
  no_more zero s = refl
  no_more (suc fuel) s = refl

  one_more :
      (fuel o : ℕ) (s : Tag)
      → Whole.tag_loop write (suc fuel) p (some o) s
        ≡ Whole.tag_loop write fuel p (entry p end (frame_end p o)) (Whole.tag_step write p o s)
  unfolding Whole.tag_loop
  one_more fuel o s =
      ap (λ (f : Option ℕ). Whole.tag_loop write fuel p f (Whole.tag_step write p o s))
        (next-entry p end refl o)

  at_none :
      (fuel more o : ℕ) (s : Tag)
      → entry p end o ≡ none
      → Whole.tag_loop write more p (entry p end o) s
        ≡ Whole.tag_loop write fuel p (entry p end o) s
  at_none fuel more o s e =
      ap (λ (f : Option ℕ). Whole.tag_loop write more p f s) e
      ∙ no_more more s
      ∙ sym (ap (λ (f : Option ℕ). Whole.tag_loop write fuel p f s) e ∙ no_more fuel s)

  at_some :
      (fuel o : ℕ) (s : Tag)
      → entry p end o ≡ some o
      → Whole.tag_loop write (suc fuel) p (entry p end o) s
        ≡ Whole.tag_loop write fuel p (entry p end (frame_end p o)) (Whole.tag_step write p o s)
  at_some fuel o s e =
      ap (λ (f : Option ℕ). Whole.tag_loop write (suc fuel) p f s) e ∙ one_more fuel o s

  enough_from :
      (fuel extra o : ℕ) (s : Tag)
      → end < fuel + o
      → Whole.tag_loop write (fuel + extra) p (entry p end o) s
        ≡ Whole.tag_loop write fuel p (entry p end o) s
  enough_from zero extra o s h =
      at_none zero (zero + extra) o s (entry-none p end o (inl (omega (arith, h))))
  enough_from (suc fuel) extra o s h = elim (dec_lt (o + 10) end) [
    | no full ↦
        at_none (suc fuel) (suc fuel + extra) o s (entry-none p end o (inl (omega (arith, full))))
    | yes room ↦ elim (Bool-cases (p o == 0)) [
      | inl e ↦
          at_none (suc fuel) (suc fuel + extra) o s
            (entry-none p end o (inr ((==_iff (p o) 0).0 e)))
      | inr e ↦
          let found : entry p end o ≡ some o =
            entry-some p end o room (λ q. absurd (ground (arith, q, e))) in
          let rounds : suc fuel + extra ≡ suc (fuel + extra) = omega arith in
          ap (λ (n : ℕ). Whole.tag_loop write n p (entry p end o) s) rounds
          ∙ at_some (fuel + extra) o s found
          ∙ enough_from fuel extra (frame_end p o) (Whole.tag_step write p o s) (omega (arith, h))
          ∙ sym (at_some fuel o s found)
    ]
  ]

  -- The loop over the frames of a tag has ended after as many rounds as `id3v2_unsynchronise` and
  -- `id3v2_undo_unsynchronise` are given here: any more rounds change nothing.
  pub tag_loop_enough :
      (extra : ℕ) (s : Tag)
      → Whole.tag_loop write (end + 1 + extra) p (Frame.next_frame p none) s
        ≡ Whole.tag_loop write (end + 1) p (Frame.next_frame p none) s
  unfolding Frame.next_frame
  tag_loop_enough extra s = enough_from (end + 1) extra (Id3.get_frames p) s (omega arith)

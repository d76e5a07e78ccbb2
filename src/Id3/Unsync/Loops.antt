-- ===== src/Id3/Unsync/Loops.antt =====
-- The two loops as the functions on lists of bytes, and how many bytes they count.
use bitstream.Base.{
  inr, inl, ℕ, zero, suc, ◌+◌, ◌-◌, ◌^◌, ◌≤◌, ◌<◌, ◌≡◌, refl, ap, ◌∙◌, true, false, ◌||◌, ◌&&◌,
  length, Bytes, Bool-cases, ◌==◌, ltb, u32, arith,
}
use bitstream.Id3.Unsync
use bitstream.Id3.Unsync.{Out, Loop}
use bitstream.Id3.Unsync.Zeros.{
  slice, after, expand, shrink, shrink_at, shrink_over, zeros_after, zeros,
}
use bitstream.Id3.Unsync.Pour.{pour}

module _ (frame_data : Bytes) (n : ℕ) where
  -- The step, by whether there is a next byte that starts a sync pattern.
  step_zero :
      (i : ℕ) (s : Loop)
      → i + 1 < n
      → Unsync.starts_sync (frame_data i) (frame_data (i + 1)) ≡ true
      → Unsync.unsync_step frame_data n i s ≡ record {
        out = Unsync.emit (Unsync.emit (s.out) (frame_data i)) 0;
        out_size = u32 (s.out_size + 1);
        altered = true;
      }
  unfolding Unsync.unsync_step
  step_zero i s h e = rw e (ground (arith, h))

  step_plain :
      (i : ℕ) (s : Loop)
      → ((ltb (i + 1) n) && (Unsync.starts_sync (frame_data i) (frame_data (i + 1)))) ≡ false
      → Unsync.unsync_step frame_data n i s ≡ record {
        out = Unsync.emit (s.out) (frame_data i);
        out_size = s.out_size;
        altered = s.altered;
      }
  unfolding Unsync.unsync_step
  step_plain i s e = rw e

  -- The results of the loop from `i` on, with `left` bytes left.
  pub record IsUnsynced (left i : ℕ) (s r : Loop) : Type 0 where
    pub out : r.out ≡ pour (s.out) (expand (slice frame_data i left))
    pub out_size : r.out_size ≡ s.out_size + zeros (slice frame_data i left)
    pub altered : r.altered ≡ (s.altered || ltb 0 (zeros (slice frame_data i left)))

  pub unsync_loop_lem :
      (left i : ℕ) (s : Loop)
      → i + left ≡ n
      → s.out_size + left < 2 ^ 32
      → IsUnsynced left i s (Unsync.unsync_loop left frame_data n i s)
  unfolding Unsync.unsync_loop
  unsync_loop_lem zero i s e h = record {
    out = unfold expand pour in refl;
    out_size = unfold zeros in omega arith;
    altered = unfold zeros in ground arith;
  }
  unsync_loop_lem (suc zero) i s e h = rw (step_plain i s (ground (arith, e))) (record {
    out = unfold expand after pour in refl;
    out_size = unfold zeros zeros_after in omega arith;
    altered = unfold zeros zeros_after in ground arith;
  })
  unsync_loop_lem (suc (suc left)) i s e h =
      elim (Bool-cases (Unsync.starts_sync (frame_data i) (frame_data (i + 1)))) [
        | inl c ↦ rw (step_zero i s (omega arith) c) (
            let ih =
              unsync_loop_lem (suc left) (i + 1)
                (record {
                  out = Unsync.emit (Unsync.emit (s.out) (frame_data i)) 0;
                  out_size = u32 (s.out_size + 1);
                  altered = true;
                })
                (omega (arith, e)) (omega (arith, h)) in
            record {
              out = ih.out ∙ (unfold expand after pour in rw c refl);
              out_size = ih.out_size ∙ (unfold zeros zeros_after in rw c (omega (arith, h)));
              altered = ih.altered ∙ (unfold zeros zeros_after in rw c (ground arith));
            })
        | inr c ↦ rw (step_plain i s (ground (arith, c))) (
            let ih =
              unsync_loop_lem (suc left) (i + 1)
                (record {
                  out = Unsync.emit (s.out) (frame_data i);
                  out_size = s.out_size;
                  altered = s.altered;
                })
                (omega (arith, e)) (omega (arith, h)) in
            record {
              out = ih.out ∙ (unfold expand after pour in rw c refl);
              out_size = ih.out_size ∙ (unfold zeros zeros_after in rw c refl);
              altered = ih.altered ∙ (unfold zeros zeros_after in rw c refl);
            })
      ]

  undo_skip :
      (i : ℕ) (s : Loop)
      → i + 1 < n
      → ((frame_data i == 0xff) && (frame_data (i + 1) == 0)) ≡ true
      → Unsync.undo_step frame_data n i s ≡ (
        record {
          out = Unsync.emit (s.out) (frame_data i);
          out_size = u32 (s.out_size + 2 ^ 32 - 1);
          altered = s.altered;
        },
        i + 2,
      )
  unfolding Unsync.undo_step
  undo_skip i s h e = rw e (ground (arith, h))

  undo_plain :
      (i : ℕ) (s : Loop)
      → ((ltb (i + 1) n) && ((frame_data i == 0xff) && (frame_data (i + 1) == 0))) ≡ false
      → Unsync.undo_step frame_data n i s ≡ (
        record {
          out = Unsync.emit (s.out) (frame_data i);
          out_size = s.out_size;
          altered = s.altered;
        },
        i + 1,
      )
  unfolding Unsync.undo_step
  undo_plain i s e = rw e

  undo_round :
      (fuel i : ℕ) (s : Loop)
      → i < n
      → Unsync.undo_loop (suc fuel) frame_data n i s
        ≡ Unsync.undo_loop fuel frame_data n
            ((Unsync.undo_step frame_data n i s).1)
            ((Unsync.undo_step frame_data n i s).0)
  unfolding Unsync.undo_loop
  undo_round fuel i s h = ground (arith, h)

  undo_end : (fuel i : ℕ) (s : Loop) → i ≡ n → Unsync.undo_loop fuel frame_data n i s ≡ s
  unfolding Unsync.undo_loop
  undo_end zero i s h = refl
  undo_end (suc fuel) i s h = ground (arith, h)

  pub record IsUndone (left i : ℕ) (s r : Loop) : Type 0 where
    pub out : r.out ≡ pour (s.out) (shrink (slice frame_data i left))
    pub out_size : r.out_size + left ≡ s.out_size + length (shrink (slice frame_data i left))
    pub altered : r.altered ≡ s.altered

  pub undo_loop_lem :
      (fuel left i : ℕ) (s : Loop)
      → i + left ≡ n
      → left ≤ fuel
      → left ≤ s.out_size
      → s.out_size < 2 ^ 32
      → IsUndone left i s (Unsync.undo_loop fuel frame_data n i s)
  undo_loop_lem fuel zero i s e h k b = rw (undo_end fuel i s (omega (arith, e))) (record {
    out = unfold shrink pour in refl;
    out_size = unfold shrink in omega arith;
    altered = refl;
  })
  undo_loop_lem zero (suc left) i s e h k b = absurd (omega (arith, h))
  undo_loop_lem (suc fuel) (suc zero) i s e h k b =
      rw
        (
          undo_round fuel i s (omega (arith, e)),
          undo_plain i s (ground (arith, e)),
          undo_end fuel (i + 1)
              (record {
                out = Unsync.emit (s.out) (frame_data i);
                out_size = s.out_size;
                altered = s.altered;
              })
              (omega (arith, e)),
        )
        (record {
          out = unfold shrink pour in refl;
          out_size = unfold shrink in omega arith;
          altered = refl;
        })
  undo_loop_lem (suc fuel) (suc (suc left)) i s e h k b =
      elim (Bool-cases ((frame_data i == 0xff) && (frame_data (i + 1) == 0))) [
        | inl c ↦
            rw (undo_round fuel i s (omega (arith, e)), undo_skip i s (omega (arith, e)) c, two i)
              (let ih =
                  undo_loop_lem fuel left (i + 1 + 1)
                    (record {
                      out = Unsync.emit (s.out) (frame_data i);
                      out_size = u32 (s.out_size + 2 ^ 32 - 1);
                      altered = s.altered;
                    })
                    (omega (arith, e)) (omega (arith, h)) (omega (arith, k, b)) (omega arith) in
                record {
                  out = ih.out ∙ (unfold shrink pour in rw c refl);
                  out_size = omega (
                    arith,
                    ih.out_size,
                    k,
                    b,
                    ap (length {A = ℕ}) (
                        shrink_over (frame_data i) (frame_data (i + 1))
                          (slice frame_data (i + 1 + 1) left) c),
                  );
                  altered = ih.altered;
                })
        | inr c ↦
            rw (undo_round fuel i s (omega (arith, e)), undo_plain i s (ground (arith, c)))
              (let ih =
                  undo_loop_lem fuel (suc left) (i + 1)
                    (record {
                      out = Unsync.emit (s.out) (frame_data i);
                      out_size = s.out_size;
                      altered = s.altered;
                    })
                    (omega (arith, e)) (omega (arith, h)) (omega (arith, k)) b in
                record {
                  out = ih.out ∙ (unfold shrink pour in rw c refl);
                  out_size = omega (
                    arith,
                    ih.out_size,
                    ap (length {A = ℕ}) (
                        shrink_at (frame_data i) (frame_data (i + 1))
                          (slice frame_data (i + 1 + 1) left) c),
                  );
                  altered = ih.altered;
                })
      ]
    where
      two : (i : ℕ) → i + 2 ≡ i + 1 + 1
      two i = omega arith

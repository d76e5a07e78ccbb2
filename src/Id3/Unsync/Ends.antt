-- ===== src/Id3/Unsync/Ends.antt =====
-- The header of a frame behind either loop.
use bitstream.Base.{
  ℕ, ◌+◌, ◌-◌, ◌^◌, ◌≤◌, ◌<◌, ◌≡◌, ◌⊎◌, inl, inr, refl, sym, ap, ◌∙◌, subst, Bool, true, List,
  length, Bytes, at, leb, u32, Bool-cases, flag_set, if◌then◌else◌, arith, memcpy,
}
use bitstream.Base.Bits.{masks, bit_or_disjoint, bit_or_bit, bit_or-zero}
use bitstream.Id3.Frame
use bitstream.Id3.Unsync
use bitstream.Id3.Unsync.{Out, Loop}
use bitstream.Id3.Unsync.Zeros.{slice}
use bitstream.Id3.Unsync.Pour.{pour, pour-outside, slice-pour, AllBytes, slice-eq, slice-at}

get_size-set_size : (b : Bytes) (v : ℕ) → v < 2 ^ 28 → Frame.get_size (Frame.set_size b v) ≡ v
unfolding Frame.get_size Frame.set_size
get_size-set_size b v h = omega masks

set_size-outside : (b : Bytes) (v j : ℕ) → (j < 4) ⊎ (8 ≤ j) → Frame.set_size b v j ≡ b j
unfolding Frame.set_size
set_size-outside b v j h = ground (arith, h)

set_unsynchronisation-outside :
    (b : Bytes) (j : ℕ) → b 8 < 256 → (j < 9) ⊎ (10 ≤ j) → Frame.set_unsynchronisation b j ≡ b j
unfolding Frame.set_unsynchronisation
set_unsynchronisation-outside b j h k = ground (arith, k, h, bit_or-zero (b 8))

nine_set : (b : Bytes) → Frame.set_unsynchronisation b 9 < 256
unfolding Frame.set_unsynchronisation
nine_set b = ground arith

has-set_unsynchronisation :
    (b : Bytes)
    → b 8 < 256
    → b 9 < 256
    → Frame.has_unsynchronisation (Frame.set_unsynchronisation b) ≡ true
unfolding Frame.has_unsynchronisation Frame.set_unsynchronisation
has-set_unsynchronisation b h k = flag_set _ (omega (masks, bit_or_disjoint 8, bit_or_bit 1))

has_unsynchronisation-eq :
    (b c : Bytes)
    → b 8 ≡ c 8
    → b 9 ≡ c 9
    → Frame.has_unsynchronisation b ≡ Frame.has_unsynchronisation c
unfolding Frame.has_unsynchronisation
has_unsynchronisation-eq b c h k = rw (h, k) refl

-- The header and what stands behind it, after the loop and the setters at its end.
record IsEnded (s : Loop) (b : Bytes) : Type 0 where
  size : Frame.get_size b ≡ s.out_size - 10
  nine : b 9 < 256
  kept : (j : ℕ) → (j < 4) ⊎ ((j ≡ 8) ⊎ (10 ≤ j)) → b j ≡ s.out.buffer j
  flagged :
      Frame.has_unsynchronisation b
      ≡ (if s.altered then true else Frame.has_unsynchronisation (s.out.buffer))

end_frame_lem :
    (s : Loop) (size : ℕ)
    → s.out.buffer 8 < 256
    → s.out.buffer 9 < 256
    → 10 ≤ size
    → 10 ≤ s.out_size
    → s.out_size < 2 ^ 28
    → IsEnded s (Unsync.end_frame s size)
unfolding Unsync.end_frame
end_frame_lem s size h k room low high =
    rw (leb_true, length_is)
      (elim (Bool-cases (s.altered)) [
        | inl e ↦ rw e (record {
          size = get_size-set_size _ _ (omega arith);
          nine = omega (
            arith,
            set_size-outside (Frame.set_unsynchronisation B) length_in 9 (inr (omega arith)),
            nine_set B,
          );
          kept = λ j c.
              set_size-outside (Frame.set_unsynchronisation B) _ j (ground (arith, c))
              ∙ set_unsynchronisation-outside B j h (ground (arith, c));
          flagged =
              has_unsynchronisation-eq (Frame.set_size (Frame.set_unsynchronisation B) length_in)
                (Frame.set_unsynchronisation B)
                (set_size-outside (Frame.set_unsynchronisation B) _ 8 (inr (omega arith)))
                (set_size-outside (Frame.set_unsynchronisation B) _ 9 (inr (omega arith)))
              ∙ has-set_unsynchronisation B h k;
        })
        | inr e ↦ rw e (record {
          size = get_size-set_size _ _ (omega arith);
          nine = omega (arith, k, set_size-outside B length_in 9 (inr (omega arith)));
          kept = λ j c. set_size-outside B _ j (ground (arith, c));
          flagged =
              has_unsynchronisation-eq (Frame.set_size B length_in) B
                (set_size-outside B _ 8 (inr (omega arith)))
                (set_size-outside B _ 9 (inr (omega arith)));
        })
      ])
  where
    B : Bytes
    B = s.out.buffer

    length_in : ℕ
    length_in = s.out_size - 10

    leb_true : leb 10 size ≡ true
    leb_true = ground (arith, room)

    length_is : u32 (s.out_size + 2 ^ 32 - 10) ≡ s.out_size - 10
    length_is = omega arith

-- The content of a frame.
abbrev pub content : Bytes → List ℕ
content p = slice (at p 10) 0 (Frame.get_size p)

-- The frame `b` holds the list, and what comes before it in the header is that of `p`.
pub record Holds (p : Bytes) (xs : List ℕ) (b : Bytes) : Type 0 where
  pub size : Frame.get_size b ≡ length xs
  pub content_is : slice (at b 10) 0 (length xs) ≡ xs
  pub header : (j : ℕ) → (j < 4) ⊎ (j ≡ 8) → b j ≡ p j
  pub nine : b 9 < 256

-- The end of either function, from what its loop has poured behind the header.
pub poured_lem :
    (p out : Bytes) (size : ℕ) (xs : List ℕ) (s : Loop) (start : Out)
    → p 8 < 256
    → p 9 < 256
    → AllBytes xs
    → 10 ≤ size
    → 10 + length xs ≤ size
    → 10 + length xs < 2 ^ 28
    → start ≡ record { buffer = memcpy out 0 p 0 10; tmp = 10; size = size - 10 }
    → s.out ≡ pour start xs
    → s.out_size ≡ 10 + length xs
    → Holds p xs (Unsync.end_frame s size)
      × (Frame.has_unsynchronisation (Unsync.end_frame s size)
          ≡ (if s.altered then true else Frame.has_unsynchronisation p))
poured_lem p out size xs s start h8 h9 a least room small began poured counted = (
  record {
    size = ended.size ∙ omega (arith, counted);
    content_is =
        slice-at _ 10 0 (length xs)
        ∙ slice-eq _ (s.out.buffer) 10 (length xs) (λ j c d. ended.kept j (inr (inr c)))
        ∙ subst (λ (o : Out). slice (o.buffer) 10 (length xs) ≡ xs) (sym filled)
            (slice-pour xs first a (omega (arith, room)));
    nine = ended.nine;
    header = λ j c. ended.kept j (ground (arith, c)) ∙ front j (ground (arith, c));
  },
  ended.flagged
      ∙ ap (λ (f : Bool). if s.altered then true else f)
          (has_unsynchronisation-eq (s.out.buffer) p (front 8 (omega arith))
            (front 9 (omega arith))),
)
  where
    first : Out
    first = record { buffer = memcpy out 0 p 0 10; tmp = 10; size = size - 10 }

    filled : s.out ≡ pour first xs
    filled = poured ∙ ap (λ (o : Out). pour o xs) began

    front : (j : ℕ) → j < 10 → s.out.buffer j ≡ p j
    front j c =
        ap (λ (o : Out). o.buffer j) filled ∙ pour-outside xs first j (inl c) ∙ ground (arith, c)

    ended : IsEnded s (Unsync.end_frame s size)
    ended =
        end_frame_lem s size (omega (arith, front 8 (omega arith), h8))
          (omega (arith, front 9 (omega arith), h9)) least (omega (arith, counted))
          (omega (arith, counted, small))

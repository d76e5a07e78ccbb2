-- ===== src/Sim/Append/Numbers.antt =====
-- The numbers that TLV_DECLARE_PARAM writes into a parameter, and reads back.
use bitstream.Base.{
  ℕ, zero, suc, ◌+◌, ◌-◌, ◌*◌, ◌%◌, ◌^◌, ◌≤◌, ◌<◌, bit_and, bit_or, ◌≡◌, refl, sym, ap, subst, ◌∙◌,
  ◌⊎◌, inl, inr, List, arith, ◌>>◌, Bytes, put, get_or,
}
use bitstream.Base.Bits.{masks, bit_or_disjoint}
use native.Mathlib.Decide.{dec_lt}
use bitstream.Sim.Append
use bitstream.Sim.Layout.{slice}

-- The byte `i` of a number of this many bytes, the first the most significant.
abbrev pub value_byte : ℕ → ℕ → Bytes
value_byte size value i = bit_and (value >> 8 * (size - i - 1)) 0xff % 256

abbrev pub value_bytes : ℕ → ℕ → List ℕ
value_bytes size value = slice (value_byte size value) 0 size

module _ (size value : ℕ) where
  pub put_value_kept :
      (k i : ℕ) (q : Bytes) (j : ℕ) → j < 4 + i → Append.put_value k size value i q j ≡ q j
  unfolding Append.put_value
  put_value_kept zero i q j h = refl
  put_value_kept (suc k) i q j h = put_value_kept k (i + 1) _ j (omega arith) ∙ ground arith

  pub put_value_filled :
      (k i : ℕ) (q : Bytes) (j : ℕ)
      → i ≤ j
      → j < i + k
      → Append.put_value k size value i q (4 + j) ≡ value_byte size value j
  unfolding Append.put_value
  put_value_filled zero i q j h g = absurd (omega arith)
  put_value_filled (suc k) i q j h g = elim (dec_lt i j) [
    | yes lt ↦ put_value_filled k (i + 1) _ j (omega arith) (omega arith)
    | no ge ↦
        let same : i ≡ j = omega arith in
        let byte = bit_and (value >> 8 * (size - i - 1)) 0xff in
        put_value_kept k (i + 1) (put q (4 + i) byte) (4 + j) (omega arith)
        ∙ subst (λ m. put q (4 + i) byte (4 + m) ≡ value_byte size value m) same (ground arith)
  ]

pub slice_at : (p : Bytes) (o n i : ℕ) → i < n → get_or (slice p o n) i 0 ≡ p (o + i)
unfolding slice
slice_at p o zero i h = absurd (omega arith)
slice_at p o (suc n) zero h = ap p (omega arith)
slice_at p o (suc n) (suc i) h = slice_at p (o + 1) n i (omega arith) ∙ ap p (omega arith)

-- The numbers of the C types that the parameters have.
abbrev pub IsSize : ℕ → Type 0
IsSize size = (size ≡ 1) ⊎ ((size ≡ 2) ⊎ (size ≡ 4))

-- Reading the bytes of a number of this size.
abbrev Reads : ℕ → ℕ → Bytes → Type 0
Reads value size q =
    value < 2 ^ (8 * size)
    → ((i : ℕ) → i < size → q (4 + i) ≡ value_byte size value i)
    → Append.get_value size size 0 0 q ≡ value

Reads-1 : (value : ℕ) (q : Bytes) → Reads value 1 q
unfolding Append.get_value
Reads-1 value q small bytes = rw (bytes 0 (omega arith)) (omega (masks, bit_or_disjoint 8))

Reads-2 : (value : ℕ) (q : Bytes) → Reads value 2 q
unfolding Append.get_value
Reads-2 value q small bytes =
    rw (bytes 0 (omega arith), bytes 1 (omega arith))
      (omega (masks, bit_or_disjoint 8, bit_or_disjoint 16))

join_4 :
    (a b c d : ℕ)
    → a < 256
    → b < 256
    → c < 256
    → d < 256
    → bit_or (bit_or (bit_or (bit_or 0 (a * 16777216)) (b * 65536)) (c * 256)) (d * 1)
      ≡ a * 16777216 + b * 65536 + c * 256 + d
join_4 a b c d ha hb hc hd =
    let e1 : bit_or 0 (a * 16777216) ≡ a * 16777216 = omega (masks, bit_or_disjoint 32) in
    let e2 : bit_or (a * 16777216) (b * 65536) ≡ a * 16777216 + b * 65536 =
      omega (masks, bit_or_disjoint 24) in
    let e3 : bit_or (a * 16777216 + b * 65536) (c * 256) ≡ a * 16777216 + b * 65536 + c * 256 =
      omega (masks, bit_or_disjoint 16) in
    rw (e1, e2, e3) (omega (masks, bit_or_disjoint 8))

Reads-4 : (value : ℕ) (q : Bytes) → Reads value 4 q
unfolding Append.get_value
Reads-4 value q small bytes =
    let byte = value_byte 4 value in
    rw (bytes 0 (omega arith), bytes 1 (omega arith), bytes 2 (omega arith), bytes 3 (omega arith))
      (join_4 (byte 0) (byte 1) (byte 2) (byte 3) (omega arith) (omega arith) (omega arith)
          (omega arith)
        ∙ omega masks)

pub get_value-value_byte : (size value : ℕ) (q : Bytes) → IsSize size → Reads value size q
get_value-value_byte size value q (inl e) = subst (λ s. Reads value s q) (sym e) (Reads-1 value q)
get_value-value_byte size value q (inr (inl e)) =
    subst (λ s. Reads value s q) (sym e) (Reads-2 value q)
get_value-value_byte size value q (inr (inr e)) =
    subst (λ s. Reads value s q) (sym e) (Reads-4 value q)

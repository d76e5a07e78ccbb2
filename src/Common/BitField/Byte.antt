-- ===== src/Common/BitField/Byte.antt =====
-- What a round of `bitstream_set_` makes of a byte.
use Prim.Native.Nat.{max}
use native.Mathlib.Decide.{dec_lt}
use bitstream.Base.{
  ℕ, ◌+◌, ◌-◌, ◌≤◌, ◌<◌, ◌≡◌, refl, sym, ap, ap₂, ◌∙◌, Bool, true, false, ◌==◌, ltb, leb, ◌&&◌, min,
  bit_and, bit_or, u8, not_u8, ◌<<◌, Bool-cases, inl, inr, if◌then◌else◌, all_below, all_below_at,
  arith,
}
use bitstream.Common.BitField.{set_mask, set_bits}
use bitstream.Common.BitField.Digits.{
  digit, digit-bit_and, digit-bit_or, digit-u8, digit_shifted_down, digit_shifted_up,
}

-- The bits of a byte that a round writes, of `nbits` that are left in it.
abbrev pub covered : ℕ → ℕ → ℕ → Bool
covered bits nbits k = ltb k nbits && leb nbits (k + bits)

mask_table :
    all_below 9 (λ bits. all_below 9 (λ nbits. all_below 8 (λ k.
      digit (set_mask bits nbits) k == (if covered bits nbits k then 1 else 0)
      && digit (not_u8 (set_mask bits nbits)) k == (if covered bits nbits k then 0 else 1))))
    ≡ true
unfolding all_below set_mask
mask_table = refl

long_mask : (bits nbits : ℕ) → 8 ≤ bits → set_mask bits nbits ≡ set_mask 8 nbits
unfolding set_mask
long_mask bits nbits h = (let long : leb 8 bits ≡ true = ground (arith, h) in rw long refl)

mask_at :
    (bits nbits k : ℕ)
    → bits < 9
    → nbits < 9
    → k < 8
    → (digit (set_mask bits nbits) k ≡ (if covered bits nbits k then 1 else 0))
      × (digit (not_u8 (set_mask bits nbits)) k ≡ (if covered bits nbits k then 0 else 1))
mask_at bits nbits k h n l =
    let entry =
      all_below_at 8 _ k (all_below_at 9 _ nbits (all_below_at 9 _ bits mask_table h) n) l in
    (ground (arith, entry), ground (arith, entry))

mask_digits :
    (bits nbits k : ℕ)
    → nbits < 9
    → k < 8
    → (digit (set_mask bits nbits) k ≡ (if covered bits nbits k then 1 else 0))
      × (digit (not_u8 (set_mask bits nbits)) k ≡ (if covered bits nbits k then 0 else 1))
mask_digits bits nbits k n l = elim (dec_lt bits 8) [
  | yes short ↦ mask_at bits nbits k (omega (arith, short)) n l
  | no long ↦
      let at_8 = mask_at 8 nbits k (omega arith) n l in
      let same = long_mask bits nbits (omega (arith, long)) in
      let cover : covered 8 nbits k ≡ covered bits nbits k = ground (arith, long, n) in
      (
        ap (λ (m : ℕ). digit m k) same ∙ at_8.0 ∙ ap (λ (c : Bool). if c then 1 else 0) cover,
        ap (λ (m : ℕ). digit (not_u8 m) k) same
            ∙ at_8.1
            ∙ ap (λ (c : Bool). if c then 0 else 1) cover,
      )
]

digit-set_bits :
    (bits nbits v k : ℕ)
    → k < 8
    → nbits ≤ k + bits
    → digit (set_bits bits nbits v) k ≡ digit v (bits + k - nbits)
unfolding set_bits
digit-set_bits bits nbits v k h l = elim (dec_lt bits nbits) [
  | yes few ↦
      let up : leb nbits bits ≡ false = ground (arith, few) in
      let place : nbits - bits + (bits + k - nbits) ≡ k = omega (arith, few, l) in
      rw up (
        digit-u8 k _ h
        ∙ ap (λ (j : ℕ). digit (v << (nbits - bits)) j) (sym place)
        ∙ digit_shifted_up v (nbits - bits) (bits + k - nbits))
  | no enough ↦
      let down : leb nbits bits ≡ true = ground (arith, enough) in
      let place : bits - nbits + k ≡ bits + k - nbits = omega (arith, enough) in
      rw down
        (digit-u8 k _ h ∙ digit_shifted_down v (bits - nbits) k ∙ ap (λ (j : ℕ). digit v j) place)
]

-- The byte of a round.
abbrev pub new_byte : ℕ → ℕ → ℕ → ℕ → ℕ
new_byte old bits nbits v = u8 (
    bit_or (bit_and old (not_u8 (set_mask bits nbits)))
      (bit_and (set_bits bits nbits v) (set_mask bits nbits)))

take_new : (a d : ℕ) → d < 2 → max (min a 0) (min d 1) ≡ d
take_new a d h = omega (arith, h)

take_old : (a d : ℕ) → a < 2 → max (min a 1) (min d 0) ≡ a
take_old a d h = omega (arith, h)

pub byte_digit :
    (old bits nbits v k : ℕ)
    → nbits < 9
    → k < 8
    → digit (new_byte old bits nbits v) k
      ≡ (if covered bits nbits k then digit v (bits + k - nbits) else digit old k)
byte_digit old bits nbits v k n h =
    let (mask, rest) = mask_digits bits nbits k n h in
    digit-u8 k _ h
    ∙ digit-bit_or k _ _
    ∙ ap₂ (λ (x y : ℕ). max x y) (digit-bit_and k _ _) (digit-bit_and k _ _)
    ∙ elim (Bool-cases (covered bits nbits k)) [
      | inl c ↦
          let picked = ap (λ (b : Bool). if b then 1 else 0) c in
          let dropped = ap (λ (b : Bool). if b then 0 else 1) c in
          ap₂ (λ (x y : ℕ). max (min (digit old k) x) (min (digit (set_bits bits nbits v) k) y))
            (rest ∙ dropped) (mask ∙ picked)
          ∙ take_new _ _ (omega arith)
          ∙ digit-set_bits bits nbits v k h (ground (arith, c))
          ∙ sym (ap (λ (b : Bool). if b then digit v (bits + k - nbits) else digit old k) c)
      | inr c ↦
          let dropped = ap (λ (b : Bool). if b then 1 else 0) c in
          let kept = ap (λ (b : Bool). if b then 0 else 1) c in
          ap₂ (λ (x y : ℕ). max (min (digit old k) x) (min (digit (set_bits bits nbits v) k) y))
            (rest ∙ kept) (mask ∙ dropped)
          ∙ take_old _ _ (omega arith)
          ∙ sym (ap (λ (b : Bool). if b then digit v (bits + k - nbits) else digit old k) c)
    ]

-- ===== src/Common/BitField/Set.antt =====
-- What `bitstream_set_` writes.
use native.Mathlib.Decide.{dec_lt}
use bitstream.Base.{
  ℕ, zero, suc, ◌+◌, ◌-◌, ◌/◌, ◌%◌, ◌≤◌, ◌<◌, ◌≡◌, refl, sym, ap, ap₂, ◌∙◌, Bool, true, false, ◌==◌,
  ltb, leb, ◌&&◌, bit_and, bit_or, not_u8, Bytes, put, Bool-cases, inl, inr, if◌then◌else◌, arith,
}
use bitstream.Common.BitField.{set_mask, set_bits, set_loop, bitstream_set}
use bitstream.Common.BitField.Digits.{digit}
use bitstream.Common.BitField.Get.{bit}
use bitstream.Common.BitField.Byte.{new_byte, covered, byte_digit}

-- The bits from `q` on that are still to be written, out of the number `v`.
abbrev pub patched : Bytes → ℕ → ℕ → ℕ → ℕ → ℕ
patched p q bits v i = if leb q i && ltb i (q + bits) then digit v (q + bits - 1 - i) else bit p i

abbrev stored : Bytes → ℕ → ℕ → ℕ → Bytes
stored p q bits v = put p (q / 8) (
    bit_or (bit_and (p (q / 8)) (not_u8 (set_mask bits (8 - q % 8))))
      (bit_and (set_bits bits (8 - q % 8) v) (set_mask bits (8 - q % 8))))

bit-stored :
    (p : Bytes) (q bits v i : ℕ)
    → bit (stored p q bits v) i ≡ (if i / 8 == q / 8 then patched p q bits v i else bit p i)
bit-stored p q bits v i = elim (Bool-cases (i / 8 == q / 8)) [
  | inl same ↦
      let e : i / 8 ≡ q / 8 = ground (arith, same) in
      let written : stored p q bits v (i / 8) ≡ new_byte (p (q / 8)) bits (8 - q % 8) v =
        ground (arith, e) in
      let cover : covered bits (8 - q % 8) (7 - i % 8) ≡ (leb q i && ltb i (q + bits)) =
        ground (arith, e) in
      let index : bits + (7 - i % 8) - (8 - q % 8) ≡ q + bits - 1 - i = omega (arith, e) in
      ap (λ (t : ℕ). digit t (7 - i % 8)) written
      ∙ byte_digit (p (q / 8)) bits (8 - q % 8) v (7 - i % 8) (omega arith) (omega arith)
      ∙ ap₂ (λ (c : Bool) (n : ℕ). if c then digit v n else digit (p (q / 8)) (7 - i % 8)) cover
          index
      ∙ ap
          (λ (j : ℕ).
            if leb q i && ltb i (q + bits)
            then digit v (q + bits - 1 - i)
            else digit (p j) (7 - i % 8))
          (sym e)
      ∙ sym (ap (λ (c : Bool). if c then patched p q bits v i else bit p i) same)
  | inr other ↦
      let kept : stored p q bits v (i / 8) ≡ p (i / 8) = ground (arith, other) in
      ap (λ (t : ℕ). digit t (7 - i % 8)) kept
      ∙ sym (ap (λ (c : Bool). if c then patched p q bits v i else bit p i) other)
]

-- The test of a position against a range, decided.
inside :
    (p : Bytes) (q bits v i : ℕ)
    → (leb q i && ltb i (q + bits)) ≡ true
    → patched p q bits v i ≡ digit v (q + bits - 1 - i)
inside p q bits v i c = ap (λ (b : Bool). if b then digit v (q + bits - 1 - i) else bit p i) c

outside :
    (p : Bytes) (q bits v i : ℕ)
    → (leb q i && ltb i (q + bits)) ≡ false
    → patched p q bits v i ≡ bit p i
outside p q bits v i c = ap (λ (b : Bool). if b then digit v (q + bits - 1 - i) else bit p i) c

-- Behind the last byte, and behind any other.
last_byte :
    (p : Bytes) (q bits v i : ℕ)
    → bits ≤ 8 - q % 8
    → bit (stored p q bits v) i ≡ patched p q bits v i
last_byte p q bits v i h = elim (Bool-cases (i / 8 == q / 8)) [
  | inl c ↦
      bit-stored p q bits v i ∙ ap (λ (b : Bool). if b then patched p q bits v i else bit p i) c
  | inr c ↦
      bit-stored p q bits v i
      ∙ ap (λ (b : Bool). if b then patched p q bits v i else bit p i) c
      ∙ sym (outside p q bits v i (ground (arith, c, h)))
]

next_byte :
    (p : Bytes) (q bits v i : ℕ)
    → 8 - q % 8 < bits
    → patched (stored p q bits v) (q + (8 - q % 8)) (bits - (8 - q % 8)) v i ≡ patched p q bits v i
next_byte p q bits v i h = elim (Bool-cases (leb (q + n) i && ltb i (q + n + (bits - n)))) [
  | inl c ↦
      let index : q + n + (bits - n) - 1 - i ≡ q + bits - 1 - i = omega (arith, h) in
      inside (stored p q bits v) (q + n) (bits - n) v i c
      ∙ ap (λ (j : ℕ). digit v j) index
      ∙ sym (inside p q bits v i (ground (arith, c, h)))
  | inr c ↦
      outside (stored p q bits v) (q + n) (bits - n) v i c
      ∙ bit-stored p q bits v i
      ∙ elim (Bool-cases (i / 8 == q / 8)) [
        | inl d ↦ ap (λ (b : Bool). if b then patched p q bits v i else bit p i) d
        | inr d ↦
            ap (λ (b : Bool). if b then patched p q bits v i else bit p i) d
            ∙ sym (outside p q bits v i (ground (arith, c, d, h)))
      ]
]
  where
    n : ℕ
    n = 8 - q % 8

set_loop_done : (fuel : ℕ) (p : Bytes) (i nbits v : ℕ) → set_loop fuel p i 0 nbits v ≡ p
unfolding set_loop
set_loop_done zero p i nbits v = refl
set_loop_done (suc fuel) p i nbits v = refl

set_round :
    (fuel : ℕ) (p : Bytes) (q bits v : ℕ)
    → set_loop (suc fuel) p (q / 8) (suc bits) (8 - q % 8) v
      ≡ set_loop fuel (stored p q (suc bits) v) (q / 8 + 1) (suc bits - (8 - q % 8)) 8 v
unfolding set_loop
set_round fuel p q bits v = (let runs : (suc bits == 0) ≡ false = ground arith in rw runs refl)

set_loop_lem :
    (fuel : ℕ) (p : Bytes) (q bits v i : ℕ)
    → bits ≤ fuel
    → bit (set_loop fuel p (q / 8) bits (8 - q % 8) v) i ≡ patched p q bits v i
set_loop_lem fuel p q zero v i h =
    let none : (leb q i && ltb i (q + 0)) ≡ false = ground arith in
    ap (λ (b : Bytes). bit b i) (set_loop_done fuel p _ _ v)
    ∙ sym (ap (λ (c : Bool). if c then digit v (q + 0 - 1 - i) else bit p i) none)
set_loop_lem zero p q (suc bits) v i h = absurd (omega (arith, h))
set_loop_lem (suc fuel) p q (suc bits) v i h = elim (dec_lt (8 - q % 8) (suc bits)) [
  | yes more ↦
      let next : q / 8 + 1 ≡ (q + (8 - q % 8)) / 8 = omega arith in
      let eight : 8 ≡ 8 - (q + (8 - q % 8)) % 8 = omega arith in
      ap (λ (b : Bytes). bit b i) (set_round fuel p q bits v)
      ∙ ap₂
          (λ (j n : ℕ).
            bit (set_loop fuel (stored p q (suc bits) v) j (suc bits - (8 - q % 8)) n v) i)
          next eight
      ∙ set_loop_lem fuel (stored p q (suc bits) v) (q + (8 - q % 8)) (suc bits - (8 - q % 8)) v i
          (omega (arith, h))
      ∙ next_byte p q (suc bits) v i more
  | no last ↦
      let none_left : suc bits - (8 - q % 8) ≡ 0 = omega (arith, last) in
      ap (λ (b : Bytes). bit b i) (set_round fuel p q bits v)
      ∙ ap (λ (n : ℕ). bit (set_loop fuel (stored p q (suc bits) v) (q / 8 + 1) n 8 v) i) none_left
      ∙ ap (λ (b : Bytes). bit b i) (set_loop_done fuel (stored p q (suc bits) v) _ _ v)
      ∙ last_byte p q (suc bits) v i (omega (arith, last))
]

-- `bitstream_set_` puts the lowest `nb_bits` bits of the value at the position, the highest first, and
-- leaves every other bit of the buffer as it is.
pub bit-bitstream_set :
    (p : Bytes) (position nb_bits v i : ℕ)
    → bit (bitstream_set p position nb_bits v) i ≡ (
        if leb position i && ltb i (position + nb_bits)
        then digit v (position + nb_bits - 1 - i)
        else bit p i)
unfolding bitstream_set
bit-bitstream_set p position nb_bits v i = set_loop_lem nb_bits p position nb_bits v i (omega arith)

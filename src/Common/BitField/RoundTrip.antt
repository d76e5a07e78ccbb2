-- ===== src/Common/BitField/RoundTrip.antt =====
-- `bitstream_get_` behind `bitstream_set_`.
use native.Mathlib.Nat.{pow-succ'}
use bitstream.Base.{
  ℕ, zero, suc, ◌+◌, ◌-◌, ◌/◌, ◌%◌, ◌^◌, ◌≤◌, ◌<◌, ◌≡◌, ◌⊎◌, refl, sym, ap, ap₂, ◌∙◌, ltb, leb,
  ◌&&◌, true, false, if◌then◌else◌, Bool, Bytes, arith,
}
use bitstream.Common.BitField.{bitstream_get, bitstream_set}
use bitstream.Common.BitField.Digits.{digit, half_first, mod-mul}
use bitstream.Common.BitField.Get.{bit, value, bitstream_get-value}
use bitstream.Common.BitField.Set.{bit-bitstream_set}

-- Bits that are the digits of `v`, the highest first, have its low digits as value.
digits-value :
    (p : Bytes) (q n v : ℕ)
    → ((j : ℕ) → j < n → bit p (q + j) ≡ digit v (n - 1 - j))
    → value p q n ≡ v % 2 ^ n
digits-value p q zero v h = omega arith
digits-value p q (suc n) v h = grind (
  arith,
  digits-value p q n (v / 2) (λ j k.
      let place : suc n - 1 - j ≡ suc (n - 1 - j) = omega (arith, k) in
      h j (omega (arith, k))
      ∙ ap (λ (m : ℕ). digit v m) place
      ∙ ap (λ (t : ℕ). t % 2) (half_first (n - 1 - j) v)),
  h n (omega arith),
  lowest,
  mod-mul v 2 (2 ^ n),
  pow-succ' 2 n,
)
  where
    lowest : digit v (suc n - 1 - n) ≡ v % 2
    lowest =
        (let none : suc n - 1 - n ≡ 0 = omega arith in ap (λ (m : ℕ). digit v m) none ∙ omega arith)

value-same :
    (p r : Bytes) (q n : ℕ)
    → ((j : ℕ) → j < n → bit p (q + j) ≡ bit r (q + j))
    → value p q n ≡ value r q n
value-same p r q zero h = refl
value-same p r q (suc n) h =
    omega (arith, value-same p r q n (λ j k. h j (omega (arith, k))), h n (omega arith))

-- Behind `bitstream_set_` at some bits, `bitstream_get_` at the same bits reads the lowest bits of
-- the value, as far as they fit its width, and at bits that share none with them it reads what it
-- read before.
pub get-bitstream_set :
    (width : ℕ) (p : Bytes) (position nb_bits v at n : ℕ)
    → (at + n ≤ position) ⊎ (position + nb_bits ≤ at)
    → (bitstream_get width (bitstream_set p position nb_bits v) position nb_bits
        ≡ v % 2 ^ nb_bits % 2 ^ width)
      × (bitstream_get width (bitstream_set p position nb_bits v) at n ≡ bitstream_get width p at n)
get-bitstream_set width p position nb_bits v at n apart = (
  bitstream_get-value width q position nb_bits
      ∙ ap (λ (x : ℕ). x % 2 ^ width)
          (digits-value q position nb_bits v (λ j k.
            let inside : (leb position (position + j) && ltb (position + j) (position + nb_bits))
                ≡ true =
              ground (arith, k) in
            let index : position + nb_bits - 1 - (position + j) ≡ nb_bits - 1 - j =
              omega (arith, k) in
            bit-bitstream_set p position nb_bits v (position + j)
            ∙ ap₂ (λ (b : Bool) (m : ℕ). if b then digit v m else bit p (position + j)) inside
                index)),
  bitstream_get-value width q at n
      ∙ ap (λ (x : ℕ). x % 2 ^ width)
          (value-same q p at n (λ j k.
            let outside : (leb position (at + j) && ltb (at + j) (position + nb_bits)) ≡ false =
              ground (arith, k, apart) in
            bit-bitstream_set p position nb_bits v (at + j)
            ∙ ap
                (λ (b : Bool).
                  if b then digit v (position + nb_bits - 1 - (at + j)) else bit p (at + j))
                outside))
      ∙ sym (bitstream_get-value width p at n),
)
  where
    q : Bytes
    q = bitstream_set p position nb_bits v

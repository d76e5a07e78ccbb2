-- ===== src/Common/BitField/Digits.antt =====
-- The binary digits of a number, and of the numbers that the bit operators make.
use native.Mathlib.Nat.{
  div-div-eq-div-mul, mul-div_cancel, mod-add-div, add-mul-mod_self_left, pow-succ',
  mod-eq-sub-mul-div, one-le-pow,
}
use Prim.Native.Nat.{max}
use bitstream.Base.{
  ap₂, ℕ, zero, suc, ◌+◌, ◌*◌, ◌/◌, ◌%◌, ◌^◌, ◌<◌, ◌≡◌, sym, ap, ◌∙◌, min, bit_and, bit_or, arith,
}
use bitstream.Base.Bits.{bit_and_step, bit_or_step}

-- The digit at 2 ^ k.
abbrev pub digit : ℕ → ℕ → ℕ
digit x k = x / 2 ^ k % 2

pub half_first : (k x : ℕ) → x / 2 ^ suc k ≡ x / 2 / 2 ^ k
half_first k x = ap (λ (t : ℕ). x / t) (pow-succ' 2 k) ∙ sym (div-div-eq-div-mul x 2 (2 ^ k))

pow-add : (j k : ℕ) → 2 ^ (j + k) ≡ 2 ^ j * 2 ^ k
pow-add zero k = let none : 0 + k ≡ k = omega arith in ap (λ (t : ℕ). 2 ^ t) none ∙ omega arith
pow-add (suc j) k =
    let moved : suc j + k ≡ suc (j + k) = omega arith in
    ap (λ (t : ℕ). 2 ^ t) moved ∙ grind (arith, pow-succ' 2 (j + k), pow-succ' 2 j, pow-add j k)

pub div-div-pow : (x j k : ℕ) → x / 2 ^ j / 2 ^ k ≡ x / 2 ^ (j + k)
div-div-pow x j k = div-div-eq-div-mul x (2 ^ j) (2 ^ k) ∙ ap (λ (t : ℕ). x / t) (sym (pow-add j k))

pub digit-bit_and : (k x y : ℕ) → digit (bit_and x y) k ≡ min (digit x k) (digit y k)
digit-bit_and zero x y = omega (arith, bit_and_step x y)
digit-bit_and (suc k) x y =
    ap (λ (t : ℕ). t % 2) (half_first k (bit_and x y))
    ∙ ap (λ (t : ℕ). digit t k) (omega (arith, bit_and_step x y))
    ∙ digit-bit_and k (x / 2) (y / 2)
    ∙ sym (ap₂ (λ (s t : ℕ). min (s % 2) (t % 2)) (half_first k x) (half_first k y))

pub digit-bit_or : (k x y : ℕ) → digit (bit_or x y) k ≡ max (digit x k) (digit y k)
digit-bit_or zero x y = omega (arith, bit_or_step x y)
digit-bit_or (suc k) x y =
    ap (λ (t : ℕ). t % 2) (half_first k (bit_or x y))
    ∙ ap (λ (t : ℕ). digit t k) (omega (arith, bit_or_step x y))
    ∙ digit-bit_or k (x / 2) (y / 2)
    ∙ sym (ap₂ (λ (s t : ℕ). max (s % 2) (t % 2)) (half_first k x) (half_first k y))

pub digit-u8 : (k x : ℕ) → k < 8 → digit (x % 2 ^ 8) k ≡ digit x k
digit-u8 zero x h = omega arith
digit-u8 (suc zero) x h = omega arith
digit-u8 (suc (suc zero)) x h = omega arith
digit-u8 (suc (suc (suc zero))) x h = omega arith
digit-u8 (suc (suc (suc (suc zero)))) x h = omega arith
digit-u8 (suc (suc (suc (suc (suc zero))))) x h = omega arith
digit-u8 (suc (suc (suc (suc (suc (suc zero)))))) x h = omega arith
digit-u8 (suc (suc (suc (suc (suc (suc (suc zero))))))) x h = omega arith
digit-u8 (suc (suc (suc (suc (suc (suc (suc (suc k)))))))) x h = absurd (omega (arith, h))

pub digit_shifted_down : (v m k : ℕ) → digit (v / 2 ^ m) k ≡ digit v (m + k)
digit_shifted_down v m k = ap (λ (t : ℕ). t % 2) (div-div-pow v m k)

pub digit_shifted_up : (v m k : ℕ) → digit (v * 2 ^ m) (m + k) ≡ digit v k
digit_shifted_up v m k =
    ap (λ (t : ℕ). t % 2)
      (sym (div-div-pow (v * 2 ^ m) m k)
        ∙ ap (λ (t : ℕ). t / 2 ^ k) (mul-div_cancel v (omega (arith, one-le-pow m 2))))

-- A remainder by a product, from the one by its first factor.
pub mod-mul : (x m n : ℕ) → x % (m * n) ≡ x / m % n * m + x % m
mod-mul x m n = grind (
  arith,
  mod-eq-sub-mul-div x (m * n),
  mod-eq-sub-mul-div x m,
  mod-eq-sub-mul-div (x / m) n,
  div-div-eq-div-mul x m n,
)

pub mod-lift : (a m k x : ℕ) → (a % m * k + x) % m ≡ (a * k + x) % m
mod-lift a m k x =
    sym (add-mul-mod_self_left (a % m * k + x) m (a / m * k))
    ∙ ap (λ (t : ℕ). t % m) (grind (arith, ap (λ (t : ℕ). t * k) (mod-add-div a m)))

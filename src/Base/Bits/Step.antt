-- ===== src/Base/Bits/Step.antt =====
-- One equation for the lowest binary digit of each operation.
use Prim.Native.Nat.{
  ℕ, zero, suc, ◌+◌, ◌-◌, ◌*◌, ◌/◌, ◌%◌, ◌≤◌, ◌<◌, min, max, differ, bit_and, bit_or, bit_xor,
  digits, bitwise, bit_and-bitwise, bit_or-bitwise, bit_xor-bitwise,
}
use mathlib.Core.Path.{◌≡◌, refl, ap, ◌∙◌}
use native.Mathlib.Omega.{arith}

differ_lem : (x y : ℕ) → x < 2 → y < 2 → differ x y ≡ (x + y) % 2
differ_lem zero y p q = omega arith
differ_lem (suc zero) zero p q = refl
differ_lem (suc zero) (suc zero) p q = refl
differ_lem (suc zero) (suc (suc y)) p q = absurd (omega arith)
differ_lem (suc (suc x)) y p q = absurd (omega arith)

module _ (rest : ℕ → ℕ) (digit : ℕ → ℕ → ℕ) where
  -- One unit of fuel beyond the first number changes nothing, and so no number of them does.
  one_more : (y x n : ℕ) → x ≤ n → digits rest digit (suc n) x y ≡ digits rest digit n x y
  one_more y (suc x) zero k = absurd (omega arith)
  one_more y (suc x) (suc n) k = rw (one_more (y / 2) (suc x / 2) n (omega arith))
  one_more y zero zero k = refl
  one_more y zero (suc n) k = refl

  spare :
      (left y x n m : ℕ) → n ≡ m + left → x ≤ m → digits rest digit n x y ≡ digits rest digit m x y
  spare zero y x n m e k = ap (λ (u : ℕ). digits rest digit u x y) (omega (arith, e))
  spare (suc left) y x zero m e k = absurd (omega (arith, e))
  spare (suc left) y x (suc n) m e k =
      one_more y x n (omega (arith, e)) ∙ spare left y x n m (omega (arith, e)) k

  abbrev half : ℕ → ℕ → ℕ
  half x y = bitwise rest digit (suc x / 2) (y / 2)

  lowest : (x y : ℕ) → bitwise rest digit (suc x) y ≡ half x y * 2 + digit (suc x % 2) (y % 2)
  lowest x y =
      ap (λ (u : ℕ). u * 2 + digit (suc x % 2) (y % 2))
        (spare (x - suc x / 2) (y / 2) (suc x / 2) x (suc x / 2) (omega arith) (omega arith))

pub bit_xor_step : (x y : ℕ) → bit_xor x y ≡ bit_xor (x / 2) (y / 2) * 2 + (x % 2 + y % 2) % 2
bit_xor_step zero y = simp bit_xor-bitwise (omega arith)
bit_xor_step (suc x) y = simp bit_xor-bitwise (
    lowest (λ u. u) differ x y
    ∙ ap (λ (u : ℕ). bitwise (λ v. v) differ (suc x / 2) (y / 2) * 2 + u)
        (differ_lem (suc x % 2) (y % 2) (omega arith) (omega arith)))

pub bit_and_step : (x y : ℕ) → bit_and x y ≡ bit_and (x / 2) (y / 2) * 2 + min (x % 2) (y % 2)
bit_and_step (suc x) y = simp bit_and-bitwise (lowest (λ u. 0) min x y)
bit_and_step zero y = simp bit_and-bitwise (omega arith)

pub bit_or_step : (x y : ℕ) → bit_or x y ≡ bit_or (x / 2) (y / 2) * 2 + max (x % 2) (y % 2)
bit_or_step (suc x) y = simp bit_or-bitwise (lowest (λ u. u) max x y)
bit_or_step zero y = simp bit_or-bitwise (omega arith)

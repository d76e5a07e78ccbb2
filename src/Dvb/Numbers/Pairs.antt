-- ===== src/Dvb/Numbers/Pairs.antt =====
-- Pairs of decimal digits in a byte.
use native.Mathlib.Nat.{div-div-eq-div-mul, div-lt_iff_lt-mul, mod-lt, add-mul-div_right}
use bitstream.Base.{
  ℕ, suc, ◌+◌, ◌-◌, ◌*◌, ◌/◌, ◌%◌, ◌^◌, ◌<◌, ◌≡◌, refl, sym, ap, ◌∙◌, true, ◌==◌, all_below,
  all_below_at, bit_and, bit_or, u8, u32, ◌<<◌, ◌>>◌, arith,
}
use bitstream.Base.Bits.{masks, bit_or_disjoint}
use bitstream.Common.BitField.Digits.{mod-mul}
use bitstream.Dvb.Numbers.{power_loop, pair}

-- The factor that the squarings make, for one to ten digits.
powers :
    all_below 10 (λ n. power_loop 32 (u32 ((suc n * 4) / 4 + 2 ^ 32 - 1)) 10 1 == 10 ^ suc n / 10)
    ≡ true
unfolding all_below power_loop
powers = refl

pub power_is :
    (n : ℕ) → n < 10 → power_loop 32 (u32 ((suc n * 4) / 4 + 2 ^ 32 - 1)) 10 1 ≡ 10 ^ suc n / 10
power_is n h = ground (arith, all_below_at 10 _ n powers h)

below_ten : (int s : ℕ) → 0 < s → int < s * 10 → int / s < 10
below_ten int s h k = (div-lt_iff_lt-mul h).1 (omega (arith, k))

pub digit_high : (int s : ℕ) → 0 < s → int < 100 * s → int / (10 * s) < 10
digit_high int s h k = below_ten int (10 * s) (omega (arith, h)) (omega (arith, k))

pub digit_low : (int s : ℕ) → 0 < s → int % (10 * s) / s < 10
digit_low int s h =
    let below : int % (10 * s) < 10 * s = mod-lt int (omega (arith, h)) in
    below_ten (int % (10 * s)) s h (omega (arith, below))

-- A byte of two digits.
abbrev pub packed : ℕ → ℕ → ℕ
packed a b = bit_or (u8 (a << 4)) b

pub packed_high : (a b : ℕ) → a < 10 → b < 10 → packed a b >> 4 ≡ a
packed_high a b h k = omega (masks, bit_or_disjoint 4, h, k)

pub packed_low : (a b : ℕ) → a < 10 → b < 10 → bit_and (packed a b) 0xf ≡ b
packed_low a b h k = omega (masks, bit_or_disjoint 4, h, k)

pub packed_byte : (a b : ℕ) → a < 10 → b < 10 → packed a b < 256
packed_byte a b h k = omega (masks, bit_or_disjoint 4, h, k)

pub pair_is : (int s : ℕ) → pair int (10 * s) ≡ packed (int / (10 * s)) (int % (10 * s) / s)
unfolding pair
pair_is int s =
    let tenth : 10 * s / 10 ≡ s = omega arith in
    ap (λ (f : ℕ). packed (int / (10 * s)) (int % (10 * s) / f)) tenth

low_of : (int s : ℕ) → 0 < s → int % (s * 10) / s ≡ int / s % 10
low_of int s h =
    let below : int % s < s = mod-lt int h in
    let none : int % s / s < 1 = (div-lt_iff_lt-mul h).1 (omega (arith, below)) in
    let split : int % (s * 10) ≡ int % s + int / s % 10 * s = omega (arith, mod-mul int s 10) in
    ap (λ (t : ℕ). t / s) split ∙ add-mul-div_right (int % s) (int / s % 10) h ∙ omega (arith, none)

-- Two digits of a number and the rest of it.
pub digits_of : (int s : ℕ) → 0 < s → int / (10 * s) * 10 + int % (10 * s) / s ≡ int / s
digits_of int s h =
    let turned : 10 * s ≡ s * 10 = omega arith in
    omega (
      arith,
      ap (λ (t : ℕ). int / t) turned ∙ sym (div-div-eq-div-mul int s 10),
      ap (λ (t : ℕ). int % t / s) turned ∙ low_of int s h,
    )

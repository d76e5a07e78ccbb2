-- ===== src/Dvb/Numbers/RoundTrip.antt =====
-- Numbers in binary-coded decimal, written and read back.
use native.Mathlib.Nat.{mod-lt, add-mul-mod_self_right, mod-add-div', mod-mod}
use bitstream.Base.{
  ◌&&◌, ℕ, zero, suc, ◌+◌, ◌-◌, ◌*◌, ◌/◌, ◌%◌, ◌^◌, ◌≤◌, ◌<◌, ◌≡◌, refl, sym, ap, ap₂, ◌∙◌, true,
  false, ◌==◌, all_below, all_below_at, ltb, if◌then◌else◌, Bool, Bool-cases, inl, inr, bit_and,
  bit_or, u8, u32, ◌<<◌, ◌>>◌, Bytes, put, arith,
}
use bitstream.Base.Bits.{masks, bit_or_under}
use bitstream.Common.BitField.Digits.{mod-mul}
use bitstream.Dvb.Numbers.{
  get_loop, add_digit, bcd_get, power_loop, pair, set_last, set_loop, bcd_set,
}
use bitstream.Dvb.Numbers.Pairs.{
  power_is, digit_high, digit_low, packed, packed_high, packed_low, packed_byte, pair_is, digits_of,
}

-- The power of ten behind the last of `m` pairs of digits, and one digit more where `odd`.
abbrev pub scale : ℕ → Bool → ℕ
scale zero odd = if odd then 10 else 1
scale (suc m) odd = 100 * scale m odd

abbrev pub width_of : ℕ → Bool → ℕ
width_of m odd = m * 8 + (if odd then 4 else 0)

scale_pos : (m : ℕ) (odd : Bool) → 0 < scale m odd
scale_pos zero true = omega arith
scale_pos zero false = omega arith
scale_pos (suc m) odd = omega (arith, scale_pos m odd)

set_last-before : (p : Bytes) (i int factor j : ℕ) → j < i → set_last p i int factor j ≡ p j
unfolding set_last
set_last-before p i int factor j h = ground (arith, h)

set_loop-before :
    (fuel : ℕ) (p : Bytes) (i int factor j : ℕ) → j < i → set_loop fuel p i int factor j ≡ p j
unfolding set_loop
set_loop-before zero p i int factor j h = set_last-before p i int factor j h
set_loop-before (suc fuel) p i int factor j h = elim (Bool-cases (ltb factor 10)) [
  | inl e ↦ rw e (set_last-before p i int factor j h)
  | inr e ↦ rw e (set_loop-before fuel _ (i + 1) _ _ j (omega (arith, h)) ∙ ground (arith, h))
]

set_loop_end :
    (fuel : ℕ) (p : Bytes) (i int factor : ℕ)
    → factor < 10
    → set_loop fuel p i int factor ≡ set_last p i int factor
unfolding set_loop
set_loop_end zero p i int factor h = refl
set_loop_end (suc fuel) p i int factor h =
    (let small : ltb factor 10 ≡ true = ground (arith, h) in rw small refl)

set_loop_more :
    (fuel : ℕ) (p : Bytes) (i int s : ℕ)
    → 0 < s
    → set_loop (suc fuel) p i int (100 * s / 10)
      ≡ set_loop fuel (put p i (pair int (10 * s))) (i + 1) (int % (10 * s) % s) (s / 10)
unfolding set_loop
set_loop_more fuel p i int s h =
    let factor : 100 * s / 10 ≡ 10 * s = omega arith in
    let tenth : 10 * s / 10 ≡ s = omega arith in
    let large : ltb (10 * s) 10 ≡ false = ground (arith, h) in
    ap (λ (f : ℕ). set_loop (suc fuel) p i int f) factor
    ∙ rw large (
        ap
          (λ (f : ℕ).
            set_loop fuel (put p i (pair int (10 * s))) (i + 1) (int % (10 * s) % f) (f / 10))
          tenth)

get_loop_more :
    (fuel : ℕ) (p : Bytes) (i m result : ℕ) (odd : Bool)
    → get_loop (suc fuel) p i (width_of (suc m) odd) result
      ≡ get_loop fuel p
          (i + 1)
          (width_of m odd)
          (add_digit (add_digit result (p i >> 4)) (bit_and (p i) 0xf))
unfolding get_loop
get_loop_more fuel p i m result odd =
    let wide : ltb (width_of (suc m) odd) 8 ≡ false = ground arith in
    let rest : width_of (suc m) odd - 8 ≡ width_of m odd = omega arith in
    rw wide (
      ap
        (λ (w : ℕ).
          get_loop fuel p (i + 1) w (add_digit (add_digit result (p i >> 4)) (bit_and (p i) 0xf)))
        rest)

add_digits :
    (result a b : ℕ)
    → result * 100 + a * 10 + b < 2 ^ 32
    → add_digit (add_digit result a) b ≡ result * 100 + a * 10 + b
unfolding add_digit
add_digits result a b h = omega (arith, h)

last_digit :
    (fuel : ℕ) (p : Bytes) (i int result : ℕ)
    → int < 10
    → result * 10 + int < 2 ^ 32
    → get_loop (suc fuel) (set_last p i int 1) i 4 result ≡ result * 10 + int
unfolding get_loop set_last add_digit
last_digit fuel p i int result h k =
    let written : set_last p i int 1 i ≡ bit_or (bit_and (p i) 0xf) (u8 (int << 4)) % 256 =
      ground arith in
    omega (masks, bit_or_under 4, h, k, written)

no_digit : (fuel : ℕ) (p : Bytes) (i result : ℕ) → get_loop (suc fuel) p i 0 result ≡ result
unfolding get_loop
no_digit fuel p i result = refl

rest_of : (int s : ℕ) → int % (10 * s) % s ≡ int % s
rest_of int s =
    let split : int % (10 * s) ≡ int % s + int / s % 10 * s =
      (let turned : 10 * s ≡ s * 10 = omega arith in
        ap (λ (t : ℕ). int % t) turned ∙ omega (arith, mod-mul int s 10)) in
    ap (λ (t : ℕ). t % s) split ∙ add-mul-mod_self_right (int % s) (int / s % 10) s ∙ mod-mod int s

-- The number from the digits so far and those that are left.
total : (r s int x : ℕ) → x ≡ r * 100 + int / s → x * s + int % s ≡ r * (100 * s) + int
total r s int x e = grind (arith, ap (λ (t : ℕ). t * s) e, mod-add-div' int s)

grows : (x s n : ℕ) → 0 < s → x * s + n < 2 ^ 32 → x < 2 ^ 32
grows x zero n h k = absurd (omega (arith, h))
grows x (suc s) n h k = grind (arith, k)

-- Reading what was written gives the number behind the digits that were read before.
get_loop-set_loop :
    (m f g : ℕ) (p : Bytes) (i int result : ℕ) (odd : Bool)
    → m ≤ f
    → m < g
    → int < scale m odd
    → result * scale m odd + int < 2 ^ 32
    → get_loop g (set_loop f p i int (scale m odd / 10)) i (width_of m odd) result
      ≡ result * scale m odd + int
get_loop-set_loop m f zero p i int result odd a b c d = absurd (omega (arith, b))
get_loop-set_loop zero f (suc g) p i int result true a b c d =
    ap (λ (q : Bytes). get_loop (suc g) q i 4 result) (set_loop_end f p i int 1 (omega arith))
    ∙ last_digit g p i int result c d
get_loop-set_loop zero f (suc g) p i int result false a b c d =
    no_digit g (set_loop f p i int 0) i result ∙ omega (arith, c)
get_loop-set_loop (suc m) zero (suc g) p i int result odd a b c d = absurd (omega (arith, a))
get_loop-set_loop (suc m) (suc f) (suc g) p i int result odd a b c d =
    let a_digit = digit_high int s pos (omega (arith, c)) in
    let b_digit = digit_low int s pos in
    let parts : hi * 10 + lo ≡ int / s = digits_of int s pos in
    let x : ℕ = result * 100 + hi * 10 + lo in
    let whole : x * s + int % s ≡ result * (100 * s) + int =
      total result s int x (omega (arith, parts)) in
    let small : x < 2 ^ 32 = grows x s (int % s) pos (omega (arith, whole, d)) in
    let byte = at_i a_digit b_digit in
    ap (λ (q : Bytes). get_loop (suc g) q i (width_of (suc m) odd) result)
      (set_loop_more f p i int s pos)
    ∙ get_loop_more g C i m result odd
    ∙ ap₂ (λ (y z : ℕ). get_loop g C (i + 1) (width_of m odd) (add_digit (add_digit result y) z))
        (ap (λ (t : ℕ). t >> 4) byte ∙ packed_high hi lo a_digit b_digit)
        (ap (λ (t : ℕ). bit_and t 0xf) byte ∙ packed_low hi lo a_digit b_digit)
    ∙ ap (λ (y : ℕ). get_loop g C (i + 1) (width_of m odd) y) (add_digits result hi lo small)
    ∙ get_loop-set_loop m f g (put p i (pair int (10 * s))) (i + 1) (int % (10 * s) % s) x odd
        (omega (arith, a)) (omega (arith, b)) (omega (arith, rest_of int s, mod-lt int pos))
        (omega (arith, rest_of int s, whole, d))
    ∙ omega (arith, rest_of int s, whole)
  where
    s : ℕ
    s = scale m odd

    pos : 0 < s
    pos = scale_pos m odd

    hi : ℕ
    hi = int / (10 * s)

    lo : ℕ
    lo = int % (10 * s) / s

    C : Bytes
    C = set_loop f (put p i (pair int (10 * s))) (i + 1) (int % (10 * s) % s) (s / 10)

    at_i : hi < 10 → lo < 10 → C i ≡ packed hi lo
    at_i h k =
        set_loop-before f (put p i (pair int (10 * s))) (i + 1) _ _ i (omega arith)
        ∙ ground (arith, pair_is int s, packed_byte hi lo h k)

-- Half the digits are pairs.
scale_table :
    all_below 10 (λ n.
      scale (suc n / 2) (suc n % 2 == 1) == 10 ^ suc n
      && width_of (suc n / 2) (suc n % 2 == 1) == suc n * 4)
    ≡ true
unfolding all_below
scale_table = refl

-- `dvb_bcd_get` reads back what `dvb_bcd_set` wrote, of one to ten digits, for every number of 32 bits
-- that has no more digits than that.
pub bcd_get-bcd_set :
    (p : Bytes) (digits int : ℕ)
    → 1 ≤ digits
    → digits ≤ 10
    → int < 10 ^ digits
    → int < 2 ^ 32
    → bcd_get (bcd_set p int (digits * 4)) (digits * 4) ≡ int
unfolding bcd_get bcd_set
bcd_get-bcd_set p zero int h k l w = absurd (omega (arith, h))
bcd_get-bcd_set p (suc n) int h k l w =
    let entry = all_below_at 10 _ n scale_table (omega (arith, k)) in
    let m : ℕ = suc n / 2 in
    let odd : Bool = suc n % 2 == 1 in
    let scaled : scale m odd ≡ 10 ^ suc n = ground (arith, entry) in
    let wide : width_of m odd ≡ suc n * 4 = ground (arith, entry) in
    let factor : power_loop 32 (u32 ((suc n * 4) / 4 + 2 ^ 32 - 1)) 10 1 ≡ scale m odd / 10 =
      power_is n (omega (arith, k)) ∙ ap (λ (t : ℕ). t / 10) (sym scaled) in
    ap₂ (λ (f x : ℕ). get_loop (suc n * 4 / 8 + 1) (set_loop 5 p 0 int f) 0 x 0) factor (sym wide)
    ∙ get_loop-set_loop m 5 (suc n * 4 / 8 + 1) p 0 int 0 odd (omega (arith, k)) (omega arith)
        (omega (arith, scaled, l)) (omega (arith, w))
    ∙ omega arith

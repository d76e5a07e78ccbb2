-- ===== src/Psi/Crc/Shift.antt =====
-- One bit of the checksum as a linear and injective map of the register.
use native.Mathlib.Nat.{pow-suc, one-le-pow}
use bitstream.Base.{
  ℕ, zero, suc, ◌*◌, ◌/◌, ◌%◌, ◌^◌, ◌<◌, ◌≡◌, refl, ap, ap₂, ◌∙◌, bit_and, bit_xor, u32, ◌<<◌, flag,
  if◌then◌else◌, arith,
}
use bitstream.Base.Bits.{
  bit_and_field, bit_xor-lt, bit_xor-shift, bit_xor-zero, zero-bit_xor, bit_xor_middle,
  bit_xor_right, bit_xor_split, bit_xor-parity,
}

-- What is mixed in where the top bit of the register is set.
unfoldable pub feedback : ℕ → ℕ
feedback c = if flag (bit_and c 0x80000000) then 0x04c11db7 else 0

unfoldable pub shift_bit : ℕ → ℕ
shift_bit c = bit_xor (u32 (c << 1)) (feedback c)

unfoldable pub shift_bits : ℕ → ℕ → ℕ
shift_bits zero c = c
shift_bits (suc n) c = shift_bits n (shift_bit c)

pub feedback-lt : (c : ℕ) → feedback c < 2 ^ 32
unfolding feedback
feedback-lt c = ground arith

feedback_top : (c : ℕ) → c < 2 ^ 32 → feedback c ≡ c / 2 ^ 31 * 0x04c11db7
unfolding feedback
feedback_top c h = ground (arith, bit_and_field 31 1 c)

pub shift_bit-lt : (c : ℕ) → c < 2 ^ 32 → shift_bit c < 2 ^ 32
unfolding shift_bit
shift_bit-lt c h = bit_xor-lt 32 _ _ (omega arith) (omega (arith, feedback_top c h))

xor_bit :
    (x y : ℕ) → x < 2 → y < 2 → bit_xor x y * 0x04c11db7 ≡ bit_xor (x * 0x04c11db7) (y * 0x04c11db7)
xor_bit zero y p q = ground (arith, zero-bit_xor y, zero-bit_xor (y * 0x04c11db7))
xor_bit (suc zero) zero p q = refl
xor_bit (suc zero) (suc zero) p q = refl
xor_bit (suc zero) (suc (suc y)) p q = absurd (omega arith)
xor_bit (suc (suc x)) y p q = absurd (omega arith)

feedback-xor :
    (a b : ℕ) → a < 2 ^ 32 → b < 2 ^ 32 → feedback (bit_xor a b) ≡ bit_xor (feedback a) (feedback b)
feedback-xor a b h g = omega (
  arith,
  feedback_top (bit_xor a b) (bit_xor-lt 32 a b h g),
  bit_xor_split 31 a b,
  xor_bit (a / 2 ^ 31) (b / 2 ^ 31) (omega arith) (omega arith),
  ap₂ bit_xor (feedback_top a h) (feedback_top b g),
)

pub doubled-xor : (a b : ℕ) → u32 (bit_xor a b << 1) ≡ bit_xor (u32 (a << 1)) (u32 (b << 1))
doubled-xor a b = omega (
  arith,
  bit_xor_split 31 a b,
  bit_xor-shift 1 (a % 2 ^ 31) (b % 2 ^ 31),
  ap₂ bit_xor (low a) (low b),
)
  where
    low : (x : ℕ) → u32 (x << 1) ≡ x % 2 ^ 31 * 2 ^ 1
    low x = omega arith

pub shift_bit-xor :
    (a b : ℕ)
    → a < 2 ^ 32
    → b < 2 ^ 32
    → shift_bit (bit_xor a b) ≡ bit_xor (shift_bit a) (shift_bit b)
unfolding shift_bit
shift_bit-xor a b h g =
    ap₂ bit_xor (doubled-xor a b) (feedback-xor a b h g)
    ∙ bit_xor_middle (u32 (a << 1)) (u32 (b << 1)) (feedback a) (feedback b)

pub shift_bits-xor :
    (n a b : ℕ)
    → a < 2 ^ 32
    → b < 2 ^ 32
    → shift_bits n (bit_xor a b) ≡ bit_xor (shift_bits n a) (shift_bits n b)
unfolding shift_bits
shift_bits-xor zero a b h g = refl
shift_bits-xor (suc n) a b h g =
    ap (shift_bits n) (shift_bit-xor a b h g)
    ∙ shift_bits-xor n (shift_bit a) (shift_bit b) (shift_bit-lt a h) (shift_bit-lt b g)

-- While the top bits are clear a round only shifts.
shift_bit_low : (c : ℕ) → c < 2 ^ 31 → shift_bit c ≡ 2 * c
unfolding shift_bit
shift_bit_low c h = omega (
  arith,
  ap (bit_xor (u32 (c << 1))) (feedback_top c (omega arith) ∙ zero_top),
  bit_xor-zero (u32 (c << 1)),
)
  where
    zero_top : c / 2 ^ 31 * 0x04c11db7 ≡ 0
    zero_top = omega arith

pub shift_bits_low : (n c : ℕ) → c * 2 ^ n < 2 ^ 32 → shift_bits n c ≡ c * 2 ^ n
unfolding shift_bits
shift_bits_low zero c h = omega arith
shift_bits_low (suc n) c h =
    ap (shift_bits n) (shift_bit_low c small)
    ∙ shift_bits_low n (2 * c) (omega (arith, twice))
    ∙ twice
  where
    twice : 2 * c * 2 ^ n ≡ c * 2 ^ suc n
    twice = omega (arith, ap (λ (t : ℕ). c * t) (pow-suc 2 n))

    small : c < 2 ^ 31
    small = grind (arith, twice, one-le-pow n 2)

-- The polynomial is odd, so the bit that falls out at the top shows at the bottom.
shift_bit_parity : (c : ℕ) → c < 2 ^ 32 → shift_bit c % 2 ≡ c / 2 ^ 31
unfolding shift_bit
shift_bit_parity c h = omega (arith, bit_xor-parity (u32 (c << 1)) (feedback c), feedback_top c h)

shift_bit_injective : (a b : ℕ) → a < 2 ^ 32 → b < 2 ^ 32 → shift_bit a ≡ shift_bit b → a ≡ b
shift_bit_injective a b h g e =
    omega (arith, top, bit_xor_right (u32 (a << 1)) (u32 (b << 1)) (feedback a) same)
  where
    top : a / 2 ^ 31 ≡ b / 2 ^ 31
    top = omega (arith, shift_bit_parity a h, shift_bit_parity b g)

    same : bit_xor (u32 (a << 1)) (feedback a) ≡ bit_xor (u32 (b << 1)) (feedback a)
    same =
        unfold shift_bit in
        (e ∙ ap (bit_xor (u32 (b << 1))) (omega (arith, feedback_top a h, feedback_top b g, top)))

pub shift_bits_injective :
    (n a b : ℕ) → a < 2 ^ 32 → b < 2 ^ 32 → shift_bits n a ≡ shift_bits n b → a ≡ b
unfolding shift_bits
shift_bits_injective zero a b h g e = e
shift_bits_injective (suc n) a b h g e =
    shift_bit_injective a b h g
      (shift_bits_injective n (shift_bit a) (shift_bit b) (shift_bit-lt a h) (shift_bit-lt b g) e)

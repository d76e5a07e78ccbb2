-- ===== src/Base/Bits/Masks.antt =====
-- The same at the masks that the headers use, in the form that `omega` applies by itself.
use Prim.Native.Nat.{ℕ, ◌-◌, ◌*◌, ◌/◌, ◌%◌, ◌^◌, ◌<◌, bit_and}
use mathlib.Core.Path.{◌≡◌, refl}
use mathlib.Core.Bool.{Bool, true}
use native.Mathlib.Omega.{arith}
use bitstream.Base.Tests.{all_below, all_below_at, ==_iff, ◌==◌}
use bitstream.Base.Bits.Fields.{bit_and_field}

-- `& m` for every mask `m` of one run of bits in a byte.
pub and_0x01 : (x : ℕ) → bit_and x 0x01 ≡ x % 2
and_0x01 x = omega (arith, bit_and_field 0 1 x)

pub and_0x02 : (x : ℕ) → bit_and x 0x02 ≡ x / 2 % 2 * 2
and_0x02 = bit_and_field 1 1

pub and_0x03 : (x : ℕ) → bit_and x 0x03 ≡ x % 4
and_0x03 x = omega (arith, bit_and_field 0 2 x)

pub and_0x04 : (x : ℕ) → bit_and x 0x04 ≡ x / 4 % 2 * 4
and_0x04 = bit_and_field 2 1

pub and_0x06 : (x : ℕ) → bit_and x 0x06 ≡ x / 2 % 4 * 2
and_0x06 = bit_and_field 1 2

pub and_0x07 : (x : ℕ) → bit_and x 0x07 ≡ x % 8
and_0x07 x = omega (arith, bit_and_field 0 3 x)

pub and_0x08 : (x : ℕ) → bit_and x 0x08 ≡ x / 8 % 2 * 8
and_0x08 = bit_and_field 3 1

pub and_0x0c : (x : ℕ) → bit_and x 0x0c ≡ x / 4 % 4 * 4
and_0x0c = bit_and_field 2 2

pub and_0x0e : (x : ℕ) → bit_and x 0x0e ≡ x / 2 % 8 * 2
and_0x0e = bit_and_field 1 3

pub and_0x0f : (x : ℕ) → bit_and x 0x0f ≡ x % 16
and_0x0f x = omega (arith, bit_and_field 0 4 x)

pub and_0x10 : (x : ℕ) → bit_and x 0x10 ≡ x / 16 % 2 * 16
and_0x10 = bit_and_field 4 1

pub and_0x18 : (x : ℕ) → bit_and x 0x18 ≡ x / 8 % 4 * 8
and_0x18 = bit_and_field 3 2

pub and_0x1c : (x : ℕ) → bit_and x 0x1c ≡ x / 4 % 8 * 4
and_0x1c = bit_and_field 2 3

pub and_0x1e : (x : ℕ) → bit_and x 0x1e ≡ x / 2 % 16 * 2
and_0x1e = bit_and_field 1 4

pub and_0x1f : (x : ℕ) → bit_and x 0x1f ≡ x % 32
and_0x1f x = omega (arith, bit_and_field 0 5 x)

pub and_0x20 : (x : ℕ) → bit_and x 0x20 ≡ x / 32 % 2 * 32
and_0x20 = bit_and_field 5 1

pub and_0x30 : (x : ℕ) → bit_and x 0x30 ≡ x / 16 % 4 * 16
and_0x30 = bit_and_field 4 2

pub and_0x38 : (x : ℕ) → bit_and x 0x38 ≡ x / 8 % 8 * 8
and_0x38 = bit_and_field 3 3

pub and_0x3c : (x : ℕ) → bit_and x 0x3c ≡ x / 4 % 16 * 4
and_0x3c = bit_and_field 2 4

pub and_0x3e : (x : ℕ) → bit_and x 0x3e ≡ x / 2 % 32 * 2
and_0x3e = bit_and_field 1 5

pub and_0x3f : (x : ℕ) → bit_and x 0x3f ≡ x % 64
and_0x3f x = omega (arith, bit_and_field 0 6 x)

pub and_0x40 : (x : ℕ) → bit_and x 0x40 ≡ x / 64 % 2 * 64
and_0x40 = bit_and_field 6 1

pub and_0x60 : (x : ℕ) → bit_and x 0x60 ≡ x / 32 % 4 * 32
and_0x60 = bit_and_field 5 2

pub and_0x70 : (x : ℕ) → bit_and x 0x70 ≡ x / 16 % 8 * 16
and_0x70 = bit_and_field 4 3

pub and_0x78 : (x : ℕ) → bit_and x 0x78 ≡ x / 8 % 16 * 8
and_0x78 = bit_and_field 3 4

pub and_0x7c : (x : ℕ) → bit_and x 0x7c ≡ x / 4 % 32 * 4
and_0x7c = bit_and_field 2 5

pub and_0x7e : (x : ℕ) → bit_and x 0x7e ≡ x / 2 % 64 * 2
and_0x7e = bit_and_field 1 6

pub and_0x7f : (x : ℕ) → bit_and x 0x7f ≡ x % 128
and_0x7f x = omega (arith, bit_and_field 0 7 x)

pub and_0x80 : (x : ℕ) → bit_and x 0x80 ≡ x / 128 % 2 * 128
and_0x80 = bit_and_field 7 1

pub and_0xc0 : (x : ℕ) → bit_and x 0xc0 ≡ x / 64 % 4 * 64
and_0xc0 = bit_and_field 6 2

pub and_0xe0 : (x : ℕ) → bit_and x 0xe0 ≡ x / 32 % 8 * 32
and_0xe0 = bit_and_field 5 3

pub and_0xf0 : (x : ℕ) → bit_and x 0xf0 ≡ x / 16 % 16 * 16
and_0xf0 = bit_and_field 4 4

pub and_0xf8 : (x : ℕ) → bit_and x 0xf8 ≡ x / 8 % 32 * 8
and_0xf8 = bit_and_field 3 5

pub and_0xfc : (x : ℕ) → bit_and x 0xfc ≡ x / 4 % 64 * 4
and_0xfc = bit_and_field 2 6

pub and_0xfe : (x : ℕ) → bit_and x 0xfe ≡ x / 2 % 128 * 2
and_0xfe = bit_and_field 1 7

pub and_0xff : (x : ℕ) → bit_and x 0xff ≡ x % 256
and_0xff x = omega (arith, bit_and_field 0 8 x)

pub and_0x1f00 : (x : ℕ) → bit_and x 0x1f00 ≡ x / 2 ^ 8 % 2 ^ 5 * 2 ^ 8
and_0x1f00 = bit_and_field 8 5

pub and_0xff00 : (x : ℕ) → bit_and x 0xff00 ≡ x / 2 ^ 8 % 2 ^ 8 * 2 ^ 8
and_0xff00 = bit_and_field 8 8

pub and_0xff0000 : (x : ℕ) → bit_and x 0xff0000 ≡ x / 2 ^ 16 % 2 ^ 8 * 2 ^ 16
and_0xff0000 = bit_and_field 16 8

pub and_0xff000000 : (x : ℕ) → bit_and x 0xff000000 ≡ x / 2 ^ 24 % 2 ^ 8 * 2 ^ 24
and_0xff000000 = bit_and_field 24 8

-- Masks of a byte with one bit clear, by evaluation.
abbrev clear_0xfd : ℕ → Bool
clear_0xfd x = bit_and x 0xfd == x - x / 2 % 2 * 2

table_0xfd : all_below 256 clear_0xfd ≡ true
unfolding all_below
table_0xfd = refl

pub and_0xfd : (x : ℕ) → x < 256 → bit_and x 0xfd ≡ x - x / 2 % 2 * 2
and_0xfd x h = (==_iff _ _).0 (all_below_at 256 clear_0xfd x table_0xfd h)

abbrev clear_0xfb : ℕ → Bool
clear_0xfb x = bit_and x 0xfb == x - x / 4 % 2 * 4

table_0xfb : all_below 256 clear_0xfb ≡ true
unfolding all_below
table_0xfb = refl

pub and_0xfb : (x : ℕ) → x < 256 → bit_and x 0xfb ≡ x - x / 4 % 2 * 4
and_0xfb x h = (==_iff _ _).0 (all_below_at 256 clear_0xfb x table_0xfb h)

abbrev clear_0xf7 : ℕ → Bool
clear_0xf7 x = bit_and x 0xf7 == x - x / 8 % 2 * 8

table_0xf7 : all_below 256 clear_0xf7 ≡ true
unfolding all_below
table_0xf7 = refl

pub and_0xf7 : (x : ℕ) → x < 256 → bit_and x 0xf7 ≡ x - x / 8 % 2 * 8
and_0xf7 x h = (==_iff _ _).0 (all_below_at 256 clear_0xf7 x table_0xf7 h)

abbrev clear_0xef : ℕ → Bool
clear_0xef x = bit_and x 0xef == x - x / 16 % 2 * 16

table_0xef : all_below 256 clear_0xef ≡ true
unfolding all_below
table_0xef = refl

pub and_0xef : (x : ℕ) → x < 256 → bit_and x 0xef ≡ x - x / 16 % 2 * 16
and_0xef x h = (==_iff _ _).0 (all_below_at 256 clear_0xef x table_0xef h)

abbrev clear_0xdf : ℕ → Bool
clear_0xdf x = bit_and x 0xdf == x - x / 32 % 2 * 32

table_0xdf : all_below 256 clear_0xdf ≡ true
unfolding all_below
table_0xdf = refl

pub and_0xdf : (x : ℕ) → x < 256 → bit_and x 0xdf ≡ x - x / 32 % 2 * 32
and_0xdf x h = (==_iff _ _).0 (all_below_at 256 clear_0xdf x table_0xdf h)

abbrev clear_0xbf : ℕ → Bool
clear_0xbf x = bit_and x 0xbf == x - x / 64 % 2 * 64

table_0xbf : all_below 256 clear_0xbf ≡ true
unfolding all_below
table_0xbf = refl

pub and_0xbf : (x : ℕ) → x < 256 → bit_and x 0xbf ≡ x - x / 64 % 2 * 64
and_0xbf x h = (==_iff _ _).0 (all_below_at 256 clear_0xbf x table_0xbf h)

pub ruleset masks = (
  arith, and_0x01, and_0x02, and_0x03, and_0x04, and_0x06, and_0x07, and_0x08, and_0x0c, and_0x0e,
  and_0x0f, and_0x10, and_0x18, and_0x1c, and_0x1e, and_0x1f, and_0x20, and_0x30, and_0x38,
  and_0x3c, and_0x3e, and_0x3f, and_0x40, and_0x60, and_0x70, and_0x78, and_0x7c, and_0x7e,
  and_0x7f, and_0x80, and_0xc0, and_0xe0, and_0xf0, and_0xf8, and_0xfc, and_0xfe, and_0xff,
  and_0x1f00, and_0xff00, and_0xff0000, and_0xff000000, and_0xfd, and_0xfb, and_0xf7, and_0xef,
  and_0xdf, and_0xbf,
)

-- ===== src/Base/Bits/Fields.antt =====
-- `&` with a field's mask and `|` of disjoint values, at every width.
use Prim.Native.Nat.{
  ℕ, zero, suc, ◌+◌, ◌-◌, ◌*◌, ◌/◌, ◌%◌, ◌^◌, ◌<◌, bit_and, bit_or, bit_or-bitwise,
}
use mathlib.Core.Path.{◌≡◌, refl, sym, ap, ap₂, ◌∙◌}
use native.Mathlib.Nat.{pow-suc, one-le-pow, div-div-eq-div-mul}
use native.Mathlib.Omega.{arith}
use bitstream.Base.Bits.Step.{bit_or_step, bit_and_step}

-- The laws with an operand 0, by the number of digits left.
or_zero_fuel : (n a : ℕ) → a < n → bit_or a 0 ≡ a
or_zero_fuel zero a h = absurd (omega arith)
or_zero_fuel (suc n) zero h = refl
or_zero_fuel (suc n) (suc a) h =
    omega (arith, bit_or_step (suc a) 0, or_zero_fuel n (suc a / 2) (omega arith))

pub bit_or-zero : (a : ℕ) → bit_or a 0 ≡ a
bit_or-zero a = or_zero_fuel (suc a) a (omega arith)

and_zero_fuel : (n a : ℕ) → a < n → bit_and a 0 ≡ 0
and_zero_fuel zero a h = absurd (omega arith)
and_zero_fuel (suc n) zero h = refl
and_zero_fuel (suc n) (suc a) h =
    omega (arith, bit_and_step (suc a) 0, and_zero_fuel n (suc a / 2) (omega arith))

pub bit_and-zero : (a : ℕ) → bit_and a 0 ≡ 0
bit_and-zero a = and_zero_fuel (suc a) a (omega arith)

or_comm_fuel : (n a b : ℕ) → a + b < n → bit_or a b ≡ bit_or b a
or_comm_fuel zero a b h = absurd (omega arith)
or_comm_fuel (suc n) zero b h = omega (arith, bit_or-zero b, bit_or-bitwise 0 b)
or_comm_fuel (suc n) (suc a) b h = omega (
  arith,
  bit_or_step (suc a) b,
  bit_or_step b (suc a),
  or_comm_fuel n (suc a / 2) (b / 2) (omega arith),
)

pub bit_or_comm : (a b : ℕ) → bit_or a b ≡ bit_or b a
bit_or_comm a b = or_comm_fuel (suc (a + b)) a b (omega arith)

double : (q k : ℕ) → q * 2 ^ suc k ≡ 2 * (q * 2 ^ k)
double q k = omega (arith, ap (λ (t : ℕ). q * t) (pow-suc 2 k))

-- `(q << k) | r` is a sum where `r` has `k` bits.
pub bit_or_shifted : (k q r : ℕ) → r < 2 ^ k → bit_or (q * 2 ^ k) r ≡ q * 2 ^ k + r
bit_or_shifted zero q r h = ground (arith, bit_or-zero q)
bit_or_shifted (suc k) q r h =
    ground
      (arith, bit_or_step (q * 2 ^ suc k) r, double q k, bit_or_shifted k q (r / 2) (omega arith))

pub bit_or_disjoint : (k x y : ℕ) → x % 2 ^ k ≡ 0 → y < 2 ^ k → bit_or x y ≡ x + y
bit_or_disjoint k x y e h = ground (arith, bit_or_shifted k (x / 2 ^ k) y)

pub bit_or_under : (k x y : ℕ) → x < 2 ^ k → y % 2 ^ k ≡ 0 → bit_or x y ≡ x + y
bit_or_under k x y h e = bit_or_comm x y ∙ omega (arith, bit_or_disjoint k y x e h)

-- Below a field that starts at bit `k`, and that is empty in the first number, nothing changes.
or_above : (k a l m : ℕ) → l < 2 ^ k → bit_or (a * 2 ^ k + l) (m * 2 ^ k) ≡ bit_or a m * 2 ^ k + l
or_above zero a l m h = ground arith
or_above (suc k) a l m h = ground (
  arith,
  bit_or_step (a * 2 ^ suc k + l) (m * 2 ^ suc k),
  double a k,
  double m k,
  double (bit_or a m) k,
  or_above k a (l / 2) m (omega arith),
)

split : (k x : ℕ) → x / 2 ^ k * 2 ^ k + x % 2 ^ k ≡ x
split k x = ground arith

pub bit_or_mid :
    (k w x y : ℕ) → x / 2 ^ k % 2 ^ w ≡ 0 → y % 2 ^ k ≡ 0 → y / 2 ^ k < 2 ^ w → bit_or x y ≡ x + y
bit_or_mid k w x y e g h =
    sym (ap₂ bit_or (split k x) multiple)
    ∙ or_above k (x / 2 ^ k) (x % 2 ^ k) (y / 2 ^ k) (omega (arith, one-le-pow k 2))
    ∙ ap (λ (t : ℕ). t * 2 ^ k + x % 2 ^ k) (bit_or_disjoint w (x / 2 ^ k) (y / 2 ^ k) e h)
    ∙ ground (arith, split k x, multiple)
  where
    multiple : y / 2 ^ k * 2 ^ k ≡ y
    multiple = ground (arith, split k y)

-- `& (2^k - 1)` is the remainder.
and_low : (k q r : ℕ) → r < 2 ^ k → bit_and (q * 2 ^ k + r) (2 ^ k - 1) ≡ r
and_low zero q r h = ground (arith, bit_and-zero (q * 2 ^ 0 + r))
and_low (suc k) q r h = ground (
  arith,
  bit_and_step (q * 2 ^ suc k + r) (2 ^ suc k - 1),
  double q k,
  pow-suc 2 k,
  one-le-pow k 2,
  and_low k q (r / 2) (omega arith),
)

pub bit_and_mask : (k x : ℕ) → bit_and x (2 ^ k - 1) ≡ x % 2 ^ k
bit_and_mask k x = ground (arith, one-le-pow k 2, and_low k (x / 2 ^ k) (x % 2 ^ k))

halved : (lo k : ℕ) → (2 ^ k - 1) * 2 ^ suc lo / 2 ≡ (2 ^ k - 1) * 2 ^ lo
halved lo k = omega (arith, double (2 ^ k - 1) lo)

half_first : (lo x : ℕ) → x / 2 / 2 ^ lo ≡ x / 2 ^ suc lo
half_first lo x =
    div-div-eq-div-mul x 2 (2 ^ lo) ∙ ap (λ (t : ℕ). x / t) (omega (arith, pow-suc 2 lo))

-- `&` with the mask of `k` bits from bit `lo` on.
pub bit_and_field : (lo k x : ℕ) → bit_and x ((2 ^ k - 1) * 2 ^ lo) ≡ x / 2 ^ lo % 2 ^ k * 2 ^ lo
bit_and_field zero k x = ground (arith, bit_and_mask k x)
bit_and_field (suc lo) k x = omega (
  arith,
  bit_and_step x ((2 ^ k - 1) * 2 ^ suc lo),
  double (2 ^ k - 1) lo,
  double (x / 2 ^ suc lo % 2 ^ k) lo,
  ap (λ (t : ℕ). bit_and (x / 2) t) (halved lo k),
  ap (λ (t : ℕ). t % 2 ^ k * 2 ^ lo) (half_first lo x),
  bit_and_field lo k (x / 2),
)

half_pow : (k : ℕ) → 2 ^ suc k / 2 ≡ 2 ^ k
half_pow k = omega (arith, pow-suc 2 k)

-- `| (1 << k)` sets bit `k`.
pub bit_or_bit : (k x : ℕ) → bit_or x (2 ^ k) ≡ x + (1 - x / 2 ^ k % 2) * 2 ^ k
bit_or_bit zero x = omega (arith, bit_or_step x 1, bit_or-zero (x / 2))
bit_or_bit (suc k) x = omega (
  arith,
  bit_or_step x (2 ^ suc k),
  pow-suc 2 k,
  double (1 - x / 2 ^ suc k % 2) k,
  ap (λ (t : ℕ). bit_or (x / 2) t) (half_pow k),
  ap (λ (t : ℕ). (1 - t % 2) * 2 ^ k) (half_first k x),
  bit_or_bit k (x / 2),
)

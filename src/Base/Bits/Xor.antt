-- ===== src/Base/Bits/Xor.antt =====
-- The laws of exclusive or: a group of exponent two, bit by bit.
use Prim.Native.Nat.{ℕ, zero, suc, ◌+◌, ◌*◌, ◌/◌, ◌%◌, ◌^◌, ◌<◌, bit_xor, bit_xor-bitwise}
use mathlib.Core.Path.{◌≡◌, refl, sym, ap, ap₂, ◌∙◌}
use native.Mathlib.Nat.{pow-suc, one-le-pow, div-add-mod}
use native.Mathlib.Omega.{arith}
use bitstream.Base.Bits.Step.{bit_xor_step}

-- By the number of digits left, as the steps go from `a` to `a / 2`.
xor_zero_fuel : (n a : ℕ) → a < n → bit_xor a 0 ≡ a
xor_zero_fuel zero a h = absurd (omega arith)
xor_zero_fuel (suc n) zero h = refl
xor_zero_fuel (suc n) (suc a) h =
    omega (arith, bit_xor_step (suc a) 0, xor_zero_fuel n (suc a / 2) (omega arith))

pub bit_xor-zero : (a : ℕ) → bit_xor a 0 ≡ a
bit_xor-zero a = xor_zero_fuel (suc a) a (omega arith)

pub zero-bit_xor : (a : ℕ) → bit_xor 0 a ≡ a
zero-bit_xor a = bit_xor-bitwise 0 a

xor_self_fuel : (n a : ℕ) → a < n → bit_xor a a ≡ 0
xor_self_fuel zero a h = absurd (omega arith)
xor_self_fuel (suc n) zero h = refl
xor_self_fuel (suc n) (suc a) h =
    omega (arith, bit_xor_step (suc a) (suc a), xor_self_fuel n (suc a / 2) (omega arith))

pub bit_xor_self : (a : ℕ) → bit_xor a a ≡ 0
bit_xor_self a = xor_self_fuel (suc a) a (omega arith)

xor_comm_fuel : (n a b : ℕ) → a < n → bit_xor a b ≡ bit_xor b a
xor_comm_fuel zero a b h = absurd (omega arith)
xor_comm_fuel (suc n) zero b h = zero-bit_xor b ∙ sym (bit_xor-zero b)
xor_comm_fuel (suc n) (suc a) b h = omega (
  arith,
  bit_xor_step (suc a) b,
  bit_xor_step b (suc a),
  xor_comm_fuel n (suc a / 2) (b / 2) (omega arith),
)

pub bit_xor_comm : (a b : ℕ) → bit_xor a b ≡ bit_xor b a
bit_xor_comm a b = xor_comm_fuel (suc a) a b (omega arith)

-- `^` digit by digit, and so field by field.
pub bit_xor-half : (a b : ℕ) → bit_xor a b / 2 ≡ bit_xor (a / 2) (b / 2)
bit_xor-half a b = omega (arith, bit_xor_step a b)

pub bit_xor-parity : (a b : ℕ) → bit_xor a b % 2 ≡ (a % 2 + b % 2) % 2
bit_xor-parity a b = omega (arith, bit_xor_step a b)

xor_assoc_fuel : (n a b c : ℕ) → a + b + c < n → bit_xor (bit_xor a b) c ≡ bit_xor a (bit_xor b c)
xor_assoc_fuel zero a b c h = absurd (omega arith)
xor_assoc_fuel (suc n) zero b c h =
    ap (λ (t : ℕ). bit_xor t c) (zero-bit_xor b) ∙ sym (zero-bit_xor (bit_xor b c))
xor_assoc_fuel (suc n) (suc a) b c h = omega (
  arith,
  bit_xor_step (bit_xor (suc a) b) c,
  bit_xor_step (suc a) (bit_xor b c),
  bit_xor-parity (suc a) b,
  bit_xor-parity b c,
  ap (λ (t : ℕ). bit_xor t (c / 2)) (bit_xor-half (suc a) b),
  ap (λ (t : ℕ). bit_xor (suc a / 2) t) (bit_xor-half b c),
  xor_assoc_fuel n (suc a / 2) (b / 2) (c / 2) (omega arith),
)

pub bit_xor_assoc : (a b c : ℕ) → bit_xor (bit_xor a b) c ≡ bit_xor a (bit_xor b c)
bit_xor_assoc a b c = xor_assoc_fuel (suc (a + b + c)) a b c (omega arith)

double : (q k : ℕ) → q * 2 ^ suc k ≡ 2 * (q * 2 ^ k)
double q k = omega (arith, ap (λ (t : ℕ). q * t) (pow-suc 2 k))

-- Two numbers of the form `q * 2 ^ k + r` meet in their high and in their low parts.
pub bit_xor_parts :
    (k q r q' r' : ℕ)
    → r < 2 ^ k
    → r' < 2 ^ k
    → (bit_xor (q * 2 ^ k + r) (q' * 2 ^ k + r') ≡ bit_xor q q' * 2 ^ k + bit_xor r r')
      × (bit_xor r r' < 2 ^ k)
bit_xor_parts zero q r q' r' h h' = (ground (arith, bit_xor_self 0), ground (arith, bit_xor_self 0))
bit_xor_parts (suc k) q r q' r' h h' =
    let (ih, bound) =
      bit_xor_parts k q (r / 2) q' (r' / 2) (omega (arith, pow-suc 2 k))
        (omega (arith, pow-suc 2 k)) in
    (
      omega (
        arith,
        bit_xor_step (q * 2 ^ suc k + r) (q' * 2 ^ suc k + r'),
        bit_xor_step r r',
        double q k,
        double q' k,
        double (bit_xor q q') k,
        ap₂ bit_xor (halves q r k) (halves q' r' k),
        ih,
      ),
      omega (arith, bound, bit_xor_step r r', pow-suc 2 k),
    )
  where
    halves : (q r k : ℕ) → (q * 2 ^ suc k + r) / 2 ≡ q * 2 ^ k + r / 2
    halves q r k = omega (arith, double q k)

pub bit_xor-lt : (k a b : ℕ) → a < 2 ^ k → b < 2 ^ k → bit_xor a b < 2 ^ k
bit_xor-lt k a b h g = (bit_xor_parts k 0 a 0 b h g).1

pub bit_xor-shift : (k a b : ℕ) → bit_xor (a * 2 ^ k) (b * 2 ^ k) ≡ bit_xor a b * 2 ^ k
bit_xor-shift k a b = ground (arith, one-le-pow k 2, bit_xor_parts k a 0 b 0, bit_xor_self 0)

pub bit_xor_disjoint : (k q r : ℕ) → r < 2 ^ k → bit_xor (q * 2 ^ k) r ≡ q * 2 ^ k + r
bit_xor_disjoint k q r h = ground (arith, bit_xor_parts k q 0 0 r, bit_xor-zero q, zero-bit_xor r)

pub bit_xor_cancel : (a b : ℕ) → bit_xor (bit_xor a b) b ≡ a
bit_xor_cancel a b = bit_xor_assoc a b b ∙ ap (bit_xor a) (bit_xor_self b) ∙ bit_xor-zero a

pub bit_xor_split :
    (k a b : ℕ)
    → (bit_xor a b ≡ bit_xor (a / 2 ^ k) (b / 2 ^ k) * 2 ^ k + bit_xor (a % 2 ^ k) (b % 2 ^ k))
      × (bit_xor (a % 2 ^ k) (b % 2 ^ k) < 2 ^ k)
bit_xor_split k a b =
    let (e, bound) =
      bit_xor_parts k (a / 2 ^ k) (a % 2 ^ k) (b / 2 ^ k) (b % 2 ^ k)
        (omega (arith, one-le-pow k 2)) (omega (arith, one-le-pow k 2)) in
    (sym (ap₂ bit_xor (whole a) (whole b)) ∙ e, bound)
  where
    whole : (x : ℕ) → x / 2 ^ k * 2 ^ k + x % 2 ^ k ≡ x
    whole x = omega (arith, div-add-mod x (2 ^ k))

pub bit_xor_middle :
    (a b c d : ℕ) → bit_xor (bit_xor a b) (bit_xor c d) ≡ bit_xor (bit_xor a c) (bit_xor b d)
bit_xor_middle a b c d =
    bit_xor_assoc a b (bit_xor c d)
    ∙ ap (bit_xor a) (
        sym (bit_xor_assoc b c d)
        ∙ ap (λ (t : ℕ). bit_xor t d) (bit_xor_comm b c)
        ∙ bit_xor_assoc c b d)
    ∙ sym (bit_xor_assoc a c (bit_xor b d))

-- `^` with one operand is injective in the other.
pub bit_xor_right : (a b c : ℕ) → bit_xor a c ≡ bit_xor b c → a ≡ b
bit_xor_right a b c e =
    sym (bit_xor_cancel a c) ∙ ap (λ (t : ℕ). bit_xor t c) e ∙ bit_xor_cancel b c

-- ===== src/Psi/Crc/Detect.antt =====
-- The loop over the bytes: its range, what it depends on, and the bit-serial loop next to it.
use native.Mathlib.Decide.{ℕ_discrete}
use bitstream.Base.{
  ℕ, zero, suc, ◌+◌, ◌^◌, ◌≤◌, ◌<◌, ◌≡◌, ◌≢◌, refl, sym, ap, subst, ◌∙◌, bit_xor, Bytes, IsBytes,
  ◌<<◌, ◌>>◌, arith,
}
use bitstream.Base.Bits.{bit_xor-lt, bit_xor_right, bit_xor_comm}
use bitstream.Psi.Crc
use bitstream.Psi.Crc.Shift.{shift_bits_injective}
use bitstream.Psi.Crc.Reference.{table-lt, crc_rounds, crc_step-shift_bits, crc_step-crc_rounds}

pub crc_step-lt : (crc b : ℕ) → crc < 2 ^ 32 → b < 256 → Crc.crc_step crc b < 2 ^ 32
unfolding Crc.crc_step
crc_step-lt crc b h g =
    bit_xor-lt 32 _ _ (omega arith) (table-lt _ (bit_xor-lt 8 (crc >> 24) b (omega arith) g))

pub crc_loop-lt :
    (left i : ℕ) (p : Bytes) (crc : ℕ)
    → IsBytes p
    → crc < 2 ^ 32
    → Crc.crc_loop left i p crc < 2 ^ 32
unfolding Crc.crc_loop
crc_loop-lt zero i p crc b h = h
crc_loop-lt (suc left) i p crc b h =
    crc_loop-lt left (i + 1) p (Crc.crc_step crc (p i)) b (crc_step-lt crc (p i) h (b i))

-- The loop reads the bytes from `i` up to the end, and no others.
pub crc_loop_ext :
    (left i : ℕ) (p q : Bytes) (crc : ℕ)
    → ((j : ℕ) → i ≤ j → j < i + left → p j ≡ q j)
    → Crc.crc_loop left i p crc ≡ Crc.crc_loop left i q crc
unfolding Crc.crc_loop
crc_loop_ext zero i p q crc same = refl
crc_loop_ext (suc left) i p q crc same =
    ap (λ (b : ℕ). Crc.crc_loop left (i + 1) p (Crc.crc_step crc b))
      (same i (omega arith) (omega arith))
    ∙ crc_loop_ext left (i + 1) p q (Crc.crc_step crc (q i))
        (λ j h g. same j (omega arith) (omega arith))

-- The checksum as the standard describes it: each byte, its top bit first, through the register.
unfoldable pub serial_loop : ℕ → ℕ → Bytes → ℕ → ℕ
serial_loop zero i p crc = crc
serial_loop (suc left) i p crc = serial_loop left (i + 1) p (crc_rounds 8 crc (p i << 24))

pub crc_loop-serial_loop :
    (left i : ℕ) (p : Bytes) (crc : ℕ)
    → IsBytes p
    → crc < 2 ^ 32
    → Crc.crc_loop left i p crc ≡ serial_loop left i p crc
unfolding Crc.crc_loop serial_loop
crc_loop-serial_loop zero i p crc b h = refl
crc_loop-serial_loop (suc left) i p crc b h =
    crc_loop-serial_loop left (i + 1) p (Crc.crc_step crc (p i)) b (crc_step-lt crc (p i) h (b i))
    ∙ ap (serial_loop left (i + 1) p) (crc_step-crc_rounds crc (p i) h (b i))

crc_step_register :
    (a c b : ℕ) → a < 2 ^ 32 → c < 2 ^ 32 → b < 256 → Crc.crc_step a b ≡ Crc.crc_step c b → a ≡ c
crc_step_register a c b h g k e = bit_xor_right a c (b << 24) (
    shift_bits_injective 8 _ _ (bit_xor-lt 32 _ _ h (omega arith))
      (bit_xor-lt 32 _ _ g (omega arith))
      (sym (crc_step-shift_bits a b h k) ∙ e ∙ crc_step-shift_bits c b g k))

crc_step_byte :
    (a b c : ℕ) → a < 2 ^ 32 → b < 256 → c < 256 → Crc.crc_step a b ≡ Crc.crc_step a c → b ≡ c
crc_step_byte a b c h g k e = omega (arith, bit_xor_right (b << 24) (c << 24) a (swapped))
  where
    mixed : bit_xor a (b << 24) ≡ bit_xor a (c << 24)
    mixed =
        shift_bits_injective 8 _ _ (bit_xor-lt 32 _ _ h (omega arith))
          (bit_xor-lt 32 _ _ h (omega arith))
          (sym (crc_step-shift_bits a b h g) ∙ e ∙ crc_step-shift_bits a c h k)

    swapped : bit_xor (b << 24) a ≡ bit_xor (c << 24) a
    swapped = bit_xor_comm (b << 24) a ∙ mixed ∙ bit_xor_comm a (c << 24)

-- Over the same bytes the loop is injective in the register.
crc_loop_register :
    (left i : ℕ) (p : Bytes) (a c : ℕ)
    → IsBytes p
    → a < 2 ^ 32
    → c < 2 ^ 32
    → Crc.crc_loop left i p a ≡ Crc.crc_loop left i p c
    → a ≡ c
unfolding Crc.crc_loop
crc_loop_register zero i p a c b h g e = e
crc_loop_register (suc left) i p a c b h g e = crc_step_register a c (p i) h g (b i) (
    crc_loop_register left (i + 1) p (Crc.crc_step a (p i)) (Crc.crc_step c (p i)) b
      (crc_step-lt a (p i) h (b i)) (crc_step-lt c (p i) g (b i)) e)

-- Two inputs that agree but at `k` have the same checksum only if they agree at `k` too.
pub crc_loop_byte :
    (left i k : ℕ) (p q : Bytes) (crc : ℕ)
    → IsBytes p
    → IsBytes q
    → crc < 2 ^ 32
    → i ≤ k
    → k < i + left
    → ((j : ℕ) → j ≢ k → p j ≡ q j)
    → Crc.crc_loop left i p crc ≡ Crc.crc_loop left i q crc
    → p k ≡ q k
unfolding Crc.crc_loop
crc_loop_byte zero i k p q crc bp bq h lo hi same e = absurd (omega arith)
crc_loop_byte (suc left) i k p q crc bp bq h lo hi same e = elim (ℕ_discrete i k) [
  | yes here ↦
      subst (λ (t : ℕ). p t ≡ q t) here
        (crc_step_byte crc (p i) (q i) h (bp i) (bq i) (
          crc_loop_register left (i + 1) p (Crc.crc_step crc (p i)) (Crc.crc_step crc (q i)) bp
            (crc_step-lt crc (p i) h (bp i)) (crc_step-lt crc (q i) h (bq i))
            (e
              ∙ crc_loop_ext left (i + 1) q p (Crc.crc_step crc (q i))
                  (λ j g g'. sym (same j (omega arith))))))
  | no later ↦
      crc_loop_byte left (i + 1) k p q (Crc.crc_step crc (p i)) bp bq
        (crc_step-lt crc (p i) h (bp i)) (omega arith) (omega arith) same
        (e ∙ ap (λ (b : ℕ). Crc.crc_loop left (i + 1) q (Crc.crc_step crc b)) (sym (same i later)))
]

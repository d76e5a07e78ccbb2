-- ===== src/Dvb/S2/Crc.antt =====
-- The checksum of baseband frames next to its polynomial, x^8 + x^7 + x^6 + x^4 + x^2 + 1.
use bitstream.Base.{
  ltb→lt, ℕ, zero, suc, ◌+◌, ◌-◌, ◌*◌, ◌/◌, ◌%◌, ◌<◌, bit_xor, ◌≡◌, refl, sym, ap, subst, ◌∙◌, ◌≢◌,
  inl, inr, Bool, true, false, not, ◌&&◌, ◌||◌, arith, ltb, ◌==◌, ◌!=◌, if◌then◌else◌, ==_iff,
  Bool-cases, &&_parts, all_below, all_below_at, Bytes, IsBytes, at, get_or,
}
use bitstream.Base.Bits.{bit_xor-lt, bit_xor_right, bit_xor_comm}
use bitstream.Dvb.S2

-- The register is shifted by one bit; the bit that leaves it takes the polynomial off.
abbrev pub shift_bit : ℕ → ℕ
shift_bit crc = if ltb crc 128 then crc * 2 else bit_xor (crc * 2 - 256) 0xd5

unfoldable pub shift_bits : ℕ → ℕ → ℕ
shift_bits zero crc = crc
shift_bits (suc n) crc = shift_bits n (shift_bit crc)

-- The checksum by its definition: each byte is added to the register, which is shifted eight times.
unfoldable pub serial_loop : ℕ → Bytes → ℕ → ℕ
unfolding shift_bits
serial_loop zero p crc = crc
serial_loop (suc size) p crc = serial_loop size (at p 1) (shift_bits 8 (bit_xor crc (p 0)))

abbrev lookup : ℕ → ℕ
lookup x = get_or S2.crc_table x 0

-- The shifts backwards.
abbrev back_bit : ℕ → ℕ
back_bit crc = if crc % 2 == 0 then crc / 2 else bit_xor crc 0xd5 / 2 + 128

back_bits : ℕ → ℕ → ℕ
back_bits zero crc = crc
back_bits (suc n) crc = back_bits n (back_bit crc)

abbrev entry_agrees : ℕ → Bool
entry_agrees x = lookup x == shift_bits 8 x && (ltb (lookup x) 256 && back_bits 8 (lookup x) == x)

entries_agree : all_below 256 entry_agrees ≡ true
unfolding all_below shift_bits back_bits
entries_agree = refl

module _ (x : ℕ) (h : x < 256) where
  entry_parts : (lookup x ≡ shift_bits 8 x) × (lookup x < 256) × (back_bits 8 (lookup x) ≡ x)
  entry_parts =
      let e = all_below_at 256 entry_agrees x entries_agree h in
      let (same, rest) = &&_parts (lookup x == shift_bits 8 x) _ e in
      let (small, back) = &&_parts (ltb (lookup x) 256) _ rest in
      (
        (==_iff (lookup x) (shift_bits 8 x)).0 same,
        ltb→lt (lookup x) 256 small,
        (==_iff (back_bits 8 (lookup x)) x).0 back,
      )

step-lt : (crc b : ℕ) → crc < 256 → b < 256 → lookup (bit_xor crc b) < 256
step-lt crc b h g = (entry_parts (bit_xor crc b) (bit_xor-lt 8 crc b h g)).1

lookup_injective : (x y : ℕ) → x < 256 → y < 256 → lookup x ≡ lookup y → x ≡ y
lookup_injective x y h g e = sym ((entry_parts x h).2) ∙ ap (back_bits 8) e ∙ (entry_parts y g).2

crc_loop-serial_loop :
    (size : ℕ) (p : Bytes) (crc : ℕ)
    → IsBytes p
    → crc < 256
    → S2.crc_loop size p crc ≡ serial_loop size p crc
unfolding S2.crc_loop serial_loop
crc_loop-serial_loop zero p crc b h = refl
crc_loop-serial_loop (suc size) p crc b h =
    crc_loop-serial_loop size (at p 1) (lookup (bit_xor crc (p 0))) (λ i. b (1 + i))
      (step-lt crc (p 0) h (b 0))
    ∙ ap (serial_loop size (at p 1))
        ((entry_parts (bit_xor crc (p 0)) (bit_xor-lt 8 crc (p 0) h (b 0))).0)

-- `s2bbcrc_check` computes the checksum of the polynomial.
pub crc_check-serial_loop :
    (p : Bytes) (size : ℕ) → IsBytes p → S2.crc_check p size ≡ serial_loop size p 0
unfolding S2.crc_check
crc_check-serial_loop p size h = crc_loop-serial_loop size p 0 h (omega arith)

crc_loop_register :
    (size : ℕ) (p q : Bytes) (a c : ℕ)
    → IsBytes p
    → a < 256
    → c < 256
    → ((i : ℕ) → i < size → q i ≡ p i)
    → S2.crc_loop size p a ≡ S2.crc_loop size q c
    → a ≡ c
unfolding S2.crc_loop
crc_loop_register zero p q a c b h g same e = e
crc_loop_register (suc size) p q a c b h g same e =
    let first = same 0 (omega arith) in
    let e' : S2.crc_loop size (at p 1) (lookup (bit_xor a (p 0)))
        ≡ S2.crc_loop size (at q 1) (lookup (bit_xor c (p 0))) =
      e ∙ ap (λ (x : ℕ). S2.crc_loop size (at q 1) (lookup (bit_xor c x))) first in
    let registers =
      crc_loop_register size (at p 1) (at q 1) (lookup (bit_xor a (p 0))) (lookup (bit_xor c (p 0)))
        (λ i. b (1 + i)) (step-lt a (p 0) h (b 0)) (step-lt c (p 0) g (b 0))
        (λ i k. same (1 + i) (omega arith)) e' in
    bit_xor_right a c (p 0)
      (lookup_injective _ _ (bit_xor-lt 8 a (p 0) h (b 0)) (bit_xor-lt 8 c (p 0) g (b 0)) registers)

crc_loop_byte :
    (size : ℕ) (p q : Bytes) (a k : ℕ)
    → IsBytes p
    → IsBytes q
    → a < 256
    → k < size
    → ((i : ℕ) → i < size → i ≢ k → q i ≡ p i)
    → S2.crc_loop size p a ≡ S2.crc_loop size q a
    → q k ≡ p k
unfolding S2.crc_loop
crc_loop_byte zero p q a k b b' h g same e = absurd (omega arith)
crc_loop_byte (suc size) p q a zero b b' h g same e =
    let registers =
      crc_loop_register size (at p 1) (at q 1) (lookup (bit_xor a (p 0))) (lookup (bit_xor a (q 0)))
        (λ i. b (1 + i)) (step-lt a (p 0) h (b 0)) (step-lt a (q 0) h (b' 0))
        (λ i k. same (1 + i) (omega arith) (omega arith)) e in
    sym (
      bit_xor_right (p 0) (q 0) a (
        bit_xor_comm (p 0) a
        ∙ lookup_injective _ _ (bit_xor-lt 8 a (p 0) h (b 0)) (bit_xor-lt 8 a (q 0) h (b' 0))
            registers
        ∙ bit_xor_comm a (q 0)))
crc_loop_byte (suc size) p q a (suc k) b b' h g same e =
    let first = same 0 (omega arith) (omega arith) in
    let e' = e ∙ ap (λ (x : ℕ). S2.crc_loop size (at q 1) (lookup (bit_xor a x))) first in
    subst (λ j. q j ≡ p j) (omega arith)
      (crc_loop_byte size (at p 1) (at q 1) (lookup (bit_xor a (p 0))) k (λ i. b (1 + i))
        (λ i. b' (1 + i)) (step-lt a (p 0) h (b 0)) (omega arith)
        (λ i l n. same (1 + i) (omega arith) (omega arith)) e')

accepted : (long : Bool) (crc : ℕ) → not (long || crc != 0) ≡ true → crc ≡ 0
accepted long crc h = ground arith

rejected : (long : Bool) (crc : ℕ) → (crc == 0) ≡ false → not (long || crc != 0) ≡ false
rejected long crc h = ground arith

-- Of two headers that differ in exactly one byte, `s2bbh_validate` rejects at least one.
pub validate_wrong_byte :
    (p q : Bytes) (k : ℕ)
    → IsBytes p
    → IsBytes q
    → k < 10
    → ((i : ℕ) → i < 10 → i ≢ k → q i ≡ p i)
    → q k ≢ p k
    → S2.validate p ≡ true
    → S2.validate q ≡ false
unfolding S2.validate S2.crc_check
validate_wrong_byte p q k b b' h same wrong ok = elim (Bool-cases (S2.crc_loop 10 q 0 == 0)) [
  | inl zero_q ↦
      let zero_p = accepted (ltb S2.dfl_max (S2.get_dfl p)) (S2.crc_loop 10 p 0) ok in
      let equal = zero_p ∙ sym ((==_iff (S2.crc_loop 10 q 0) 0).0 zero_q) in
      absurd (wrong (crc_loop_byte 10 p q 0 k b b' (omega arith) h same equal))
  | inr nonzero ↦ rejected (ltb S2.dfl_max (S2.get_dfl q)) (S2.crc_loop 10 q 0) nonzero
]

-- ===== src/Psi/Crc/Reference.antt =====
-- The bit-serial checksum register of ISO/IEC 13818-1, next to the table of mpeg/psi/psi.h.
use bitstream.Base.{
  ℕ, zero, suc, ◌*◌, ◌/◌, ◌%◌, ◌^◌, ◌<◌, ◌≡◌, refl, sym, ap, ◌∙◌, bit_and, bit_or, bit_xor, Bool,
  true, false, Option, none, some, ltb, ltb→lt, ==_iff, &&_parts, all_below, all_below_at, u32,
  ◌<<◌, ◌>>◌, flag, ◌==◌, ◌&&◌, if◌then◌else◌, arith,
}
use bitstream.Psi.Crc
use bitstream.Psi.Crc.Shift.{
  shift_bit, shift_bits, shift_bits-xor, shift_bits_low, feedback, feedback-lt, doubled-xor,
}
use bitstream.Base.Bits.{
  bit_xor_parts, bit_xor-lt, bit_xor_disjoint, bit_xor-zero, zero-bit_xor, bit_xor_comm,
  bit_xor_assoc,
}

-- `k = (k << 1) ^ (((k ^ j) & 0x80000000) ? 0x04c11db7 : 0)` and `j <<= 1`, so many times.
unfoldable pub crc_rounds : ℕ → ℕ → ℕ → ℕ
crc_rounds zero k j = k
crc_rounds (suc n) k j =
    crc_rounds n
      (bit_xor (u32 (k << 1)) (if flag (bit_and (bit_xor k j) 0x80000000) then 0x04c11db7 else 0))
      (u32 (j << 1))

-- `for (j = (i << 24) | 0x800000; j != 0x80000000; j <<= 1)` of `gen_crc`: the marker bit reaches the
-- top after 8 rounds. `none` means that the fuel ran out.
gen_loop : ℕ → ℕ → ℕ → Option ℕ
unfolding crc_rounds
gen_loop zero k j = none
gen_loop (suc fuel) k j =
    let rest = gen_loop fuel (crc_rounds 1 k j) (u32 (j << 1)) in
    if j == 0x80000000 then some k else rest

unfoldable pub generated : ℕ → Option ℕ
unfolding gen_loop
generated i = gen_loop 9 0 (bit_or (i << 24) 0x800000)

-- Both descriptions of an entry, compared by evaluation.
abbrev is_entry : Option ℕ → ℕ → Bool
is_entry none x = false
is_entry (some y) x = y == x

entry_agrees : ℕ → Bool
unfolding Crc.crc_table generated
entry_agrees i =
    is_entry (generated i) (Crc.crc_table i)
    && (crc_rounds 8 0 (i << 24) == Crc.crc_table i && ltb (Crc.crc_table i) (2 ^ 32))

entries_agree : all_below 256 entry_agrees ≡ true
unfolding all_below entry_agrees
entries_agree = refl

is_entry_lem : (o : Option ℕ) (x : ℕ) → is_entry o x ≡ true → o ≡ some x
is_entry_lem none x e = cc
is_entry_lem (some y) x e = ap some ((==_iff y x).0 e)

module _ (i : ℕ) (h : i < 256) where
  agrees : entry_agrees i ≡ true
  agrees = all_below_at 256 entry_agrees i entries_agree h

  lookups :
      (is_entry (generated i) (Crc.crc_table i) ≡ true)
      × ((crc_rounds 8 0 (i << 24) == Crc.crc_table i) ≡ true)
      × (ltb (Crc.crc_table i) (2 ^ 32) ≡ true)
  lookups =
      unfold entry_agrees in
      (let (a, b) = &&_parts (is_entry (generated i) (Crc.crc_table i)) _ agrees in
        let (c, d) = &&_parts (crc_rounds 8 0 (i << 24) == Crc.crc_table i) _ b in (a, c, d))

-- Every entry of p_psi_crc_table is what the generator in the comment above it yields.
pub table-generated : (i : ℕ) → i < 256 → generated i ≡ some (Crc.crc_table i)
table-generated i h = is_entry_lem _ _ (lookups i h).0

pub table_rounds : (i : ℕ) → i < 256 → crc_rounds 8 0 (i << 24) ≡ Crc.crc_table i
table_rounds i h = (==_iff _ _).0 (lookups i h).1

pub table-lt : (i : ℕ) → i < 256 → Crc.crc_table i < 2 ^ 32
table-lt i h = ltb→lt _ _ (lookups i h).2

-- What is left of the shifted data word after `n` rounds.
shifted : ℕ → ℕ → ℕ
shifted zero j = j
shifted (suc n) j = shifted n (u32 (j << 1))

-- The register and the data word together pass through the feedback register.
crc_rounds-shift_bits :
    (n k j : ℕ)
    → k < 2 ^ 32
    → j < 2 ^ 32
    → bit_xor (crc_rounds n k j) (shifted n j) ≡ shift_bits n (bit_xor k j)
unfolding crc_rounds shifted shift_bits feedback
crc_rounds-shift_bits zero k j h g = refl
crc_rounds-shift_bits (suc n) k j h g =
    crc_rounds-shift_bits n _ (u32 (j << 1))
      (bit_xor-lt 32 _ _ (omega arith) (feedback-lt (bit_xor k j))) (omega arith)
    ∙ ap (shift_bits n) round
  where
    round :
        bit_xor (bit_xor (u32 (k << 1)) (feedback (bit_xor k j))) (u32 (j << 1))
        ≡ shift_bit (bit_xor k j)
    round =
        unfold shift_bit in
        (bit_xor_assoc (u32 (k << 1)) (feedback (bit_xor k j)) (u32 (j << 1))
          ∙ ap (bit_xor (u32 (k << 1))) (bit_xor_comm (feedback (bit_xor k j)) (u32 (j << 1)))
          ∙ sym (bit_xor_assoc (u32 (k << 1)) (u32 (j << 1)) (feedback (bit_xor k j)))
          ∙ ap (λ (t : ℕ). bit_xor t (feedback (bit_xor k j))) (sym (doubled-xor k j)))

shifted_eight : (b : ℕ) → shifted 8 (b << 24) ≡ 0
unfolding shifted
shifted_eight b = omega arith

-- Eight rounds on a byte at the top of the data word.
crc_rounds_byte :
    (k b : ℕ) → k < 2 ^ 32 → b < 256 → crc_rounds 8 k (b << 24) ≡ shift_bits 8 (bit_xor k (b << 24))
crc_rounds_byte k b h g =
    sym (bit_xor-zero (crc_rounds 8 k (b << 24)))
    ∙ ap (bit_xor (crc_rounds 8 k (b << 24))) (sym (shifted_eight b))
    ∙ crc_rounds-shift_bits 8 k (b << 24) h (omega arith)

table-shift_bits : (i : ℕ) → i < 256 → Crc.crc_table i ≡ shift_bits 8 (i << 24)
table-shift_bits i h =
    sym (table_rounds i h)
    ∙ crc_rounds_byte 0 i (omega arith) h
    ∙ ap (shift_bits 8) (zero-bit_xor (i << 24))

-- The register after a byte is the high byte's entry, mixed with the other three bytes.
register_parts :
    (crc b : ℕ)
    → crc < 2 ^ 32
    → b < 256
    → bit_xor crc (b << 24) ≡ bit_xor (bit_xor (crc >> 24) b << 24) (crc % 2 ^ 24)
register_parts crc b h g = ground (
  arith,
  bit_xor_parts 24 (crc / 2 ^ 24) (crc % 2 ^ 24) b 0,
  bit_xor-zero (crc % 2 ^ 24),
  bit_xor_disjoint 24 (bit_xor (crc / 2 ^ 24) b) (crc % 2 ^ 24),
)

pub crc_step-shift_bits :
    (crc b : ℕ) → crc < 2 ^ 32 → b < 256 → Crc.crc_step crc b ≡ shift_bits 8 (bit_xor crc (b << 24))
unfolding Crc.crc_step
crc_step-shift_bits crc b h g =
    ap (bit_xor (u32 (crc << 8))) (table-shift_bits x x_byte)
    ∙ bit_xor_comm (u32 (crc << 8)) (shift_bits 8 (x << 24))
    ∙ ap (bit_xor (shift_bits 8 (x << 24)))
        (u32_low ∙ sym (shift_bits_low 8 (crc % 2 ^ 24) (omega arith)))
    ∙ sym (shift_bits-xor 8 (x << 24) (crc % 2 ^ 24) (omega (arith, x_byte)) (omega arith))
    ∙ ap (shift_bits 8) (sym (register_parts crc b h g))
  where
    x : ℕ
    x = bit_xor (crc >> 24) b

    x_byte : bit_xor (crc >> 24) b < 256
    x_byte = bit_xor-lt 8 (crc >> 24) b (omega arith) g

    u32_low : u32 (crc << 8) ≡ crc % 2 ^ 24 * 2 ^ 8
    u32_low = omega arith

-- One lookup in the table is eight rounds of the bit-serial register on the byte.
pub crc_step-crc_rounds :
    (crc b : ℕ) → crc < 2 ^ 32 → b < 256 → Crc.crc_step crc b ≡ crc_rounds 8 crc (b << 24)
crc_step-crc_rounds crc b h g = crc_step-shift_bits crc b h g ∙ sym (crc_rounds_byte crc b h g)

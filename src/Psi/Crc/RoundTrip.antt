-- ===== src/Psi/Crc/RoundTrip.antt =====
-- `psi_set_crc` and `psi_check_crc` on a whole section, one after the other and on damaged sections.
use native.Mathlib.Decide.{dec_lt}
use bitstream.Base.{
  ℕ, ◌+◌, ◌-◌, ◌*◌, ◌/◌, ◌%◌, ◌^◌, ◌≤◌, ◌<◌, ◌≡◌, ◌≢◌, ◌↔◌, sym, ap, ap₂, ◌∙◌, bit_and, bit_or,
  ◌<<◌, true, false, Bytes, IsBytes, ◌>>◌, arith, Bool-cases, inl, inr,
}
use bitstream.Base.Bits.{masks, and_0xff, bit_or_disjoint}
use bitstream.Psi
use bitstream.Psi.Crc
use bitstream.Psi.Crc.Detect.{
  crc_loop-lt, crc_loop_ext, crc_loop_byte, crc_loop-serial_loop, serial_loop,
}

pub get_length-lt : (p : Bytes) → IsBytes p → Psi.get_length p < 4096
unfolding Psi.get_length
get_length-lt p b = omega (masks, b, bit_or_disjoint 8)

pub crc_end_lem :
    (p : Bytes) → IsBytes p → 1 ≤ Psi.get_length p → Crc.crc_end p + 1 ≡ Psi.get_length p
unfolding Crc.crc_end
crc_end_lem p b h = omega (arith, get_length-lt p b)

section_crc-lt : (p : Bytes) → IsBytes p → Crc.section_crc p < 2 ^ 32
unfolding Crc.section_crc
section_crc-lt p b = crc_loop-lt (Crc.crc_end p) 0 p 0xffffffff b (omega arith)

-- The four bytes behind the checked ones, as a big-endian number.
abbrev pub stored_at : Bytes → ℕ → ℕ
stored_at p end = p end * 2 ^ 24 + p (end + 1) * 2 ^ 16 + p (end + 2) * 2 ^ 8 + p (end + 3)

unfoldable pub stored_crc : Bytes → ℕ
stored_crc p = stored_at p (Crc.crc_end p)

pub check_crc_iff :
    (p : Bytes) → IsBytes p → (Crc.check_crc p ≡ true) ↔ (stored_crc p ≡ Crc.section_crc p)
unfolding Crc.check_crc stored_crc
check_crc_iff p b = ground (
  arith,
  section_crc-lt p b,
  and_0xff (Crc.section_crc p >> 16),
  and_0xff (Crc.section_crc p >> 8),
  and_0xff (Crc.section_crc p),
  b (Crc.crc_end p),
  b (Crc.crc_end p + 1),
  b (Crc.crc_end p + 2),
  b (Crc.crc_end p + 3),
)

-- On a buffer of bytes, the checksum that `psi_set_crc` computes by table lookups is the bit-serial
-- one, from all ones, over the bytes in front of the stored one.
pub section_crc-serial_loop :
    (p : Bytes) → IsBytes p → Crc.section_crc p ≡ serial_loop (Crc.crc_end p) 0 p 0xffffffff
unfolding Crc.section_crc
section_crc-serial_loop p b = crc_loop-serial_loop (Crc.crc_end p) 0 p 0xffffffff b (omega arith)

set_crc_before : (p : Bytes) (i : ℕ) → i < Crc.crc_end p → Crc.set_crc p i ≡ p i
unfolding Crc.set_crc
set_crc_before p i h = ground arith

pub set_crc-IsBytes : (p : Bytes) → IsBytes p → IsBytes (Crc.set_crc p)
unfolding Crc.set_crc
set_crc-IsBytes p b i = ground (arith, b i)

-- A section of 4 bytes or more keeps its length when its last four are overwritten.
get_length-set_crc :
    (p : Bytes)
    → IsBytes p
    → 4 ≤ Psi.get_length p
    → Psi.get_length (Crc.set_crc p) ≡ Psi.get_length p
unfolding Psi.get_length
get_length-set_crc p b h =
    let end = crc_end_lem p b (omega arith) in
    ap₂ (λ (x y : ℕ). bit_or (bit_and x 0xf << 8) y) (set_crc_before p 1 (omega (arith, end)))
      (set_crc_before p 2 (omega (arith, end)))

module _ (p : Bytes) (b : IsBytes p) (h : 4 ≤ Psi.get_length p) where
  crc_end-set_crc : Crc.crc_end (Crc.set_crc p) ≡ Crc.crc_end p
  unfolding Crc.crc_end
  crc_end-set_crc = ap (λ (n : ℕ). (n + 3 + 2 ^ 16 - 4) % 2 ^ 16) (get_length-set_crc p b h)

  section_crc-set_crc : Crc.section_crc (Crc.set_crc p) ≡ Crc.section_crc p
  unfolding Crc.section_crc
  section_crc-set_crc =
      ap (λ (n : ℕ). Crc.crc_loop n 0 (Crc.set_crc p) 0xffffffff) crc_end-set_crc
      ∙ crc_loop_ext (Crc.crc_end p) 0 (Crc.set_crc p) p 0xffffffff
          (λ j _ g. set_crc_before p j (omega (arith, g)))

  stored_at_end :
      (Crc.set_crc p (Crc.crc_end p) ≡ Crc.section_crc p / 2 ^ 24)
      × (Crc.set_crc p (Crc.crc_end p + 1) ≡ Crc.section_crc p / 2 ^ 16 % 256)
      × (Crc.set_crc p (Crc.crc_end p + 2) ≡ Crc.section_crc p / 2 ^ 8 % 256)
      × (Crc.set_crc p (Crc.crc_end p + 3) ≡ Crc.section_crc p % 256)
  unfolding Crc.set_crc
  stored_at_end = ground (
    arith,
    section_crc-lt p b,
    and_0xff (Crc.section_crc p >> 16),
    and_0xff (Crc.section_crc p >> 8),
    and_0xff (Crc.section_crc p),
  )

  stored_crc-set_crc : stored_crc (Crc.set_crc p) ≡ Crc.section_crc p
  unfolding stored_crc
  stored_crc-set_crc = ground (arith, crc_end-set_crc, stored_at_end, section_crc-lt p b)

  -- `psi_check_crc` accepts every section that `psi_set_crc` has completed, whatever it holds,
  -- where its length field is at least 4.
  pub check_crc-set_crc : Crc.check_crc (Crc.set_crc p) ≡ true
  check_crc-set_crc =
      (check_crc_iff (Crc.set_crc p) (set_crc-IsBytes p b)).1
        (stored_crc-set_crc ∙ sym section_crc-set_crc)

-- `q` is `p` with another byte at `k`, and the length field is the same.
module _ (p q : Bytes) (bp : IsBytes p) (bq : IsBytes q) (k : ℕ) (wrong : p k ≢ q k)
    (same : (j : ℕ) → j ≢ k → p j ≡ q j) (inside : k < Psi.get_length p + 3)
    (length_kept : Psi.get_length q ≡ Psi.get_length p) (positive : 1 ≤ Psi.get_length p) where
  ends : Crc.crc_end q ≡ Crc.crc_end p
  unfolding Crc.crc_end
  ends = ap (λ (n : ℕ). (n + 3 + 2 ^ 16 - 4) % 2 ^ 16) length_kept

  crc_of_q : Crc.section_crc q ≡ Crc.crc_loop (Crc.crc_end p) 0 q 0xffffffff
  unfolding Crc.section_crc
  crc_of_q = ap (λ (n : ℕ). Crc.crc_loop n 0 q 0xffffffff) ends

  wrong_in_front : k < Crc.crc_end p → Crc.section_crc p ≢ Crc.section_crc q
  unfolding Crc.section_crc
  wrong_in_front h e = wrong (
      crc_loop_byte (Crc.crc_end p) 0 k p q 0xffffffff bp bq (omega arith) (omega arith)
        (omega (arith, h)) same (e ∙ crc_of_q))

  right_in_front : Crc.crc_end p ≤ k → Crc.section_crc p ≡ Crc.section_crc q
  unfolding Crc.section_crc
  right_in_front h =
      crc_loop_ext (Crc.crc_end p) 0 p q 0xffffffff (λ j _ g. same j (omega arith)) ∙ sym crc_of_q

  stored_of_q : stored_crc q ≡ stored_at q (Crc.crc_end p)
  unfolding stored_crc
  stored_of_q = ap (stored_at q) ends

  stored_front : k < Crc.crc_end p → stored_crc p ≡ stored_crc q
  unfolding stored_crc
  stored_front h = front (Crc.crc_end p) h ∙ sym stored_of_q
    where
      front : (end : ℕ) → k < end → stored_at p end ≡ stored_at q end
      front end h = omega (
        arith,
        same end (omega arith),
        same (end + 1) (omega arith),
        same (end + 2) (omega arith),
        same (end + 3) (omega arith),
      )

  stored_behind : Crc.crc_end p ≤ k → stored_crc p ≢ stored_crc q
  unfolding stored_crc
  stored_behind h e =
      behind (Crc.crc_end p) h (omega (arith, crc_end_lem p bp positive)) (e ∙ stored_of_q)
    where
      behind : (end : ℕ) → end ≤ k → k < end + 4 → stored_at p end ≢ stored_at q end
      behind end lo hi e = ground (
        arith,
        wrong,
        bp end,
        bq end,
        bp (end + 1),
        bq (end + 1),
        bp (end + 2),
        bq (end + 2),
        bp (end + 3),
        bq (end + 3),
      )

  -- `psi_check_crc` rejects every section that differs from an accepted one in exactly one of its
  -- bytes, where both have the same length field, not 0.
  pub check_crc_wrong_byte : Crc.check_crc p ≡ true → Crc.check_crc q ≡ false
  check_crc_wrong_byte ok = elim (Bool-cases (Crc.check_crc q)) [
    | inr rejected ↦ rejected
    | inl accepted ↦ absurd (elim (dec_lt k (Crc.crc_end p)) [
      | yes h ↦ wrong_in_front h (sym (kept ok) ∙ stored_front h ∙ (check_crc_iff q bq).0 accepted)
      | no h ↦
          stored_behind (omega arith)
            (kept ok ∙ right_in_front (omega arith) ∙ sym ((check_crc_iff q bq).0 accepted))
    ])
  ]
    where
      kept : Crc.check_crc p ≡ true → stored_crc p ≡ Crc.section_crc p
      kept = (check_crc_iff p bp).0

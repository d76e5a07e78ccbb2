-- ===== src/Ts/Payload.antt =====
-- Where the payload of a packet starts, and what `ts_set_adaptation`, `ts_pad` and the continuity
-- checks do.
use bitstream.Base.{
  ℕ, ◌+◌, ◌%◌, ◌≤◌, ◌<◌, ◌≡◌, ◌↔◌, ap, true, false, Bytes, IsBytes, flag, flag_set, arith, ◌==◌,
  bit_or,
}
use bitstream.Base.Bits.{masks, bit_or_disjoint, bit_or_bit}
use bitstream.Ts
use bitstream.Ts.Header.{header, Header_ext}

-- What `ts_set_adaptation` leaves: the flag, the length, no flags in the field, stuffing behind
-- them, and everything behind the field as it was.
pub record IsStuffed (p : Bytes) (length : ℕ) (p' : Bytes) : Type 0 where
  pub same_header : header p' ≡ record (header p) { adaptation = true }
  pub stored_length : Ts.get_adaptation p' ≡ length
  pub no_flags : 0 < length → p' 5 ≡ 0
  pub stuffing : (i : ℕ) → 6 ≤ i → i < 5 + length → p' i ≡ 0xff
  pub rest : (i : ℕ) → 5 + length ≤ i → p' i ≡ p i

module _ (p : Bytes) (length : ℕ) where
  set_adaptation_flags : Ts.set_adaptation p length 3 ≡ bit_or (p 3) 0x20 % 256
  unfolding Ts.set_adaptation
  set_adaptation_flags = ground arith

  set_adaptation_before : (i : ℕ) → i < 3 → Ts.set_adaptation p length i ≡ p i
  unfolding Ts.set_adaptation
  set_adaptation_before i h = ground arith

-- The header is read from the first four bytes.
header-set_adaptation :
    (p : Bytes) (length : ℕ)
    → IsBytes p
    → header (Ts.set_adaptation p length) ≡ record (header p) { adaptation = true }
unfolding header
header-set_adaptation p length h =
    let e0 = set_adaptation_before p length 0 (omega arith) in
    let e1 = set_adaptation_before p length 1 (omega arith) in
    let e2 = set_adaptation_before p length 2 (omega arith) in
    let e3 = set_adaptation_flags p length in
    Header_ext (ap (λ (t : ℕ). t == Ts.sync) e0) (ap flag (omega (masks, e1)))
      (ap flag (omega (masks, e1))) (ap flag (omega (masks, e1)))
      (omega (masks, bit_or_disjoint 8, e1, e2, h)) (omega (masks, bit_or_bit 5, e3, h))
      (flag_set _ (omega (masks, bit_or_bit 5, e3, h)))
      (ap flag (omega (masks, bit_or_bit 5, e3, h))) (omega (masks, bit_or_bit 5, e3, h))

-- `ts_set_adaptation` with a length that fits the packet sets the flag and the length, clears the
-- field's flags, fills the field with 0xff, and leaves the rest of the header and the bytes behind
-- the field alone.
pub set_adaptation-IsStuffed :
    (p : Bytes) (length : ℕ)
    → IsBytes p
    → length < 184
    → IsStuffed p length (Ts.set_adaptation p length)
unfolding Ts.set_adaptation Ts.get_adaptation
set_adaptation-IsStuffed p length h b = record {
  same_header = header-set_adaptation p length h;
  stored_length = ground arith;
  no_flags = λ q. ground arith;
  stuffing = λ i q r. ground arith;
  rest = λ i q. ground arith;
}

-- Where an adaptation field is at most 183 bytes long, the payload starts inside the packet, or at
-- its end, behind the header.
pub payload_bounds :
    (p : Bytes)
    → (Ts.has_adaptation p ≡ true → Ts.get_adaptation p ≤ 183)
    → (4 ≤ Ts.payload p) × (Ts.payload p ≤ 188)
unfolding Ts.payload
payload_bounds p h = ground arith

-- Between counters of four bits there is no discontinuity exactly when the new one is the successor
-- of the last modulo 16.
pub check_discontinuity_iff :
    (cc last_cc : ℕ)
    → cc < 16
    → last_cc < 16
    → (Ts.check_discontinuity cc last_cc ≡ false) ↔ (cc ≡ (last_cc + 1) % 16)
unfolding Ts.check_discontinuity
check_discontinuity_iff cc last_cc h g = ground arith

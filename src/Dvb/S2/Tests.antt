-- ===== src/Dvb/S2/Tests.antt =====
-- A header of a baseband frame.
use bitstream.Base.{ℕ, ◌<◌, ◌≡◌, refl, false, [], ◌∷◌, arith, Bytes, put, get_or, put-IsBytes}
use bitstream.Dvb.S2
use bitstream.Dvb.S2.Crc.{validate_wrong_byte}

abbrev header : Bytes
header i = get_or (0xf0 ∷ 0 ∷ 5 ∷ 0xe0 ∷ 0x62 ∷ 0x70 ∷ 0x47 ∷ 0 ∷ 0 ∷ 0 ∷ []) i 0

abbrev complete : Bytes
complete = put header 9 0x2f

header_bytes : (i : ℕ) → header i < 256
header_bytes i = ground arith

complete_bytes : (i : ℕ) → complete i < 256
complete_bytes i = put-IsBytes header 9 0x2f header_bytes i

checksum : S2.crc_check header 9 ≡ 0x2f
unfolding S2.crc_check S2.crc_loop
checksum = refl

-- The same header with another length of the data field.
abbrev damaged : Bytes
damaged = put complete 5 0x71

validate_wrong_byte_example : S2.validate damaged ≡ false
unfolding S2.validate S2.crc_check S2.crc_loop S2.get_dfl
validate_wrong_byte_example =
    validate_wrong_byte complete damaged 5 complete_bytes
      (λ i. put-IsBytes complete 5 0x71 complete_bytes i) (omega arith) (λ i h ne. ground arith)
      (ground arith) refl

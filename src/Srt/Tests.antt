-- ===== src/Srt/Tests.antt =====
-- Packets of secure reliable transport.
use bitstream.Base.{
  ℕ, ◌<◌, ◌≡◌, refl, ◌↔◌, true, some, [], ◌∷◌, arith, ◌==◌, if◌then◌else◌, Bytes, get_or,
}
use bitstream.Srt.Handshake
use bitstream.Srt.Handshake.Blocks.{IsHandshake, check_handshake-IsHandshake}
use bitstream.Srt.Reports
use bitstream.Srt.Reports.Losses.{Loss, Starts, answer, get_nak_range-Loss, dropreq_loses_bits}
use bitstream.Srt.Reports.{NakRange}

-- The packets 5 to 9 were lost.
abbrev report : Bytes
report i = get_or (0x80 ∷ 0 ∷ 0 ∷ 5 ∷ 0 ∷ 0 ∷ 0 ∷ 9 ∷ []) i 0

report_bytes : (i : ℕ) → report i < 256
report_bytes i = ground arith

abbrev lost : NakRange
lost = record { moved = 8; cif_size = 0; start_seq = 5; packets = 5 }

get_nak_range-Loss_example :
    (Reports.get_nak_range report 8 ≡ some lost)
    ↔ ((loss : Loss) × Starts report 8 loss × (lost ≡ answer 8 loss))
get_nak_range-Loss_example = get_nak_range-Loss report 8 lost report_bytes

five_lost : Reports.get_nak_range report 8 ≡ some lost
unfolding Reports.get_nak_range
five_lost = refl

dropreq_loses_bits_example :
    (Reports.get_dropreq_first_seq (Reports.set_dropreq_first_seq report 0x12345678) ≡ 0x345678)
    × (Reports.get_dropreq_last_seq (Reports.set_dropreq_last_seq report 0x12345678) ≡ 0x345678)
dropreq_loses_bits_example = dropreq_loses_bits report 0x12345678 (omega arith)

-- A handshake of version 5 with one extension of a word.
abbrev handshake : Bytes
handshake i = if i == 3 then 5 else if i == 7 then 1 else if i == 51 then 1 else 0

check_handshake-IsHandshake_example :
    (Handshake.check_handshake handshake 56 ≡ true) ↔ IsHandshake handshake 56
check_handshake-IsHandshake_example = check_handshake-IsHandshake handshake 56

accepted : Handshake.check_handshake handshake 56 ≡ true
unfolding Handshake.check_handshake Handshake.get_handshake_version
    Handshake.get_handshake_extension Handshake.check_extensions
    Handshake.get_handshake_extension_buf Handshake.get_handshake_extension_len
accepted = refl

-- An extension that says 65536 bytes, of which there are none.
abbrev wrapped : Bytes
wrapped i = if i == 3 then 5 else if i == 7 then 1 else if i == 50 then 0x40 else 0

accepts_wrapped : Handshake.check_handshake wrapped 52 ≡ true
unfolding Handshake.check_handshake Handshake.get_handshake_version
    Handshake.get_handshake_extension Handshake.check_extensions
    Handshake.get_handshake_extension_buf Handshake.get_handshake_extension_len
accepts_wrapped = refl

-- ===== src/Smpte/Tests.antt =====
-- A packet of ancillary data.
use bitstream.Base.{◌*◌, ◌%◌, ◌≡◌, refl, ◌≢◌, false, arith, ◌==◌, if◌then◌else◌}
use bitstream.Smpte
use bitstream.Smpte.{Words, put_word}
use bitstream.Smpte.Checksum.{check_cs-set_cs, check_cs_wrong_word}

abbrev blank : Words
blank i = if i == 1 then 0x3ff else if i == 2 then 0x3ff else i * 7 % 512

-- Two words of data.
abbrev packet : Words
packet = put_word blank 5 0x102

abbrev damaged : Words
damaged = put_word (Smpte.set_cs packet) 6 0x155

packet_words : Smpte.get_dc (Smpte.set_cs packet) ≡ 2
unfolding Smpte.get_dc Smpte.set_cs Smpte.compute_cs Smpte.cs_loop
packet_words = refl

packet_data : (0x155 % 512) ≢ (Smpte.set_cs packet 6 % 512)
unfolding Smpte.set_cs Smpte.compute_cs Smpte.get_dc Smpte.cs_loop
packet_data = ground arith

check_cs_wrong_word_example : Smpte.check_cs damaged ≡ false
check_cs_wrong_word_example =
    check_cs_wrong_word (Smpte.set_cs packet) damaged 6 (omega arith) (omega (arith, packet_words))
      (omega arith) (λ i ne. ground arith) packet_data (check_cs-set_cs packet)

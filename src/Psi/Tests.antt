-- ===== src/Psi/Tests.antt =====
-- Runs on concrete sections, and the theorems at concrete inputs.
use bitstream.Base.{
  ◌⊎◌, ℕ, ℕ, ap, ◌<◌, [], sym, ◌∷◌, ◌∙◌, false, none, put, ◌≤◌, ◌+◌, ◌*◌, ◌%◌, ◌≡◌, refl, true,
  some, Bytes, IsBytes, arith, if◌then◌else◌, ◌==◌,
}
use bitstream.Psi
use bitstream.Psi.Crc
use bitstream.Psi.Crc.Detect.{serial_loop}
use bitstream.Psi.Crc.RoundTrip.{
  section_crc-serial_loop, check_crc-set_crc, check_crc_wrong_byte, set_crc-IsBytes,
}
use bitstream.Psi.Assemble
use bitstream.Psi.Assemble.Chunks.{feed, feed-Agree, assemble_payload_too_long}
use bitstream.Psi.Assemble.Step.{Agree}
use bitstream.Psi.Relay.{relay, relay-Agree}

abbrev sample : Bytes
sample i = (i * 37 + 200) % 256

sample-IsBytes : IsBytes sample
sample-IsBytes i = omega arith

-- A section of length 9.
abbrev short : Bytes
short i = if i == 2 then 9 else if i == 1 then 0xb0 else if i == 0 then 0 else 0x11

short-IsBytes : IsBytes short
short-IsBytes i = ground arith

short_length : Psi.get_length short ≡ 9
unfolding Psi.get_length
short_length = refl

-- One that claims the longest private length, 4093.
abbrev longest : Bytes
longest i = if i == 2 then 0xfd else if i == 1 then 0xbf else 0x80

longest-IsBytes : IsBytes longest
longest-IsBytes i = ground arith

section_crc-serial_loop_example :
    Crc.section_crc short ≡ serial_loop (Crc.crc_end short) 0 short 0xffffffff
section_crc-serial_loop_example = section_crc-serial_loop short short-IsBytes

check_crc-set_crc_example : Crc.check_crc (Crc.set_crc short) ≡ true
check_crc-set_crc_example = check_crc-set_crc short short-IsBytes (omega (arith, short_length))

-- The section with its checksum, and with byte 5 changed.
abbrev sealed : Bytes
sealed = Crc.set_crc short

sealed-IsBytes : IsBytes sealed
sealed-IsBytes = set_crc-IsBytes short short-IsBytes

abbrev broken : Bytes
broken = put sealed 5 0x13

broken-IsBytes : IsBytes broken
broken-IsBytes i = ground (arith, sealed-IsBytes i)

sealed_length : Psi.get_length sealed ≡ 9
unfolding Psi.get_length Crc.set_crc Crc.crc_end
sealed_length = refl

broken_length : Psi.get_length broken ≡ 9
unfolding Psi.get_length Crc.set_crc Crc.crc_end
broken_length = refl

sealed_five : sealed 5 ≡ 0x11
unfolding Psi.get_length Crc.set_crc Crc.crc_end
sealed_five = refl

check_crc_wrong_byte_example : Crc.check_crc broken ≡ false
check_crc_wrong_byte_example =
    check_crc_wrong_byte sealed broken sealed-IsBytes broken-IsBytes 5
      (λ e. absurd (omega (arith, e, sealed_five))) (λ j d. ground (arith, d))
      (omega (arith, sealed_length)) (broken_length ∙ sym sealed_length)
      (omega (arith, sealed_length))
      (check_crc-set_crc short short-IsBytes (omega (arith, short_length)))

feed-Agree_example :
    ((12 ≤ 12)
      × ((t : Bytes) × (feed short Assemble.assemble_init short 0 (5 ∷ 7 ∷ []) ≡ some t)
          × Agree 12 t short))
    ⊎ ((12 < 12) × (feed short Assemble.assemble_init short 0 (5 ∷ 7 ∷ []) ≡ none))
feed-Agree_example =
    feed-Agree short short 12 (sym (ap (λ (n : ℕ). n + 3) short_length)) (omega arith)
      (λ e. absurd (omega (arith, e))) (5 ∷ 7 ∷ []) (omega arith, (omega arith, tt))

longest_length : Psi.get_length longest ≡ 4093
unfolding Psi.get_length
longest_length = refl

assemble_payload_too_long_example :
    Assemble.assemble_payload short Assemble.assemble_init longest 184
    ≡ record { assembly = Assemble.assemble_init; advance = 0; length = 0; section = none }
assemble_payload_too_long_example =
    assemble_payload_too_long short longest 184 longest-IsBytes (λ e. absurd (omega (arith, e)))
      (omega (arith, longest_length)) (omega arith) (omega arith)

-- A section of 303 bytes.
abbrev two_packets : Bytes
two_packets i = if i == 2 then 0x2c else if i == 1 then 0xb1 else if i == 0 then 2 else 0x47

two_packets-IsBytes : IsBytes two_packets
two_packets-IsBytes i = ground arith

two_packets_length : Psi.get_length two_packets ≡ 300
unfolding Psi.get_length
two_packets_length = refl

relay-Agree_example :
    (t : Bytes) × (relay 2 sample short Assemble.assemble_init two_packets 0 ≡ some t)
    × Agree (Psi.get_length two_packets + 3) t two_packets
relay-Agree_example =
    relay-Agree sample short two_packets two_packets-IsBytes (omega (arith, two_packets_length))
      (λ e. absurd (omega (arith, e))) 2 (omega (arith, two_packets_length))

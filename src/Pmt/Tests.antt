-- ===== src/Pmt/Tests.antt =====
-- Runs on a concrete table, and the theorems at concrete inputs.
use bitstream.Base.{◌+◌, ◌*◌, ◌%◌, ◌≡◌, ◌↔◌, refl, true, Bytes, IsBytes, arith, if◌then◌else◌, ◌==◌}
use bitstream.Psi
use bitstream.Psi.Crc
use bitstream.Descs
use bitstream.Pmt
use bitstream.Pmt.Tiles.{IsMap, validate_iff, Streams}

abbrev sample : Bytes
sample i = (i * 37 + 200) % 256

sample-IsBytes : IsBytes sample
sample-IsBytes i = omega arith

-- Two entries behind an empty list of descriptors: the stream 0x100, with one descriptor of two
-- bytes, and the stream 0x101 without any. The checksum is not set.
abbrev plain : Bytes
plain i =
    if i == 0
    then 2
    else if i == 1
    then 0xb0
    else if i == 2
    then 25
    else if i == 13
    then 1
    else if i == 16
    then 2
    else if i == 20
    then 1
    else if i == 21
    then 1
    else 0

plain-IsBytes : IsBytes plain
plain-IsBytes i = ground arith

abbrev map : Bytes
map = Crc.set_crc plain

map-IsMap : IsMap map
unfolding Psi.get_syntax Pmt.validate Crc.set_crc Psi.get_section Psi.get_lastsection
    Psi.get_tableid Crc.check_crc Crc.crc_step Crc.crc_table Pmt.section_size Pmt.get_desclength
    Descs.descs_validate Descs.descl_validate Descs.descs_get_length Pmt.validate_loop
    Pmt.get_es_desclength
map-IsMap = (validate_iff map).0 valid
  where
    valid : Pmt.validate map ≡ true
    valid = refl

validate_iff_example : (Pmt.validate map ≡ true) ↔ IsMap map
validate_iff_example = validate_iff map

streams : Streams map (12 + Pmt.get_desclength map)
streams = map-IsMap.streams

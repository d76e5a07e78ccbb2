-- ===== src/Pmt.antt =====
-- mpeg/psi/pmt.h: the program map table. A pointer into the section is the offset from its start.
pub mod Header
pub mod Stream
pub mod Tiles
mod Tests
use bitstream.Base.{
  ℕ, ◌+◌, ◌-◌, ◌^◌, bit_and, bit_or, Bool, true, false, Bytes, put, u16, not_u8, ◌<<◌, ◌>>◌, ◌==◌,
  ◌!=◌, if◌then◌else◌, Option, none, some, ltb, leb, not, ◌&&◌, ◌||◌, at, zero, suc,
}
use bitstream.Psi
use bitstream.Psi.Crc
use bitstream.Descs

-- PMT_TABLE_ID, PMT_HEADER_SIZE, PMT_ES_SIZE
abbrev pub table_id : ℕ
table_id = 0x2

abbrev pub header_size : ℕ
header_size = Psi.header_size_syntax1 + 4

abbrev pub es_size : ℕ
es_size = 5

unfoldable pub init : Bytes → Bytes
init p =
    let p1 = Psi.set_tableid (Psi.init p true) table_id in
    let p2 = put p1 1 (bit_and (p1 1) (not_u8 0x40)) in
    put (put (Psi.set_lastsection (Psi.set_section p2 0) 0) 8 0xe0) 10 0xf0

unfoldable pub set_length : Bytes → ℕ → Bytes
set_length p pmt_length =
    Psi.set_length p (u16 (header_size + Psi.crc_size - Psi.header_size + pmt_length))

unfoldable pub set_pcrpid : Bytes → ℕ → Bytes
set_pcrpid p pcr_pid =
    let p1 = put p 8 (bit_and (p 8) (not_u8 0x1f)) in
    let p2 = put p1 8 (bit_or (p1 8) (pcr_pid >> 8)) in put p2 9 (bit_and pcr_pid 0xff)

unfoldable pub get_pcrpid : Bytes → ℕ
get_pcrpid p = u16 (bit_or (bit_and (p 8) 0x1f << 8) (p 9))

unfoldable pub set_desclength : Bytes → ℕ → Bytes
set_desclength p length =
    let p1 = put p 10 (bit_and (p 10) (not_u8 0xf)) in
    let p2 = put p1 10 (bit_or (p1 10) (length >> 8)) in put p2 11 (bit_and length 0xff)

unfoldable pub get_desclength : Bytes → ℕ
get_desclength p = u16 (bit_or (bit_and (p 10) 0xf << 8) (p 11))

-- `&p_pmt[10]`
abbrev pub descs : ℕ
descs = 10

-- The entry of an elementary stream (`pmtn_`), from its start.
unfoldable pub init_es : Bytes → Bytes
init_es p = put (put p 1 0xe0) 3 0xf0

unfoldable pub set_es_streamtype : Bytes → ℕ → Bytes
set_es_streamtype p stream_type = put p 0 stream_type

unfoldable pub get_es_streamtype : Bytes → ℕ
get_es_streamtype p = p 0

unfoldable pub set_es_pid : Bytes → ℕ → Bytes
set_es_pid p pid =
    let p1 = put p 1 (bit_and (p 1) (not_u8 0x1f)) in
    let p2 = put p1 1 (bit_or (p1 1) (pid >> 8)) in put p2 2 (bit_and pid 0xff)

unfoldable pub get_es_pid : Bytes → ℕ
get_es_pid p = u16 (bit_or (bit_and (p 1) 0x1f << 8) (p 2))

unfoldable pub set_es_desclength : Bytes → ℕ → Bytes
set_es_desclength p length =
    let p1 = put p 3 (bit_and (p 3) (not_u8 0xf)) in
    let p2 = put p1 3 (bit_or (p1 3) (length >> 8)) in put p2 4 (bit_and length 0xff)

unfoldable pub get_es_desclength : Bytes → ℕ
get_es_desclength p = u16 (bit_or (bit_and (p 3) 0xf << 8) (p 4))

-- `&p_pmt_n[3]`
abbrev pub es_descs : ℕ
es_descs = 3

-- `i_section_size`: the size without the checksum, in 16 bits.
unfoldable pub section_size : Bytes → ℕ
section_size p = u16 (Psi.get_length p + Psi.header_size + 2 ^ 16 - Psi.crc_size)

-- The offset of the entry behind the entry `es`, or of the first one.
unfoldable pub next_es : Bytes → Option ℕ → Option ℕ
next_es p none =
    let o = header_size + get_desclength p in if ltb o (section_size p) then some o else none
next_es p (some es) =
    let o = es + (es_size + get_es_desclength (at p es)) in
    if ltb (section_size p) (es + es_size)
    then none
    else if ltb o (section_size p)
    then some o
    else none

-- `pmt_each_es(p_pmt, es) if (!n--) return es`, from an entry on.
unfoldable pub get_es_from : Bytes → ℕ → Option ℕ → Option ℕ
get_es_from p n none = none
get_es_from p zero (some es) = some es
get_es_from p (suc n) (some es) = get_es_from p n (next_es p (some es))

unfoldable pub get_es : Bytes → ℕ → Option ℕ
get_es p n = get_es_from p n (next_es p none)

-- `es` is the offset of the entry.
unfoldable pub validate_es : Bytes → ℕ → ℕ → Bool
validate_es p es desclength = leb (es + es_size + desclength) (section_size p)

-- `while (whole entry at o) { if (!descs_validate) return false; o += ... }`, and the comparison
-- behind it. An entry has 5 bytes at least, so one round more than the section has bytes is enough.
unfoldable pub validate_loop : ℕ → Bytes → ℕ → Bool
validate_loop zero p o = false
validate_loop (suc fuel) p o =
    let rest = validate_loop fuel p (o + (es_size + get_es_desclength (at p o))) in
    if leb (o + es_size) (section_size p)
      && leb (o + es_size + get_es_desclength (at p o)) (section_size p)
    then (Descs.descs_validate (at p (o + es_descs)) && rest)
    else o == section_size p

unfoldable pub validate : Bytes → Bool
validate p =
    if not (Psi.get_syntax p)
      || Psi.get_section p != 0
      || Psi.get_lastsection p != 0
      || Psi.get_tableid p != table_id
    then false
    else if not (Crc.check_crc p)
    then false
    else if ltb (section_size p) header_size
        || ltb (section_size p) (header_size + get_desclength p)
    then false
    else if not (Descs.descs_validate (at p descs))
    then false
    else validate_loop (section_size p + 1) p (header_size + get_desclength p)

-- `pmt_each_es(p_pmt, p_es) if (pmtn_get_pid(p_es) == i_pid) return p_es`, with one round more than
-- the section has bytes; running out of it is the outer `none`.
unfoldable pub find_es_from : ℕ → Bytes → ℕ → Option ℕ → Option (Option ℕ)
find_es_from zero p pid es = none
find_es_from (suc fuel) p pid none = some none
find_es_from (suc fuel) p pid (some es) =
    let rest = find_es_from fuel p pid (next_es p (some es)) in
    if get_es_pid (at p es) == pid then some (some es) else rest

unfoldable pub find_es : Bytes → ℕ → Option (Option ℕ)
find_es p pid = find_es_from (section_size p + 1) p pid (next_es p none)

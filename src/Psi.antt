-- ===== src/Psi.antt =====
-- mpeg/psi/psi.h: the header of a section, its validation and comparison. The parts of the file
-- that work on whole sections are in the modules below.
pub mod Header
pub mod Crc
pub mod Assemble
pub mod Table
pub mod Relay
pub mod Split
mod Tests
use bitstream.Base.{
  ℕ, ◌+◌, ◌-◌, bit_and, bit_or, Bool, true, false, ◌&&◌, Bytes, put, u16, not_u8, ◌<<◌, ◌>>◌, ltb,
  ◌==◌, flag, if◌then◌else◌, memcmp,
}

-- PSI_HEADER_SIZE, PSI_HEADER_SIZE_SYNTAX1, PSI_CRC_SIZE, PSI_PRIVATE_MAX_SIZE
abbrev pub header_size : ℕ
header_size = 3

abbrev pub header_size_syntax1 : ℕ
header_size_syntax1 = 8

abbrev pub crc_size : ℕ
crc_size = 4

abbrev pub private_max_size : ℕ
private_max_size = 4093

unfoldable pub set_tableid : Bytes → ℕ → Bytes
set_tableid p table_id = put p 0 table_id

unfoldable pub get_tableid : Bytes → ℕ
get_tableid p = p 0

unfoldable pub set_syntax : Bytes → Bytes
set_syntax p = put p 1 (bit_or (p 1) 0x80)

unfoldable pub get_syntax : Bytes → Bool
get_syntax p = flag (bit_and (p 1) 0x80)

unfoldable pub init : Bytes → Bool → Bytes
unfolding set_syntax
init p syntax = let p1 = put p 1 0x70 in if syntax then put (set_syntax p1) 5 0xc0 else p1

unfoldable pub set_length : Bytes → ℕ → Bytes
set_length p length =
    let p1 = put p 1 (bit_and (p 1) (not_u8 0xf)) in
    let p2 = put p1 1 (bit_or (p1 1) (bit_and (length >> 8) 0xf)) in put p2 2 (bit_and length 0xff)

unfoldable pub get_length : Bytes → ℕ
get_length p = bit_or (bit_and (p 1) 0xf << 8) (p 2)

unfoldable pub set_tableidext : Bytes → ℕ → Bytes
set_tableidext p table_id_ext = put (put p 3 (table_id_ext >> 8)) 4 (bit_and table_id_ext 0xff)

unfoldable pub get_tableidext : Bytes → ℕ
get_tableidext p = bit_or (p 3 << 8) (p 4)

unfoldable pub set_version : Bytes → ℕ → Bytes
set_version p version = put p 5 (bit_or (version << 1) 0xc0)

unfoldable pub get_version : Bytes → ℕ
get_version p = bit_and (p 5) 0x3e >> 1

unfoldable pub set_current : Bytes → Bytes
set_current p = put p 5 (bit_or (p 5) 0x1)

unfoldable pub get_current : Bytes → Bool
get_current p = flag (bit_and (p 5) 0x1)

unfoldable pub set_section : Bytes → ℕ → Bytes
set_section p section = put p 6 section

unfoldable pub get_section : Bytes → ℕ
get_section p = p 6

unfoldable pub set_lastsection : Bytes → ℕ → Bytes
set_lastsection p last_section = put p 7 last_section

unfoldable pub get_lastsection : Bytes → ℕ
get_lastsection p = p 7

unfoldable pub validate : Bytes → Bool
unfolding get_syntax get_length
validate p =
    if get_syntax p && ltb (get_length p) (header_size_syntax1 - header_size + crc_size)
    then false
    else true

unfoldable pub compare : Bytes → Bytes → Bool
unfolding get_version get_length
compare p q =
    get_version p == get_version q
    && (get_length p == get_length q && memcmp p q (get_length p + header_size))

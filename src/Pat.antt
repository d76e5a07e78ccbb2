-- ===== src/Pat.antt =====
-- mpeg/psi/pat.h: the program association table.
pub mod Entry
pub mod Find
pub mod Whole
mod Tests
use bitstream.Base.{
  ℕ, ◌+◌, ◌-◌, ◌*◌, ◌%◌, bit_and, bit_or, Bool, true, Bytes, put, u16, not_u8, ◌<<◌, ◌>>◌, ◌==◌,
  if◌then◌else◌, Option, none, some, ltb, ◌&&◌,
}
use bitstream.Psi

-- PAT_TABLE_ID, PAT_HEADER_SIZE, PAT_PROGRAM_SIZE
abbrev pub table_id : ℕ
table_id = 0x0

abbrev pub header_size : ℕ
header_size = Psi.header_size_syntax1

abbrev pub program_size : ℕ
program_size = 4

unfoldable pub init : Bytes → Bytes
init p =
    let p1 = Psi.set_tableid (Psi.init p true) table_id in put p1 1 (bit_and (p1 1) (not_u8 0x40))

unfoldable pub set_length : Bytes → ℕ → Bytes
set_length p pat_length =
    Psi.set_length p (u16 (header_size + Psi.crc_size - Psi.header_size + pat_length))

-- An entry (`patn_`), from its start; `number` is its program number.
unfoldable pub entry_init : Bytes → Bytes
entry_init p = put p 2 0xe0

unfoldable pub set_number : Bytes → ℕ → Bytes
set_number p program = let p1 = put p 0 (program >> 8) in put p1 1 (bit_and program 0xff)

unfoldable pub get_number : Bytes → ℕ
get_number p = u16 (bit_or (p 0 << 8) (p 1))

unfoldable pub set_pid : Bytes → ℕ → Bytes
set_pid p pid =
    let p1 = put p 2 (bit_and (p 2) (not_u8 0x1f)) in
    let p2 = put p1 2 (bit_or (p1 2) (pid >> 8)) in put p2 3 (bit_and pid 0xff)

unfoldable pub get_pid : Bytes → ℕ
get_pid p = u16 (bit_or (bit_and (p 2) 0x1f << 8) (p 3))

-- The offset of the entry `n`, an `uint8_t`. Both sides of the comparison are ints, and the size of
-- the checksum is added to both since the length may be less.
unfoldable pub get_program : Bytes → ℕ → Option ℕ
get_program p n =
    let o = header_size + n * program_size in
    if ltb (Psi.get_length p + Psi.header_size) (o + program_size + Psi.crc_size)
    then none
    else some o

-- The remainder is that of an `int`: it is 0 exactly when the difference divides, below 0 too.
unfoldable pub validate : Bytes → Bool
validate p =
    Psi.get_syntax p
    && (Psi.get_tableid p == table_id
        && (Psi.get_length p + Psi.header_size + 4 * program_size - header_size - Psi.crc_size)
            % program_size
          == 0)

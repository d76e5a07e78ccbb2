-- ===== src/Cat.antt =====
-- mpeg/psi/cat.h and mpeg/psi/tsdt.h: the two tables that are one list of descriptors, the
-- conditional access table and the transport stream description table.
pub mod Validate
mod Tests
use bitstream.Base.{
  zero, suc, some, none, some, leb, u8, suc, none, Option, ℕ, ◌+◌, ◌-◌, ◌%◌, ◌^◌, bit_and, Bool,
  true, false, Bytes, put, at, u16, not_u8, ltb, not, ◌!=◌, ◌||◌, if◌then◌else◌,
}
use bitstream.Psi
use bitstream.Psi.Crc
use bitstream.Descs

-- CAT_TABLE_ID, TSDT_TABLE_ID, CAT_HEADER_SIZE
abbrev pub table_id : ℕ
table_id = 0x01

abbrev pub tsdt_table_id : ℕ
tsdt_table_id = 0x03

abbrev pub header_size : ℕ
header_size = Psi.header_size_syntax1

-- The body that `cat_init` and `tsdt_init` share.
unfoldable pub init_as : ℕ → Bytes → Bytes
init_as id p =
    let p1 = Psi.set_tableid (Psi.init p true) id in
    let p2 = put p1 1 (bit_and (p1 1) (not_u8 0x40)) in
    Psi.set_lastsection (Psi.set_section (Psi.set_tableidext p2 0xffff) 0) 0

unfoldable pub init : Bytes → Bytes
init p = init_as table_id p

unfoldable pub tsdt_init : Bytes → Bytes
tsdt_init p = init_as tsdt_table_id p

unfoldable pub set_length : Bytes → ℕ → Bytes
set_length p length = Psi.set_length p (u16 (header_size + Psi.crc_size - Psi.header_size + length))

-- In 16 bits, whatever the length: 2 ^ 16 stands for the borrow.
unfoldable pub get_desclength : Bytes → ℕ
get_desclength p = u16 (Psi.get_length p + 2 ^ 16 - (header_size + Psi.crc_size - Psi.header_size))

unfoldable pub set_desclength : Bytes → ℕ → Bytes
set_desclength p desc_len = set_length p desc_len

-- The offset of the descriptors; `cat_get_descl_const` is the same.
unfoldable pub get_descl : ℕ
get_descl = header_size

-- The body that `cat_validate` and `tsdt_validate` share.
unfoldable pub validate_as : ℕ → Bytes → Bool
unfolding get_descl
validate_as id p =
    let section_size = u16 (Psi.get_length p + Psi.header_size + 2 ^ 16 - Psi.crc_size) in
    if not (Psi.get_syntax p)
      || Psi.get_section p != 0
      || Psi.get_lastsection p != 0
      || Psi.get_tableid p != id
    then false
    else if ltb section_size header_size || ltb section_size (header_size + get_desclength p)
    then false
    else Descs.descl_validate (at p get_descl) (get_desclength p)

unfoldable pub validate : Bytes → Bool
unfolding validate_as
validate p = validate_as table_id p

unfoldable pub tsdt_validate : Bytes → Bool
unfolding validate_as
tsdt_validate p = validate_as tsdt_table_id p

-- `for (i = 0; i <= last; i++)` with an `uint8_t`; `none` means that the fuel ran out, which it does
-- where the last section is 255 and every checksum is right.
unfoldable pub check_from : ℕ → (ℕ → Bytes) → ℕ → ℕ → Option Bool
check_from zero t last i = none
check_from (suc fuel) t last i =
    let rest = check_from fuel t last (u8 (i + 1)) in
    if leb i last then (if Crc.check_crc (t i) then rest else some false) else some true

-- The sections of the table by their number.
unfoldable pub table_validate : (ℕ → Bytes) → Option Bool
unfolding check_from
table_validate t = check_from 257 t (Psi.get_lastsection (t 0)) 0

-- ===== src/Pat/Tests.antt =====
-- Runs on concrete tables, and the theorems at concrete inputs.
use bitstream.Base.{
  Bool, true, ◌↔◌, ℕ, ◌+◌, ◌*◌, ◌%◌, ◌≡◌, ◌≢◌, refl, none, some, Option, Bytes, IsBytes, u8, arith,
  if◌then◌else◌, ◌==◌,
}
use bitstream.Psi
use bitstream.Psi.Crc
use bitstream.Pat
use bitstream.Pat.Whole.{table_validate}
use bitstream.Pat.Whole.Consistent.{IsConsistent, table_validate-IsConsistent}
use bitstream.Pat.Find.{
  find_program, search_table, search_section, FirstInTable, find_program-FirstInTable,
  get_program_never_null,
}

abbrev sample : Bytes
sample i = (i * 37 + 200) % 256

sample-IsBytes : IsBytes sample
sample-IsBytes i = omega arith

-- A table of one section, with the programs 1 and 2.
abbrev table : ℕ → Bytes
table m i =
    if i == 2
    then 17
    else if i == 9
    then 1
    else if i == 13
    then 2
    else if i == 10
    then 0xe1
    else if i == 14
    then 0xe2
    else 0

table_last : Psi.get_lastsection (table 0) ≡ 0
unfolding Psi.get_lastsection
table_last = refl

table_length : (m : ℕ) → Psi.get_length (table m) ≡ 17
unfolding Psi.get_length
table_length m = refl

second : find_program table 2 ≡ some (some (0, 12))
unfolding find_program search_table search_section Pat.get_program Pat.get_number Psi.get_length
    Psi.get_lastsection
second = refl

find_program-FirstInTable_example :
    (r : Option (ℕ × ℕ)) × (find_program table 2 ≡ some r)
    × FirstInTable table (Psi.get_lastsection (table 0)) 2 0 r
find_program-FirstInTable_example =
    find_program-FirstInTable table 2 (omega (arith, table_last))
      (λ m h. omega (arith, table_length m))

-- A section of length 1033.
abbrev long : Bytes
long i = if i == 1 then 4 else if i == 2 then 9 else 0

long_length : Psi.get_length long ≡ 1033
unfolding Psi.get_length
long_length = refl

get_program_never_null_example : Pat.get_program long (u8 300) ≢ none
get_program_never_null_example = get_program_never_null long 300 (omega (arith, long_length))

-- The table with its checksum.
abbrev complete : ℕ → Bytes
complete m = Crc.set_crc (table m)

complete_last : Psi.get_lastsection (complete 0) ≡ 0
unfolding Psi.get_lastsection Crc.set_crc Crc.crc_end Psi.get_length
complete_last = refl

complete_length : (m : ℕ) → Psi.get_length (complete m) ≡ 17
unfolding Psi.get_length Crc.set_crc Crc.crc_end
complete_length m = refl

table_validate-IsConsistent_example :
    (b : Bool) × (table_validate complete ≡ some b) × ((b ≡ true) ↔ IsConsistent complete)
table_validate-IsConsistent_example =
    table_validate-IsConsistent complete (omega (arith, complete_last))
      (λ m h. omega (arith, complete_length m))

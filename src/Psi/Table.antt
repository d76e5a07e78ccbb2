-- ===== src/Psi/Table.antt =====
-- mpeg/psi/psi.h: tables of up to 256 sections, each slot NULL or the owner of a section.
pub mod Complete
pub mod Calls
pub mod Order
pub mod Compare
mod Tests
use bitstream.Base.{
  ℕ, zero, suc, ◌+◌, ◌%◌, Bool, true, false, Option, none, some, Bytes, u8, ltb, leb, ◌==◌, ◌!=◌,
  ◌&&◌, ◌||◌, if◌then◌else◌,
}
use bitstream.Psi.{
  get_tableid, get_version, get_current, get_section, get_lastsection, get_tableidext, compare,
}

-- PSI_TABLE_MAX_SECTIONS
abbrev pub max_sections : ℕ
max_sections = 256

abbrev pub Table : Type 0
Table = ℕ → Option Bytes

unfoldable pub table_init : Table → Table
table_init t i = if ltb i max_sections then none else t i

-- The slots own nothing any more; their pointers are not to be read.
unfoldable pub table_free : Table → Table
table_free t i = if ltb i max_sections then none else t i

unfoldable pub table_validate : Table → Bool
table_validate t = elim (t 0) [ none ↦ false | some s ↦ true ]

unfoldable pub table_copy : Table → Table → Table
table_copy dest src i = if ltb i max_sections then src i else dest i

-- `pp_sections[i_section] = p_section`; what the slot held is freed, and the new section is in no slot
-- before.
unfoldable pub fill : Table → ℕ → Bytes → Table
fill t i s j = if i == j then some s else t j

-- The test of one slot against the new section.
unfoldable pub agrees : Option Bytes → Bytes → Bool
agrees none s = false
agrees (some p) s =
    get_lastsection p == get_lastsection s
    && (get_version p == get_version s && get_tableidext p == get_tableidext s)

-- `for (i = 0; i <= i_last_section; i++)`, with `left` rounds left.
unfoldable pub all_agree : ℕ → Table → Bytes → ℕ → Bool
all_agree zero t s i = true
all_agree (suc left) t s i = agrees (t i) s && all_agree left t s (i + 1)

-- The slots from `i` on are freed.
unfoldable pub free_from : Table → ℕ → Table
free_from t i j = if leb i j && ltb j max_sections then none else t j

-- The table afterwards, and whether it is full.
unfoldable pub table_section : Table → Bytes → Bool × Table
table_section t s =
    let t1 = fill t (get_section s) s in
    let last = get_lastsection s in
    if all_agree (last + 1) t1 s 0 then (true, free_from t1 (last + 1)) else (false, t1)

unfoldable pub table_get_section : Table → ℕ → Option Bytes
table_get_section t n = t n

-- A table whose slots up to the last section are filled, by its sections: what the `psi_table_get_`
-- macros read.
unfoldable pub table_get_tableid : (ℕ → Bytes) → ℕ
table_get_tableid t = get_tableid (t 0)

unfoldable pub table_get_version : (ℕ → Bytes) → ℕ
table_get_version t = get_version (t 0)

unfoldable pub table_get_current : (ℕ → Bytes) → Bool
table_get_current t = get_current (t 0)

unfoldable pub table_get_lastsection : (ℕ → Bytes) → ℕ
table_get_lastsection t = get_lastsection (t 0)

unfoldable pub table_get_tableidext : (ℕ → Bytes) → ℕ
table_get_tableidext t = get_tableidext (t 0)

-- `for (i = 0; i <= last; i++)` with an `uint8_t`; `none` means that the fuel ran out, which it does
-- where the last section is 255 and all are equal.
unfoldable pub compare_from : ℕ → (ℕ → Bytes) → (ℕ → Bytes) → ℕ → ℕ → Option Bool
compare_from zero t u last i = none
compare_from (suc fuel) t u last i =
    let rest = compare_from fuel t u last (u8 (i + 1)) in
    if leb i last then (if compare (t i) (u i) then rest else some false) else some true

unfoldable pub table_compare : (ℕ → Bytes) → (ℕ → Bytes) → Option Bool
unfolding table_get_lastsection compare_from
table_compare t u =
    if table_get_lastsection t != table_get_lastsection u
    then some false
    else compare_from 257 t u (table_get_lastsection t) 0

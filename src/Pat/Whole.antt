-- ===== src/Pat/Whole.antt =====
-- mpeg/psi/pat.h: `pat_table_validate`, which searches the table for each of its entries.
pub mod Consistent
use native.Mathlib.Decide.{dec_lt}
use bitstream.Base.{
  subst, ℕ, zero, suc, ◌+◌, ◌*◌, ◌≤◌, ◌<◌, ◌≡◌, ◌↔◌, inl, inr, refl, sym, ap, ◌∙◌, Bool, true,
  false, Option, none, some, Bytes, at, u8, leb, ◌==◌, ==_iff, Bool-cases, if◌then◌else◌, arith,
}
use bitstream.Psi
use bitstream.Psi.Crc
use bitstream.Pat
use bitstream.Pat.Find.{
  find_program, IsInside, number, FirstFrom, FirstInTable, find_program-FirstInTable,
  get_program_inside, get_program_outside,
}

-- The loop over the entries of a section, from the entry `j` on. There is no result where the fuel
-- runs out, here or in the search, and where the search returns NULL, which is read.
unfoldable pub check_entries : ℕ → (ℕ → Bytes) → Bytes → ℕ → Option Bool
check_entries zero t s j = none
check_entries (suc fuel) t s j =
    let rest = check_entries fuel t s (j + 1) in
    elim (Pat.get_program s (u8 j)) [
      | none ↦ some true
      | some o ↦ elim (find_program t (Pat.get_number (at s o))) [
        | none ↦ none
        | some r ↦ elim r [
          | none ↦ none
          | some e ↦
              if Pat.get_pid (at s o) == Pat.get_pid (at (t e.0) e.1) then rest else some false
        ]
      ]
    ]

-- The loop over the sections.
unfoldable pub check_sections : ℕ → (ℕ → Bytes) → ℕ → ℕ → Option Bool
check_sections zero t last i = none
check_sections (suc fuel) t last i =
    let rest = check_sections fuel t last (u8 (i + 1)) in
    if leb i last
    then (if Crc.check_crc (t i)
        then elim (check_entries 257 t (t i) 0) [
          | none ↦ none
          | some b ↦ if b then rest else some false
        ]
        else some false)
    else some true

unfoldable pub table_validate : (ℕ → Bytes) → Option Bool
table_validate t = check_sections 257 t (Psi.get_lastsection (t 0)) 0

-- ===== src/Psi/Table/Tests.antt =====
-- A table of three sections.
use bitstream.Base.{
  ◌⊎◌, false, Bool, some, ℕ, ◌%◌, ◌≤◌, ◌≡◌, ◌↔◌, refl, true, [], ◌∷◌, Bytes, IsBytes, ◌==◌,
  if◌then◌else◌, arith,
}
use bitstream.Psi
use bitstream.Psi.Table
use bitstream.Psi.Table.{Table}
use bitstream.Psi.Table.Calls.{initial, call, IsNumbered, IsWhole, table_section-IsWhole}
use bitstream.Psi.Table.Compare.{IsEqual, table_compare-IsEqual}
use bitstream.Psi.Table.Order.{IsSeries, fed, has, table_section_any_order}

-- Section `k` of 0 to 2; the low bits of its number are all that a test needs.
abbrev sections : ℕ → Bytes
sections k i = if i == 6 then k % 256 else if i == 7 then 2 else if i == 5 then 0xc1 else 0

sections-IsBytes : (k : ℕ) → IsBytes (sections k)
sections-IsBytes k i = ground arith

full : Table
full k = some (sections 9)

series : IsSeries sections 2
unfolding Psi.get_section Psi.get_lastsection Psi.get_version Psi.get_tableidext
series = record {
  bounded = omega arith;
  number = λ k h. ground (arith, h);
  same_last = λ k h. refl;
  same_version = λ k h. refl;
  same_table = λ k h. refl;
}

table_section_any_order_example :
    ((Table.table_section (fed sections (2 ∷ 0 ∷ 2 ∷ []) (Table.table_init full)) (sections 1)).0
      ≡ true)
    ↔ ((j : ℕ) → j ≤ 2 → has j (1 ∷ 2 ∷ 0 ∷ 2 ∷ []) ≡ true)
table_section_any_order_example =
    table_section_any_order sections 2 full (2 ∷ 0 ∷ 2 ∷ []) 1 series
      (omega arith, (omega arith, (omega arith, tt))) (omega arith)

two_left : Table
two_left = (Table.table_section (Table.table_init full) (sections 2)).1

table_section-IsWhole_example :
    IsNumbered two_left
    × (((Table.table_section two_left (sections 0)).0 ≡ false)
        ⊎ IsWhole ((Table.table_section two_left (sections 0)).1) (sections 0))
unfolding two_left
table_section-IsWhole_example =
    table_section-IsWhole two_left (sections 0)
      (call (Table.table_init full) (sections 2) (sections-IsBytes 2) (initial full))
      (sections-IsBytes 0)

table_compare-IsEqual_example :
    (b : Bool) × (Table.table_compare sections sections ≡ some b)
    × ((b ≡ true) ↔ IsEqual sections sections)
unfolding Psi.get_lastsection
table_compare-IsEqual_example = table_compare-IsEqual sections sections (omega arith)

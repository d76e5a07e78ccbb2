-- ===== src/Cat/Tests.antt =====
-- The theorem at a concrete table.
use bitstream.Base.{◌≡◌, ◌↔◌, refl, true, Bytes, IsBytes, arith, if◌then◌else◌, ◌==◌}
use bitstream.Psi
use bitstream.Cat
use bitstream.Cat.Validate.{IsTable, validate-IsTable}

-- A conditional access table with one descriptor of 4 bytes.
abbrev access : Bytes
access i =
    if i == 0
    then 1
    else if i == 1
    then 0xb0
    else if i == 2
    then 13
    else if i == 8
    then 9
    else if i == 9
    then 2
    else 0

access-IsBytes : IsBytes access
access-IsBytes i = ground arith

access_length : Psi.get_length access ≡ 13
unfolding Psi.get_length
access_length = refl

validate-IsTable_example :
    ((Cat.validate access ≡ true) ↔ IsTable 1 access)
    × ((Cat.tsdt_validate access ≡ true) ↔ IsTable 3 access)
validate-IsTable_example = validate-IsTable access access-IsBytes (omega (arith, access_length))

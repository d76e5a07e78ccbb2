-- ===== src/Descs/Tests.antt =====
-- Runs on a concrete list, and the theorems at concrete inputs.
use bitstream.Base.{
  ◌+◌, ◌%◌, ◌<◌, ◌≡◌, ◌↔◌, refl, true, none, some, Bytes, at, arith, if◌then◌else◌, ◌==◌,
}
use bitstream.Descs
use bitstream.Descs.Tiles.{
  Tiles, stop, step, offsets, AllInside, descl_validate_iff, offsets-AllInside,
}
use bitstream.Descs.Add.{descs_add_desc_wrong_length}

-- Two descriptors, of 3 and of 2 bytes.
abbrev list : Bytes
list i = if i == 1 then 1 else if i == 0 then 0x52 else 0

list-Tiles : Tiles list 5 0
list-Tiles = step (omega arith) (step (omega arith) (stop (omega arith)))

second : Descs.descl_get_desc list 5 1 ≡ some 3
unfolding Descs.descl_get_desc
second = refl

too_many : Descs.descl_get_desc list 5 2 ≡ none
unfolding Descs.descl_get_desc
too_many = refl

-- The same behind its length.
abbrev descs : Bytes
descs i = if i == 1 then 5 else if i == 2 then 0x52 else if i == 3 then 1 else 0

descl_validate_iff_example : (Descs.descl_validate list 5 ≡ true) ↔ Tiles list 5 0
descl_validate_iff_example = descl_validate_iff list 5

offsets-AllInside_example : AllInside list 5 (offsets list-Tiles)
offsets-AllInside_example = offsets-AllInside list-Tiles

descs-valid : Descs.descs_validate descs ≡ true
unfolding Descs.descs_validate Descs.descs_get_length Descs.descl_validate
descs-valid = refl

descs_add_desc_wrong_length_example :
    (q : Bytes) × (Descs.descs_add_desc descs 6 ≡ some (q, 2 + Descs.descs_get_length descs))
    × ((Descs.desc_get_length (at q (2 + Descs.descs_get_length descs)) + 2 ≡ 6)
        ↔ (Descs.descs_get_length descs % 256 ≡ 6 % 256))
descs_add_desc_wrong_length_example =
    descs_add_desc_wrong_length descs 6 descs-valid (omega arith) (omega arith) (five)
  where
    five : Descs.descs_get_length descs + 6 < 4096
    five = unfold Descs.descs_get_length in omega arith

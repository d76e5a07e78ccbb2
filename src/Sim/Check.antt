-- ===== src/Sim/Check.antt =====
-- dvb/sim.h: what ecmg_validate and emmg_validate have in common, the loop over the table of the
-- message and the loop over its parameters.
use bitstream.Base.{
  ℕ, zero, suc, ◌+◌, Bool, true, false, Option, none, some, List, [], ◌∷◌, u16, Bytes, at,
}
use bitstream.Sim
use bitstream.Sim.{ParamCount}

-- `if (!a) return false`, and what follows.
abbrev pub then_all : Option Bool → Option Bool → Option Bool
then_all none rest = none
then_all (some false) rest = some false
then_all (some true) rest = rest

unfoldable pub validate_counts : Bytes → List ParamCount → Option Bool
unfolding Sim.validate_count_param
validate_counts p [] = some true
validate_counts p (c ∷ cs) = then_all (Sim.validate_count_param p c) (validate_counts p cs)

-- `none` is the end of the parameters.
abbrev pub check_param : (ℕ → ℕ → Bool) → Bytes → Option ℕ → Option Bool → Option Bool
check_param valid p none rest = some true
check_param valid p (some o) rest =
    then_all (some (valid (Sim.get_type (at p o)) (Sim.get_length (at p o)))) rest

-- The counter is an `int`, of which `tlv_get_param` takes 16 bits.
unfoldable pub validate_params : ℕ → (ℕ → ℕ → Bool) → Bytes → ℕ → Option Bool
unfolding Sim.get_param
validate_params zero valid p j = none
validate_params (suc fuel) valid p j =
    check_param valid p (Sim.get_param p (u16 j)) (validate_params fuel valid p (j + 1))

-- The parameters of a message start four bytes apart at least.
unfoldable pub validate_message : List ParamCount → (ℕ → ℕ → Bool) → Bytes → Option Bool
unfolding validate_counts validate_params
validate_message cs valid p =
    then_all (validate_counts p cs) (validate_params (Sim.get_length p + 1) valid p 0)

-- ===== src/Sim/Accepts.antt =====
-- What ecmg_validate and emmg_validate accept, on a message that tlv_validate accepts.
use bitstream.Base.{
  ℕ, zero, suc, ◌+◌, ◌<◌, ◌≡◌, refl, sym, ap, subst, ◌∙◌, ap₂, Bool, true, false, ◌&&◌, none, some,
  List, [], ◌∷◌, arith, leb, u16, Bytes, at, length, get_elem?,
}
use bitstream.Sim
use bitstream.Sim.Check
use bitstream.Sim.Ecmg.Rules as Ecmg
use bitstream.Sim.Emmg.Rules as Emmg
use bitstream.Sim.Find.{
  count_type, offsets, get_param-offsets, next_of, count_param-count_type, length-le,
}
use bitstream.Sim.Layout.{Param, IsLaid, IsMessage, length-slice}
use bitstream.Sim.Tables.{
  ecmg_counts, ecmg_valid, emmg_counts, emmg_valid, params-ecmg_counts, params-emmg_counts,
  validate_param-ecmg_valid, validate_param-emmg_valid,
}
use bitstream.Sim.{ParamCount}

-- Each type of the table occurs as often as the table says.
abbrev pub all_within : List ParamCount → List Param → Bool
all_within [] qs = true
all_within (c ∷ cs) qs =
    (leb c.min (count_type c.type qs) && leb (count_type c.type qs) c.max) && all_within cs qs

-- Each parameter has a valid length.
abbrev pub all_valid : (ℕ → ℕ → Bool) → List Param → Bool
all_valid valid [] = true
all_valid valid (q ∷ qs) = valid q.type (length q.content) && all_valid valid qs

then_all_lem : (a b : Bool) → Check.then_all (some a) (some b) ≡ some (a && b)
then_all_lem true b = refl
then_all_lem false b = refl

validate_counts-all_within :
    (p : Bytes) (qs : List Param) (cs : List ParamCount)
    → IsMessage p qs
    → Sim.get_length p < 65536
    → Check.validate_counts p cs ≡ some (all_within cs qs)
unfolding Check.validate_counts Sim.validate_count_param
validate_counts-all_within p qs [] h small = refl
validate_counts-all_within p qs (c ∷ cs) h small =
    rw (count_param-count_type p c.type qs h small, validate_counts-all_within p qs cs h small)
      (then_all_lem (leb c.min (count_type c.type qs) && leb (count_type c.type qs) c.max) _)

validate_params-all_valid :
    (fuel : ℕ) (valid : ℕ → ℕ → Bool) (p : Bytes) (j o e : ℕ) (qs : List Param)
    → ((k : ℕ) → Sim.get_param p (j + k) ≡ get_elem? (offsets o qs) k)
    → IsLaid p o qs e
    → j + length qs < 65536
    → length qs < fuel
    → Check.validate_params fuel valid p j ≡ some (all_valid valid qs)
unfolding Check.validate_params
validate_params-all_valid zero valid p j o e qs at_j laid few enough = absurd (omega arith)
validate_params-all_valid (suc fuel) valid p j o e [] at_j laid few enough =
    let here : Sim.get_param p (u16 j) ≡ none = ap (Sim.get_param p) (omega arith) ∙ at_j 0 in
    rw here refl
validate_params-all_valid (suc fuel) valid p j o e (q ∷ qs) at_j laid few enough =
    let here : Sim.get_param p (u16 j) ≡ some o = ap (Sim.get_param p) (omega arith) ∙ at_j 0 in
    let ih =
      validate_params-all_valid fuel valid p (j + 1) (o + (4 + length q.content)) e qs
        (λ k. ap (Sim.get_param p) (omega arith) ∙ at_j (suc k))
        (subst (λ k. IsLaid p k qs e) (sym (next_of p o q laid.0)) laid.1) (omega arith)
        (omega arith) in
    let type : Sim.get_type (at p o) ≡ q.type = ap (λ (r : Param). r.type) (sym laid.0) in
    let size : Sim.get_length (at p o) ≡ length q.content =
      sym (length-slice p (o + 4) _) ∙ ap (λ (r : Param). length r.content) (sym laid.0) in
    rw (here, ih, type, size) (then_all_lem (valid q.type (length q.content)) _)

all_valid_ext :
    (v w : ℕ → ℕ → Bool) (qs : List Param)
    → ((type size : ℕ) → v type size ≡ w type size)
    → all_valid v qs ≡ all_valid w qs
all_valid_ext v w [] h = refl
all_valid_ext v w (q ∷ qs) h =
    ap₂ (λ (a b : Bool). a && b) (h q.type (length q.content)) (all_valid_ext v w qs h)

validate_message_lem :
    (cs : List ParamCount) (valid : ℕ → ℕ → Bool) (p : Bytes) (qs : List Param)
    → IsMessage p qs
    → Sim.get_length p < 65536
    → Check.validate_message cs valid p ≡ some (all_within cs qs && all_valid valid qs)
unfolding Check.validate_message
validate_message_lem cs valid p qs h small =
    let few = length-le p 4 qs _ h in
    let params =
      validate_params-all_valid (Sim.get_length p + 1) valid p 0 4 _ qs
        (λ k. ap (Sim.get_param p) (omega arith) ∙ get_param-offsets p qs k h) h (omega arith)
        (omega arith) in
    rw (validate_counts-all_within p qs cs h small, params) (then_all_lem (all_within cs qs) _)

ap_rules :
    (cs ds : List ParamCount) (v w : ℕ → ℕ → Bool) (qs : List Param)
    → cs ≡ ds
    → ((type size : ℕ) → v type size ≡ w type size)
    → (all_within cs qs && all_valid v qs) ≡ (all_within ds qs && all_valid w qs)
ap_rules cs ds v w qs e h =
    ap₂ (λ (a b : Bool). a && b) (ap (λ (l : List ParamCount). all_within l qs) e)
      (all_valid_ext v w qs h)

-- On a message of parameters whose length field is below 2 ^ 16, `ecmg_validate` and `emmg_validate`
-- return, with true exactly where each type that the row of the message names, in the table of the
-- counts, occurs as often as it says, and each parameter has a length that the table of the lengths
-- allows.
pub validate_rules :
    (p : Bytes) (qs : List Param)
    → IsMessage p qs
    → Sim.get_length p < 65536
    → (Ecmg.validate p
        ≡ some (all_within (ecmg_counts (Sim.get_type p)) qs && all_valid ecmg_valid qs))
      × (Emmg.validate p
          ≡ some (all_within (emmg_counts (Sim.get_type p)) qs && all_valid emmg_valid qs))
unfolding Ecmg.validate Emmg.validate
validate_rules p qs h small = (
  validate_message_lem (Ecmg.params (Sim.get_type p)) Ecmg.validate_param p qs h small
      ∙ ap some (
          ap_rules _ _ Ecmg.validate_param ecmg_valid qs (params-ecmg_counts (Sim.get_type p))
            validate_param-ecmg_valid),
  validate_message_lem (Emmg.params (Sim.get_type p)) Emmg.validate_param p qs h small
      ∙ ap some (
          ap_rules _ _ Emmg.validate_param emmg_valid qs (params-emmg_counts (Sim.get_type p))
            validate_param-emmg_valid),
)

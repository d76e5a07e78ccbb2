-- ===== src/Sim/Append/Open.antt =====
-- A message under construction: its parameters, an empty one behind them, and room up to its length.
use bitstream.Base.{
  ℕ, zero, suc, ◌+◌, ◌^◌, ◌≤◌, ◌<◌, ◌≡◌, refl, sym, ap, subst, ◌∙◌, ◌≢◌, false, some, List, [], ◌∷◌,
  ◌++◌, arith, ◌==◌, u8, Bytes, at, length, get_elem?,
}
use bitstream.Sim
use bitstream.Sim.Find.{offsets, loop_next, loop_here, next_of, get_param_lem}
use bitstream.Sim.Layout.{Param, IsLaid, IsLaid-le}

-- No parameter has the type of the empty one.
abbrev pub AllNamed : List Param → Type 0
AllNamed [] = Unit
AllNamed (q ∷ qs) = (q.type ≢ 0) × AllNamed qs

pub record IsOpen (p : Bytes) (qs : List Param) (e : ℕ) : Type 0 where
  pub laid : IsLaid p 4 qs e
  pub room : e ≤ 2 + Sim.get_length p
  pub marked : Sim.get_type (at p e) ≡ 0
  pub named : AllNamed qs

loop_last : (p : Bytes) (size e : ℕ) → 4 ≤ e → e ≤ 2 + size → Sim.get_param_loop 0 p size e ≡ some e
unfolding Sim.get_param_loop
loop_last p size e g h = ground arith

-- The parameters and the empty one are found by their number.
loop_open :
    (p : Bytes) (size n o e : ℕ) (qs : List Param)
    → 4 ≤ o
    → IsLaid p o qs e
    → e ≤ 2 + size
    → n ≤ length qs
    → Sim.get_param_loop n p size o ≡ get_elem? (offsets o qs ++ e ∷ []) n
loop_open p size zero o e [] g h k le = rw h (loop_last p size e (omega arith) k)
loop_open p size (suc n) o e [] g h k le = absurd (omega arith)
loop_open p size zero o e (q ∷ qs) g h k le =
    loop_here p size o g (omega (arith, IsLaid-le p (Sim.next p o) qs e h.1))
loop_open p size (suc n) o e (q ∷ qs) g h k le =
    loop_next p size n o (omega (arith, IsLaid-le p (Sim.next p o) qs e h.1))
    ∙ loop_open p size n (Sim.next p o) e qs (omega arith) h.1 k (omega arith)
    ∙ ap (λ (k : ℕ). get_elem? (offsets k qs ++ e ∷ []) n) (sym (next_of p o q h.0))

find_open :
    (fuel : ℕ) (p : Bytes) (j o e : ℕ) (qs : List Param)
    → ((k : ℕ) → k ≤ length qs → Sim.get_param p (j + k) ≡ get_elem? (offsets o qs ++ e ∷ []) k)
    → IsLaid p o qs e
    → AllNamed qs
    → Sim.get_type (at p e) ≡ 0
    → j + length qs < 256
    → length qs < fuel
    → Sim.find_loop fuel p 0 0 j ≡ some (some e)
unfolding Sim.find_loop Sim.type_at
find_open zero p j o e qs at_j laid named marked few enough = absurd (omega arith)
find_open (suc fuel) p j o e [] at_j laid named marked few enough =
    let here : Sim.get_param p j ≡ some e =
      ap (Sim.get_param p) (omega arith) ∙ at_j 0 (omega arith) in
    rw (here, marked) refl
find_open (suc fuel) p j o e (q ∷ qs) at_j laid named marked few enough =
    let here : Sim.get_param p j ≡ some o =
      ap (Sim.get_param p) (omega arith) ∙ at_j 0 (omega arith) in
    let same : Sim.get_type (at p o) ≡ q.type = ap (λ (r : Param). r.type) (sym laid.0) in
    let miss : (q.type == 0) ≡ false = ground arith in
    rw (here, same, miss)
      (find_open fuel p (u8 (j + 1)) (o + (4 + length q.content)) e qs
        (λ k le. ap (Sim.get_param p) (omega arith) ∙ at_j (suc k) (omega arith))
        (subst (λ k. IsLaid p k qs e) (sym (next_of p o q laid.0)) laid.1) named.1 marked
        (omega arith) (omega arith))

-- The empty parameter is found behind the others.
pub find_param_open :
    (p : Bytes) (qs : List Param) (e : ℕ)
    → IsOpen p qs e
    → length qs < 256
    → Sim.find_param p Sim.param_empty 0 ≡ some (some e)
unfolding Sim.find_param
find_param_open p qs e h few =
    find_open (2 ^ 24) p 0 4 e qs
      (λ k le.
        ap (Sim.get_param p) (omega arith)
        ∙ get_param_lem p k
        ∙ loop_open p (Sim.get_length p) k 4 e qs (omega arith) h.laid h.room le)
      h.laid h.named h.marked (omega arith) (omega arith)

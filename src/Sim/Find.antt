-- ===== src/Sim/Find.antt =====
-- `tlv_get_param`, `tlv_find_param` and `tlv_count_param` on a message that holds a list of
-- parameters.
use bitstream.Base.{
  ℕ, zero, suc, ◌+◌, ◌-◌, ◌*◌, ◌^◌, ◌≤◌, ◌<◌, ◌≡◌, refl, sym, ap, subst, ◌∙◌, ◌≢◌, Bool, true,
  false, Option, none, some, List, [], ◌∷◌, arith, ◌==◌, if◌then◌else◌, u8, u16, Bytes, at, length,
  get_elem?,
}
use bitstream.Sim
use bitstream.Sim.Layout.{Param, IsLaid, IsLaid-le, IsMessage, length-slice, param_at}

-- The places of these parameters, one behind the other from `o` on.
abbrev pub offsets : ℕ → List Param → List ℕ
offsets o [] = []
offsets o (q ∷ qs) = o ∷ offsets (o + (4 + length q.content)) qs

-- The places of those that have this type.
abbrev pub places : ℕ → ℕ → List Param → List ℕ
places type o [] = []
places type o (q ∷ qs) =
    let rest = places type (o + (4 + length q.content)) qs in
    if q.type == type then o ∷ rest else rest

next_lem : (p : Bytes) (o : ℕ) → o + (4 + length (param_at p o).content) ≡ Sim.next p o
next_lem p o = rw (length-slice p (o + 4) (Sim.get_length (at p o))) refl

-- The place behind a parameter, from what it holds.
pub next_of :
    (p : Bytes) (o : ℕ) (q : Param) → q ≡ param_at p o → o + (4 + length q.content) ≡ Sim.next p o
next_of p o q e = ap (λ (r : Param). o + (4 + length r.content)) e ∙ next_lem p o

first :
    (p : Bytes) (j : ℕ) (os : List ℕ)
    → ((k : ℕ) → Sim.get_param p (j + k) ≡ get_elem? os k)
    → Sim.get_param p j ≡ get_elem? os 0
first p j os h = ap (Sim.get_param p) (omega arith) ∙ h 0

pub get_param_lem :
    (p : Bytes) (n : ℕ) → Sim.get_param p n ≡ Sim.get_param_loop n p (Sim.get_length p) 4
unfolding Sim.get_param
get_param_lem p n = ground arith

module _ (p : Bytes) (size : ℕ) where
  -- A parameter that ends inside the message is passed by.
  pub loop_next :
      (n o : ℕ)
      → Sim.next p o ≤ 4 + size
      → Sim.get_param_loop (suc n) p size o ≡ Sim.get_param_loop n p size (Sim.next p o)
  unfolding Sim.get_param_loop
  loop_next n o h = ground arith

  pub loop_here : (o : ℕ) → 4 ≤ o → Sim.next p o ≤ 4 + size → Sim.get_param_loop 0 p size o ≡ some o
  unfolding Sim.get_param_loop
  loop_here o h k = ground arith

  loop_end : (n : ℕ) → Sim.get_param_loop n p size (4 + size) ≡ none
  unfolding Sim.get_param_loop
  loop_end zero = ground arith
  loop_end (suc n) = ground arith

  -- The parameters are found by their number.
  loop-offsets :
      (n o : ℕ) (qs : List Param)
      → 4 ≤ o
      → IsLaid p o qs (4 + size)
      → Sim.get_param_loop n p size o ≡ get_elem? (offsets o qs) n
  loop-offsets n o [] g h = rw h (loop_end n)
  loop-offsets zero o (q ∷ qs) g h = loop_here o g (IsLaid-le p (Sim.next p o) qs (4 + size) h.1)
  loop-offsets (suc n) o (q ∷ qs) g h =
      loop_next n o (IsLaid-le p (Sim.next p o) qs (4 + size) h.1)
      ∙ loop-offsets n (Sim.next p o) qs (omega arith) h.1
      ∙ ap (λ (k : ℕ). get_elem? (offsets k qs) n)
          (sym (next_lem p o) ∙ ap (λ (r : Param). o + (4 + length r.content)) (sym h.0))

-- In a message of parameters, `tlv_get_param` finds the parameter of each number, and NULL behind the
-- last.
pub get_param-offsets :
    (p : Bytes) (qs : List Param) (n : ℕ)
    → IsMessage p qs
    → Sim.get_param p n ≡ get_elem? (offsets 4 qs) n
get_param-offsets p qs n h =
    get_param_lem p n ∙ loop-offsets p (Sim.get_length p) n 4 qs (omega arith) h

pick_round :
    (b : Bool) (n o : ℕ) (rest : List ℕ) (found : ℕ → Option (Option ℕ))
    → ((m : ℕ) → found m ≡ some (get_elem? rest m))
    → Sim.find_pick (some o) b n (found (if b then n - 1 else n))
      ≡ some (get_elem? (if b then o ∷ rest else rest) n)
pick_round false n o rest found h = h n
pick_round true zero o rest found h = refl
pick_round true (suc n) o rest found h =
    let more : (suc n == 0) ≡ false = ground arith in rw more (ap found (omega arith) ∙ h n)

-- One round of the search, at a parameter.
find_round :
    (fuel : ℕ) (p : Bytes) (type n j o : ℕ) (rest : List ℕ)
    → Sim.get_param p j ≡ some o
    → ((m : ℕ) → Sim.find_loop fuel p type m (u8 (j + 1)) ≡ some (get_elem? rest m))
    → Sim.find_loop (suc fuel) p type n j
      ≡ some (get_elem? (if (param_at p o).type == type then o ∷ rest else rest) n)
unfolding Sim.find_loop Sim.type_at
find_round fuel p type n j o rest here ih = rw here (
    pick_round (Sim.get_type (at p o) == type) n o rest
      (λ m. Sim.find_loop fuel p type m (u8 (j + 1))) ih)

-- The search from the parameter `j`, with these parameters from there on.
find_loop-places :
    (fuel : ℕ) (p : Bytes) (type n j o e : ℕ) (qs : List Param)
    → ((k : ℕ) → Sim.get_param p (j + k) ≡ get_elem? (offsets o qs) k)
    → IsLaid p o qs e
    → j + length qs < 256
    → length qs < fuel
    → Sim.find_loop fuel p type n j ≡ some (get_elem? (places type o qs) n)
find_loop-places zero p type n j o e qs at_j laid few enough = absurd (omega arith)
find_loop-places (suc fuel) p type n j o e [] at_j laid few enough =
    unfold Sim.find_loop in rw (first p j [] at_j) refl
find_loop-places (suc fuel) p type n j o e (q ∷ qs) at_j laid few enough =
    let o' = o + (4 + length q.content) in
    let rest = places type o' qs in
    find_round fuel p type n j o rest (first p j (offsets o (q ∷ qs)) at_j) (λ m.
      find_loop-places fuel p type m (u8 (j + 1)) o' e qs
        (λ k. ap (Sim.get_param p) (omega arith) ∙ at_j (suc k))
        (subst (λ k. IsLaid p k qs e) (sym (next_of p o q laid.0)) laid.1) (omega arith)
        (omega arith))
    ∙ ap (λ (r : Param). some (get_elem? (if r.type == type then o ∷ rest else rest) n))
        (sym laid.0)

-- In a message of fewer than 256 parameters, `tlv_find_param` returns, with the place of the
-- parameter of this number among those of the type, and NULL where there are not so many.
pub find_param-places :
    (p : Bytes) (type n : ℕ) (qs : List Param)
    → IsMessage p qs
    → length qs < 256
    → Sim.find_param p type n ≡ some (get_elem? (places type 4 qs) n)
unfolding Sim.find_param
find_param-places p type n qs laid few =
    find_loop-places (2 ^ 24) p type n 0 4 _ qs
      (λ k. ap (Sim.get_param p) (omega arith) ∙ get_param-offsets p qs k laid) laid (omega arith)
      (omega arith)

-- In a message of 256 parameters or more, the search for a type that none of the first 256
-- has never ends, since its counter is a byte.
pub find_never_ends :
    (fuel : ℕ) (p : Bytes) (type n j : ℕ)
    → j < 256
    → ((i : ℕ) → i < 256 → (o : ℕ) × (Sim.get_param p i ≡ some o) × (Sim.get_type (at p o) ≢ type))
    → Sim.find_loop fuel p type n j ≡ none
unfolding Sim.find_loop Sim.type_at
find_never_ends zero p type n j small others = refl
find_never_ends (suc fuel) p type n j small others =
    let (o, here, other) = others j small in
    let miss : (Sim.get_type (at p o) == type) ≡ false = ground arith in
    rw (here, miss) (find_never_ends fuel p type n (u8 (j + 1)) (omega arith) others)

-- The parameters of this type.
abbrev pub count_type : ℕ → List Param → ℕ
count_type type [] = 0
count_type type (q ∷ qs) =
    let rest = count_type type qs in if q.type == type then suc rest else rest

count_loop-count_type :
    (fuel : ℕ) (p : Bytes) (type count j o e : ℕ) (qs : List Param)
    → ((k : ℕ) → Sim.get_param p (j + k) ≡ get_elem? (offsets o qs) k)
    → IsLaid p o qs e
    → j + length qs < 65536
    → count ≤ j
    → length qs < fuel
    → Sim.count_loop fuel p type j count ≡ some (count + count_type type qs)
unfolding Sim.count_loop Sim.type_at
count_loop-count_type zero p type count j o e qs at_j laid few le enough = absurd (omega arith)
count_loop-count_type (suc fuel) p type count j o e [] at_j laid few le enough =
    rw (first p j [] at_j) (ap some (omega arith))
count_loop-count_type (suc fuel) p type count j o e (q ∷ qs) at_j laid few le enough =
    let o' = o + (4 + length q.content) in
    let same : Sim.get_type (at p o) ≡ q.type = ap (λ (r : Param). r.type) (sym laid.0) in
    let here = first p j (offsets o (q ∷ qs)) at_j in
    let count' = if q.type == type then u16 (count + 1) else count in
    let ih =
      count_loop-count_type fuel p type count' (u16 (j + 1)) o' e qs
        (λ k. ap (Sim.get_param p) (omega arith) ∙ at_j (suc k))
        (subst (λ k. IsLaid p k qs e) (sym (next_of p o q laid.0)) laid.1) (omega arith)
        (ground arith) (omega arith) in
    rw (here, same) (ih ∙ ap some (ground arith))

-- The parameters of a message are no more than its bytes.
pub length-le :
    (p : Bytes) (o : ℕ) (qs : List Param) (e : ℕ) → IsLaid p o qs e → o + 4 * length qs ≤ e
length-le p o [] e h = omega arith
length-le p o (q ∷ qs) e h = omega (arith, length-le p (Sim.next p o) qs e h.1)

-- In a message of parameters, `tlv_count_param` returns the number of those of the type.
pub count_param-count_type :
    (p : Bytes) (type : ℕ) (qs : List Param)
    → IsMessage p qs
    → Sim.get_length p < 65536
    → Sim.count_param p type ≡ some (count_type type qs)
unfolding Sim.count_param
count_param-count_type p type qs laid small =
    let few = length-le p 4 qs _ laid in
    count_loop-count_type (Sim.get_length p + 1) p type 0 0 4 _ qs
      (λ k. ap (Sim.get_param p) (omega arith) ∙ get_param-offsets p qs k laid) laid (omega arith)
      (omega arith) (omega arith)
    ∙ ap some (omega arith)

-- ===== src/Sim/Append/RoundTrip.antt =====
-- What is written as a number is a parameter that reads back as the number.
use native.Mathlib.Decide.{dec_lt}
use bitstream.Base.{
  inl, inr, ℕ, zero, suc, ◌+◌, ◌*◌, ◌^◌, ◌<◌, ◌≡◌, refl, sym, ap, ap₂, subst, ◌∙◌, ◌≢◌, Bool, true,
  false, some, List, [], ◌∷◌, arith, ◌==◌, if◌then◌else◌, Bytes, at, length, get_or, get_elem?,
}
use mathlib.Core.List.{map}
use bitstream.Sim
use bitstream.Sim.Append
use bitstream.Sim.Append.Fill.{Fills, append_at-IsOpen, append_at_refused}
use bitstream.Sim.Append.Numbers.{
  IsSize, value_byte, value_bytes, slice_at, put_value_kept, put_value_filled, get_value-value_byte,
}
use bitstream.Sim.Append.Open.{IsOpen, find_param_open}
use bitstream.Sim.Append.Values.{Appends, fits, full}
use bitstream.Sim.Find.{places, next_of, find_param-places}
use bitstream.Sim.Layout.{Param, IsLaid, IsMessage, param_at, length-slice}

put_value-Fills :
    (size value type : ℕ)
    → Fills (Append.put_value size size value 0) (value_byte size value) size type
put_value-Fills size value type = record {
  kept = λ q i h. put_value_kept size value size 0 q i (omega arith);
  filled = λ q i h. put_value_filled size value size 0 q i (omega arith) (omega arith);
}

IsSize-lt : (size : ℕ) → IsSize size → size < 65536
IsSize-lt size (inl e) = omega arith
IsSize-lt size (inr (inl e)) = omega arith
IsSize-lt size (inr (inr e)) = omega arith

-- In a message under construction with fewer than 256 parameters, the append function of a number
-- adds a parameter of the type, other than 0, with the bytes of the number, the most significant
-- first, or, without room for it, returns false and changes nothing.
pub append_value-IsOpen :
    (p : Bytes) (qs : List Param) (e type size value : ℕ)
    → IsOpen p qs e
    → length qs < 256
    → type ≢ 0
    → type < 65536
    → IsSize size
    → Appends p qs e
        (record { type = type; content = value_bytes size value })
        size
        (Append.append_value type size p value)
unfolding Append.append_value
append_value-IsOpen p qs e type size value h few named named' sized =
    let fill = Append.put_value size size value 0 in
    let byte = value_byte size value in
    let find = find_param_open p qs e h few in
    elim (dec_lt (Sim.get_length p) (e + (size + 2))) [
      | yes no_room ↦
          full no_room (rw find (append_at_refused fill byte size type p e (size + 2) no_room))
      | no room ↦
          let (p', same, opened, length) =
            append_at-IsOpen fill byte size type (put_value-Fills size value type) p qs e (size + 2)
              (IsSize-lt size sized) named' named h (omega arith) (omega arith) in
          fits p' (omega arith) (rw find same) opened length
    ]

-- The parameters of this type.
abbrev pub of_type : ℕ → List Param → List Param
of_type type [] = []
of_type type (q ∷ qs) = let rest = of_type type qs in if q.type == type then q ∷ rest else rest

pick :
    (f : ℕ → Param) (b : Bool) (o : ℕ) (os : List ℕ) (q : Param) (qs : List Param)
    → f o ≡ q
    → map f os ≡ qs
    → map f (if b then o ∷ os else os) ≡ (if b then q ∷ qs else qs)
pick f true o os q qs h g = ap₂ (λ (x : Param) (xs : List Param). x ∷ xs) h g
pick f false o os q qs h g = g

-- The places of the parameters of a type hold them, in order.
places-of_type :
    (p : Bytes) (o e type : ℕ) (qs : List Param)
    → IsLaid p o qs e
    → map (param_at p) (places type o qs) ≡ of_type type qs
places-of_type p o e type [] h = refl
places-of_type p o e type (q ∷ qs) h =
    let o' = o + (4 + length q.content) in
    pick (param_at p) (q.type == type) o (places type o' qs) q (of_type type qs) (sym h.0)
      (places-of_type p o' e type qs (subst (λ k. IsLaid p k qs e) (sym (next_of p o q h.0)) h.1))

get_elem-map :
    (f : ℕ → Param) (os : List ℕ) (n : ℕ) {r : Param}
    → get_elem? (map f os) n ≡ some r
    → (o : ℕ) × (get_elem? os n ≡ some o) × (f o ≡ r)
get_elem-map f [] n h = absurd cc
get_elem-map f (o ∷ os) zero h = (o, refl, cc)
get_elem-map f (o ∷ os) (suc n) h = get_elem-map f os n h

get_value-content :
    (p : Bytes) (o size value : ℕ)
    → IsSize size
    → value < 2 ^ (8 * size)
    → (param_at p o).content ≡ value_bytes size value
    → Append.get_value size size 0 0 (at p o) ≡ value
get_value-content p o size value sized small same =
    get_value-value_byte size value (at p o) sized small λ i h.
      ap p (omega arith)
      ∙ sym (slice_at p (o + 4) (Sim.get_length (at p o)) i (omega (arith, n_lem)))
      ∙ ap (λ (xs : List ℕ). get_or xs i 0) same
      ∙ slice_at (value_byte size value) 0 size i h
      ∙ ap (value_byte size value) (omega arith)
  where
    n_lem : Sim.get_length (at p o) ≡ size
    n_lem =
        sym (length-slice p (o + 4) _)
        ∙ ap length same
        ∙ length-slice (value_byte size value) 0 size

-- In a message of fewer than 256 parameters, the find function of a number returns the number whose
-- bytes the parameter `n` of the type holds.
pub find_value-value_bytes :
    (p : Bytes) (qs : List Param) (type n size value : ℕ) (r : Param)
    → IsMessage p qs
    → length qs < 256
    → get_elem? (of_type type qs) n ≡ some r
    → r.content ≡ value_bytes size value
    → IsSize size
    → value < 2 ^ (8 * size)
    → Append.find_value type size p n ≡ some value
unfolding Append.find_value Append.value_at
find_value-value_bytes p qs type n size value r h few found same sized small =
    let (o, place, e) = get_elem-map (param_at p) (places type 4 qs) n (
      ap (λ (rs : List Param). get_elem? rs n) (places-of_type p 4 (4 + Sim.get_length p) type qs h)
      ∙ found) in
    rw (find_param-places p type n qs h few, place)
      (ap some
        (get_value-content p o size value sized small (ap (λ (x : Param). x.content) e ∙ same)))

-- ===== src/Sim/Append/Finish.antt =====
-- A message from its start to its end: what is appended is found in the finished message.
use bitstream.Base.{
  ℕ, suc, ◌+◌, ◌-◌, ◌*◌, ◌^◌, ◌≤◌, ◌<◌, ◌≡◌, refl, subst, ◌≢◌, inl, inr, true, some, List, [], ◌∷◌,
  ◌++◌, arith, ◌==◌, Bool-cases, Bytes, length, length-append, get_elem?,
}
use bitstream.Sim
use bitstream.Sim.Append
use bitstream.Sim.Append.Grow.{IsLaid-congr, set_length_lem}
use bitstream.Sim.Append.Numbers.{IsSize, value_bytes}
use bitstream.Sim.Append.Open.{IsOpen}
use bitstream.Sim.Append.RoundTrip.{of_type, append_value-IsOpen, find_value-value_bytes}
use bitstream.Sim.Append.Values.{Appends-fits}
use bitstream.Sim.Find.{count_type}
use bitstream.Sim.Layout.{Param, IsLaid, IsLaid-le, IsMessage, validate-IsMessage}

-- Setting the length to where the parameters end finishes a message.
pub finish-IsMessage :
    (p : Bytes) (qs : List Param) (e : ℕ)
    → IsOpen p qs e
    → Sim.get_length p < 65536
    → IsMessage (Sim.set_length p (e - 4)) qs
finish-IsMessage p qs e h small =
    let le = IsLaid-le p 4 qs e h.laid in
    let p' = Sim.set_length p (e - 4) in
    subst (λ k. IsLaid p' 4 qs k) (omega (arith, set_length_lem p (e - 4) (omega (arith, h.room))))
      (IsLaid-congr p p' 4 e qs kept h.laid)
  where
    kept : (i : ℕ) → 4 ≤ i → i < e → Sim.set_length p (e - 4) i ≡ p i
    kept i g k = unfold Sim.set_length in ground arith

-- `ecmg_init` and `emmg_init`, and the type and the room that are set behind it, start a message
-- without parameters.
pub empty-IsOpen :
    (p : Bytes) (type room : ℕ)
    → 2 ≤ room
    → room < 65536
    → IsOpen (Sim.set_length (Sim.set_type (Sim.empty p) type) room) [] 4
empty-IsOpen p type room h g =
    let p' = Sim.set_length (Sim.set_type (Sim.empty p) type) room in
    record {
      laid = refl;
      room = omega (arith, set_length_lem (Sim.set_type (Sim.empty p) type) room g);
      marked = unfold Sim.set_length Sim.set_type Sim.empty Sim.get_type in ground arith;
      named = tt;
    }

-- The parameter that is added last is the last of its type.
of_type_last :
    (type : ℕ) (qs : List Param) (r : Param)
    → r.type ≡ type
    → get_elem? (of_type type (qs ++ r ∷ [])) (count_type type qs) ≡ some r
of_type_last type [] r h = ground arith
of_type_last type (q ∷ qs) r h = elim (Bool-cases (q.type == type)) [
  | inl hit ↦ rw hit (of_type_last type qs r h)
  | inr miss ↦ rw miss (of_type_last type qs r h)
]

length_snoc : (qs : List Param) (r : Param) → length (qs ++ r ∷ []) ≡ suc (length qs)
length_snoc qs r = omega (arith, length-append qs (r ∷ []))

-- A number of one, two or four bytes is appended to a message under construction with fewer than
-- 255 parameters and with room for it, under a type other than 0; the message is then finished
-- at the end of its parameters. `tlv_validate` accepts it, and the find function returns the number,
-- as the last of its type.
pub find_value-append_value :
    (p : Bytes) (qs : List Param) (e type size value : ℕ)
    → IsOpen p qs e
    → Sim.get_length p < 65536
    → length qs < 255
    → type ≢ 0
    → type < 65536
    → IsSize size
    → value < 2 ^ (8 * size)
    → e + (size + 2) ≤ Sim.get_length p
    → (p' : Bytes) × (Append.append_value type size p value ≡ some (true, p'))
      × (Sim.validate (Sim.set_length p' (e + size)) ≡ true)
      × (Append.find_value type size (Sim.set_length p' (e + size)) (count_type type qs)
          ≡ some value)
find_value-append_value p qs e type size value h small few named named' sized value_small fits =
    let r : Param = record { type = type; content = value_bytes size value } in
    let (p', appended, opened, same) =
      Appends-fits p qs e r size (Append.append_value type size p value)
        (append_value-IsOpen p qs e type size value h (omega arith) named named' sized) fits in
    let end : e + (4 + size) - 4 ≡ e + size = omega arith in
    let message =
      subst (λ k. IsMessage (Sim.set_length p' k) (qs ++ r ∷ [])) end
        (finish-IsMessage p' (qs ++ r ∷ []) (e + (4 + size)) opened (omega arith)) in
    (
      p',
      appended,
      (validate-IsMessage _).1 (qs ++ r ∷ [], message),
      find_value-value_bytes (Sim.set_length p' (e + size)) (qs ++ r ∷ []) type (count_type type qs)
          size value r message (omega (arith, length_snoc qs r)) (of_type_last type qs r refl) refl
          sized value_small,
    )

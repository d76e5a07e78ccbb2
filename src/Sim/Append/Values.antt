-- ===== src/Sim/Append/Values.antt =====
-- What the two append functions, for data and for numbers, add to a message under construction.
use native.Mathlib.Decide.{dec_lt}
use bitstream.Base.{
  ℕ, ◌+◌, ◌-◌, ◌≤◌, ◌<◌, ◌≡◌, refl, ap, ◌≢◌, Bool, true, false, Option, some, List, [], ◌∷◌, ◌++◌,
  arith, leb, u16, Bytes, memcpy, length,
}
use bitstream.Sim
use bitstream.Sim.Append
use bitstream.Sim.Append.Fill.{Fills, append_at-IsOpen, append_at_refused}
use bitstream.Sim.Append.Open.{IsOpen, find_param_open}
use bitstream.Sim.Layout.{Param, slice, IsLaid-le}

-- What an append function does with a message whose parameters are `qs` and end at `e`: the new
-- parameter `r`, of `n` bytes, is put behind them where there is room for it and for the empty
-- one, and otherwise the message stays.
pub data Appends (p : Bytes) (qs : List Param) (e : ℕ) (r : Param) (n : ℕ)
    (result : Option (Bool × Bytes)) : Type 0 where
  fits :
      (p' : Bytes)
      → e + (n + 2) ≤ Sim.get_length p
      → result ≡ some (true, p')
      → IsOpen p' (qs ++ r ∷ []) (e + (4 + n))
      → Sim.get_length p' ≡ Sim.get_length p
      → Appends p qs e r n result
  full : Sim.get_length p < e + (n + 2) → result ≡ some (false, p) → Appends p qs e r n result

-- Where there is room, the parameter is put there.
pub Appends-fits :
    (p : Bytes) (qs : List Param) (e : ℕ) (r : Param) (n : ℕ) (result : Option (Bool × Bytes))
    → Appends p qs e r n result
    → e + (n + 2) ≤ Sim.get_length p
    → (p' : Bytes) × (result ≡ some (true, p'))
      × IsOpen p' (qs ++ r ∷ []) (e + (4 + n))
      × (Sim.get_length p' ≡ Sim.get_length p)
Appends-fits p qs e r n result (fits p' room same opened size) h = (p', same, opened, size)
Appends-fits p qs e r n result (full no_room same) h = absurd (omega arith)

memcpy-Fills : (content : Bytes) (n type : ℕ) → Fills (λ q. memcpy q 4 content 0 n) content n type
memcpy-Fills content n type = record {
  kept = λ q i h. ground arith;
  filled = λ q i h. ground (arith, ap content (back i));
}
  where
    back : (i : ℕ) → 0 + (4 + i - 4) ≡ i
    back i = omega arith

-- In a message under construction with fewer than 256 parameters, `tlv_append_data` adds a parameter
-- of a type other than 0 and of at most 65533 bytes, or, without room for it, returns false
-- and changes nothing.
pub append_data-IsOpen :
    (p : Bytes) (qs : List Param) (e type : ℕ) (content : Bytes) (n : ℕ)
    → IsOpen p qs e
    → length qs < 256
    → type ≢ 0
    → type < 65536
    → n < 65534
    → Appends p qs e
        (record { type = type; content = slice content 0 n })
        n
        (Append.append_data p type content n)
unfolding Append.append_data
append_data-IsOpen p qs e type content n h few named named' small =
    let fill : Bytes → Bytes = λ q. memcpy q 4 content 0 n in
    let find = find_param_open p qs e h few in
    elim (dec_lt (Sim.get_length p) (e + (n + 2))) [
      | yes no_room ↦
          full no_room
            (rw find (append_at_refused fill content n type p e (u16 (n + 2)) (omega arith)))
      | no room ↦
          let (p', same, opened, size) =
            append_at-IsOpen fill content n type (memcpy-Fills content n type) p qs e (u16 (n + 2))
              (omega arith) named' named h (omega arith) (omega arith) in
          fits p' (omega arith) (rw find same) opened size
    ]

-- `tlv_append_data` of 65534 or 65535 bytes returns true on a message under construction with fewer
-- than 256 parameters and more than four bytes left, though the content ends behind the message:
-- the room that is asked for is computed in 16 bits.
pub append_data_overruns :
    (p : Bytes) (qs : List Param) (e type : ℕ) (content : Bytes) (n : ℕ)
    → IsOpen p qs e
    → length qs < 256
    → Sim.get_length p < 65536
    → e < Sim.get_length p
    → 65534 ≤ n
    → n < 65536
    → (p' : Bytes) × (Append.append_data p type content n ≡ some (true, p'))
      × (4 + Sim.get_length p < e + (4 + n))
unfolding Append.append_data Append.append_at Sim.validate_param
append_data_overruns p qs e type content n h few small free long word =
    let le = IsLaid-le p 4 qs e h.laid in
    let fits : leb (e + u16 (n + 2)) (Sim.get_length p) ≡ true = ground arith in
    rw (find_param_open p qs e h few, fits) (_, refl, omega arith)

-- ===== src/Sim/Tests.antt =====
-- Messages of DVB Simulcrypt.
use bitstream.Base.{
  ℕ, ◌+◌, ◌*◌, ◌%◌, ◌<◌, ◌≡◌, refl, ◌≢◌, ◌↔◌, inl, inr, Bool, true, false, ◌&&◌, Option, none, some,
  List, [], ◌∷◌, arith, ◌==◌, if◌then◌else◌, all_below, all_below_at, Bytes, at, get_or, get_elem?,
}
use bitstream.Sim
use bitstream.Sim.Accepts.{all_within, all_valid, validate_rules}
use bitstream.Sim.Append
use bitstream.Sim.Append.Finish.{empty-IsOpen, find_value-append_value}
use bitstream.Sim.Append.Open.{IsOpen}
use bitstream.Sim.Append.Values.{Appends, append_data-IsOpen, append_data_overruns}
use bitstream.Sim.Ecmg
use bitstream.Sim.Ecmg.Rules as EcmgRules
use bitstream.Sim.Emmg.Rules as EmmgRules
use bitstream.Sim.Tables.{ecmg_counts, ecmg_valid, emmg_counts, emmg_valid}
use bitstream.Sim.Find.{places, find_param-places, find_never_ends}
use bitstream.Sim.Layout.{Param, IsMessage, validate-IsMessage}

abbrev blank : Bytes
blank i = 0

-- A channel status with room for 100 bytes.
abbrev start : Bytes
start = Sim.set_length (Sim.set_type (Sim.empty blank) Ecmg.type_channel_status) 100

start-IsOpen : IsOpen start [] 4
start-IsOpen = empty-IsOpen blank Ecmg.type_channel_status 100 (omega arith) (omega arith)

start_length : Sim.get_length start ≡ 100
unfolding Sim.get_length Sim.set_length
start_length = refl

append_data-IsOpen_example :
    Appends start [] 4
      (record { type = Ecmg.param_ecm; content = 9 ∷ 9 ∷ [] })
      2
      (Append.append_data start Ecmg.param_ecm (λ i. 9) 2)
unfolding Sim.Layout.slice
append_data-IsOpen_example =
    append_data-IsOpen start [] 4 Ecmg.param_ecm (λ i. 9) 2 start-IsOpen (omega arith) (omega arith)
      (omega arith) (omega arith)

find_value-append_value_example :
    (p' : Bytes) × (Append.append_value Ecmg.param_channelid 2 start 4660 ≡ some (true, p'))
    × (Sim.validate (Sim.set_length p' 6) ≡ true)
    × (Append.find_value Ecmg.param_channelid 2 (Sim.set_length p' 6) 0 ≡ some 4660)
find_value-append_value_example =
    find_value-append_value start [] 4 Ecmg.param_channelid 2 4660 start-IsOpen
      (omega (arith, start_length)) (omega arith) (omega arith) (omega arith) (inr (inl refl))
      (omega arith) (omega (arith, start_length))

append_data_overruns_example :
    (p' : Bytes) × (Append.append_data start Ecmg.param_ecm blank 65534 ≡ some (true, p'))
    × (4 + Sim.get_length start < 4 + (4 + 65534))
append_data_overruns_example =
    append_data_overruns start [] 4 Ecmg.param_ecm blank 65534 start-IsOpen (omega arith)
      (omega (arith, start_length)) (omega (arith, start_length)) (omega arith) (omega arith)

-- A channel test: one channel identifier.
abbrev channel_test : List ℕ
channel_test = 0 ∷ 2 ∷ 0 ∷ 6 ∷ 0 ∷ 0xe ∷ 0 ∷ 2 ∷ 0x12 ∷ 0x34 ∷ []

abbrev message : Bytes
message i = get_or channel_test i 0

abbrev channelid : Param
channelid = record { type = Ecmg.param_channelid; content = 0x12 ∷ 0x34 ∷ [] }

message-IsMessage : IsMessage message (channelid ∷ [])
unfolding Sim.get_length Sim.get_type Sim.Layout.slice
message-IsMessage = (refl, refl)

validate-IsMessage_example :
    (Sim.validate message ≡ true) ↔ ((qs : List Param) × IsMessage message qs)
validate-IsMessage_example = validate-IsMessage message

find_param-places_example :
    Sim.find_param message Ecmg.param_channelid 0
    ≡ some (get_elem? (places 0xe 4 (channelid ∷ [])) 0)
find_param-places_example =
    find_param-places message Ecmg.param_channelid 0 (channelid ∷ []) message-IsMessage
      (omega arith)

found : Sim.find_param message Ecmg.param_channelid 0 ≡ some (some 4)
unfolding Sim.find_param Sim.find_loop Sim.type_at Sim.get_param Sim.get_param_loop Sim.get_length
    Sim.get_type
found = refl

message_length : Sim.get_length message ≡ 6
unfolding Sim.get_length
message_length = refl

validate_rules_example :
    (EcmgRules.validate message
      ≡ some (
          all_within (ecmg_counts (Sim.get_type message)) (channelid ∷ [])
          && all_valid ecmg_valid (channelid ∷ [])))
    × (EmmgRules.validate message
        ≡ some (
            all_within (emmg_counts (Sim.get_type message)) (channelid ∷ [])
            && all_valid emmg_valid (channelid ∷ [])))
validate_rules_example =
    validate_rules message (channelid ∷ []) message-IsMessage (omega (arith, message_length))

accepted : EcmgRules.validate message ≡ some true
unfolding EcmgRules.validate Sim.find_param Sim.find_loop Sim.type_at Sim.get_param
    Sim.get_param_loop Sim.get_length Sim.get_type
accepted = refl

-- 256 empty parameters of type 1.
abbrev crowd : Bytes
crowd i = if i == 2 then 4 else if i % 4 == 1 then 1 else 0

abbrev in_crowd : ℕ → Option ℕ → Bool
in_crowd i none = false
in_crowd i (some o) = o == 4 + 4 * i && Sim.get_type (at crowd o) == 1

crowded : all_below 256 (λ i. in_crowd i (Sim.get_param crowd i)) ≡ true
unfolding Sim.get_param Sim.get_param_loop Sim.get_length Sim.get_type all_below
crowded = refl

others :
    (i : ℕ) (o : Option ℕ)
    → in_crowd i o ≡ true
    → (k : ℕ) × (o ≡ some k) × (Sim.get_type (at crowd k) ≢ 2)
others i none h = absurd cc
others i (some o) h = (o, refl, ground arith)

find_never_ends_example : Sim.find_loop 1000 crowd 2 0 0 ≡ none
find_never_ends_example = find_never_ends 1000 crowd 2 0 0 (omega arith) (λ i h.
    others i (Sim.get_param crowd i)
      (all_below_at 256 (λ k. in_crowd k (Sim.get_param crowd k)) i crowded h))

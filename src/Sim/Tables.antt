-- ===== src/Sim/Tables.antt =====
-- The tables of the Simulcrypt messages, by the numbers of messages and parameters: which parameters a
-- message has and how often, and how long they are.
use native.Mathlib.Decide.{dec_lt}
use bitstream.Base.{
  sym, ◌∙◌, ap, ℕ, ◌≤◌, ◌≡◌, refl, Bool, true, false, ◌&&◌, List, [], ◌∷◌, ltb, leb, ◌==◌, not,
  if◌then◌else◌, get_or, Bool-cases, ==_iff, inl, inr, all_below, all_below_at, arith,
}
use bitstream.Sim.{ParamCount}
use bitstream.Sim.Ecmg.Rules as Ecmg
use bitstream.Sim.Emmg.Rules as Emmg

abbrev once : ℕ → ParamCount
once type = record { type = type; min = 1; max = 1 }

abbrev at_most_once : ℕ → ParamCount
at_most_once type = record { type = type; min = 0; max = 1 }

abbrev at_least_once : ℕ → ParamCount
at_least_once type = record { type = type; min = 1; max = 65535 }

-- The row of a message; a message without one has no rules.
abbrev row : List (ℕ × List ParamCount) → ℕ → List ParamCount
row [] type = []
row ((message, counts) ∷ rows) type = if type == message then counts else row rows type

abbrev ecmg_rows : List (ℕ × List ParamCount)
ecmg_rows =
    (1, once 14 ∷ once 1 ∷ [])
    ∷ (2, once 14 ∷ [])
    ∷ (
      3,
      once 14
          ∷ once 2
          ∷ at_most_once 22
          ∷ at_most_once 23
          ∷ once 3
          ∷ once 4
          ∷ at_most_once 5
          ∷ at_most_once 6
          ∷ once 7
          ∷ once 8
          ∷ once 9
          ∷ once 10
          ∷ once 11
          ∷ once 12
          ∷ [],
    )
    ∷ (4, once 14 ∷ [])
    ∷ (5, once 14 ∷ at_least_once 0x7000 ∷ [])
    ∷ (0x101, once 14 ∷ once 15 ∷ at_most_once 25 ∷ once 16 ∷ [])
    ∷ (0x102, once 14 ∷ once 15 ∷ [])
    ∷ (0x103, once 14 ∷ once 15 ∷ at_most_once 25 ∷ once 17 ∷ [])
    ∷ (0x104, once 14 ∷ once 15 ∷ [])
    ∷ (0x105, once 14 ∷ once 15 ∷ [])
    ∷ (0x106, once 14 ∷ once 15 ∷ at_least_once 0x7000 ∷ [])
    ∷ (
      0x201,
      once 14
          ∷ once 15
          ∷ once 18
          ∷ at_most_once 24
          ∷ at_least_once 20
          ∷ at_most_once 19
          ∷ at_most_once 13
          ∷ [],
    )
    ∷ (0x202, once 14 ∷ once 15 ∷ once 18 ∷ once 21 ∷ [])
    ∷ []

-- The rules of a message by its type.
unfoldable pub ecmg_counts : ℕ → List ParamCount
ecmg_counts type = row ecmg_rows type

abbrev emmg_rows : List (ℕ × List ParamCount)
emmg_rows =
    (17, once 1 ∷ once 3 ∷ once 2 ∷ [])
    ∷ (18, once 1 ∷ once 3 ∷ [])
    ∷ (19, once 1 ∷ once 3 ∷ once 2 ∷ [])
    ∷ (20, once 1 ∷ once 3 ∷ [])
    ∷ (21, once 1 ∷ once 3 ∷ at_least_once 0x7000 ∷ [])
    ∷ (0x111, once 1 ∷ once 3 ∷ once 4 ∷ once 8 ∷ once 7 ∷ [])
    ∷ (0x112, once 1 ∷ once 3 ∷ once 4 ∷ [])
    ∷ (0x113, once 1 ∷ once 3 ∷ once 4 ∷ once 8 ∷ once 7 ∷ [])
    ∷ (0x114, once 1 ∷ once 3 ∷ once 4 ∷ [])
    ∷ (0x115, once 1 ∷ once 3 ∷ once 4 ∷ [])
    ∷ (0x116, once 1 ∷ once 3 ∷ once 4 ∷ at_least_once 0x7000 ∷ [])
    ∷ (0x117, once 1 ∷ once 3 ∷ once 4 ∷ at_most_once 6 ∷ [])
    ∷ (0x118, once 1 ∷ once 3 ∷ once 4 ∷ at_most_once 6 ∷ [])
    ∷ (0x211, once 1 ∷ at_most_once 3 ∷ at_most_once 4 ∷ once 8 ∷ at_least_once 5 ∷ [])
    ∷ []

-- The rules of a message by its type.
unfoldable pub emmg_counts : ℕ → List ParamCount
emmg_counts type = row emmg_rows type

-- The least length of a parameter, 0 when the table does not name it.
abbrev least : List (ℕ × ℕ) → ℕ → ℕ
least [] type = 0
least ((t, n) ∷ ts) type = if type == t then n else least ts type

abbrev ecmg_lengths : List (ℕ × ℕ)
ecmg_lengths =
    (1, 4)
    ∷ (2, 1)
    ∷ (3, 2)
    ∷ (4, 2)
    ∷ (5, 2)
    ∷ (6, 2)
    ∷ (7, 2)
    ∷ (8, 2)
    ∷ (9, 2)
    ∷ (10, 1)
    ∷ (11, 1)
    ∷ (12, 2)
    ∷ (14, 2)
    ∷ (15, 2)
    ∷ (16, 2)
    ∷ (17, 1)
    ∷ (18, 2)
    ∷ (19, 2)
    ∷ (22, 2)
    ∷ (23, 2)
    ∷ (25, 2)
    ∷ (0x7000, 2)
    ∷ []

-- A parameter of an Ecmg message is long enough, by its type and its length.
unfoldable pub ecmg_valid : ℕ → ℕ → Bool
ecmg_valid type length = leb (least ecmg_lengths type) length

-- The parameters of Emmg messages that have one length only.
abbrev emmg_exact : List (ℕ × ℕ)
emmg_exact = (0, 0) ∷ (1, 4) ∷ (2, 1) ∷ (3, 2) ∷ (4, 2) ∷ (6, 2) ∷ (7, 1) ∷ (8, 2) ∷ []

abbrev exactly : List (ℕ × ℕ) → ℕ → ℕ → Bool
exactly [] type length = true
exactly ((t, n) ∷ ts) type length = if type == t then length == n else exactly ts type length

-- A parameter of an Emmg message has its one length, or is long enough.
unfoldable pub emmg_valid : ℕ → ℕ → Bool
emmg_valid type length =
    exactly emmg_exact type length && leb (least ((0x7000, 2) ∷ []) type) length

pub params-ecmg_counts : (type : ℕ) → Ecmg.params type ≡ ecmg_counts type
unfolding Ecmg.params ecmg_counts
params-ecmg_counts type = ground arith

pub params-emmg_counts : (type : ℕ) → Emmg.params type ≡ emmg_counts type
unfolding Emmg.params emmg_counts
params-emmg_counts type = ground arith

not_short : (n k : ℕ) → not (ltb n k) ≡ leb k n
not_short n k = ground arith

-- Behind the first 26 types, only the status of an error has a least length.
least_behind : (type : ℕ) → 26 ≤ type → (type == 0x7000) ≡ false → least ecmg_lengths type ≡ 0
least_behind type h e = ground (arith, h, e)

leasts : all_below 26 (λ t. get_or Ecmg.params_minlength t 0 == least ecmg_lengths t) ≡ true
unfolding all_below
leasts = refl

other_param :
    (type length : ℕ)
    → leb type 25 ≡ false
    → (type == 0x7000) ≡ false
    → Ecmg.validate_param type length ≡ true
unfolding Ecmg.validate_param
other_param type length h e = rw (h, e) refl

any_length : (length : ℕ) → true ≡ leb 0 length
any_length length = ground arith

pub validate_param-ecmg_valid :
    (type length : ℕ) → Ecmg.validate_param type length ≡ ecmg_valid type length
unfolding Ecmg.validate_param ecmg_valid
validate_param-ecmg_valid type length = elim (dec_lt type 26) [
  | yes h ↦
      let low : leb type 25 ≡ true = ground (arith, h) in
      let least_is : get_or Ecmg.params_minlength type 0 ≡ least ecmg_lengths type =
        (==_iff _ _).0 (
          all_below_at 26 (λ t. get_or Ecmg.params_minlength t 0 == least ecmg_lengths t) type
            leasts h) in
      rw (low, least_is) (not_short length _)
  | no h ↦
      let high : leb type 25 ≡ false = ground (arith, h) in
      elim (Bool-cases (type == 0x7000)) [
        | inl e ↦
            let status : type ≡ 0x7000 = (==_iff type 0x7000).0 e in
            ap (λ (t : ℕ). Ecmg.validate_param t length) status
            ∙ not_short length 2
            ∙ ap (λ (t : ℕ). ecmg_valid t length) (sym status)
        | inr e ↦
            other_param type length high e
            ∙ any_length length
            ∙ ap (λ (n : ℕ). leb n length) (sym (least_behind type (omega (arith, h)) e))
      ]
]

pub validate_param-emmg_valid :
    (type length : ℕ) → Emmg.validate_param type length ≡ emmg_valid type length
unfolding Emmg.validate_param emmg_valid
validate_param-emmg_valid type length = ground arith

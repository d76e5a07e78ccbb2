-- ===== src/Sim.antt =====
-- dvb/sim.h: the messages of DVB Simulcrypt, a header and a list of parameters, each with a type,
-- a length and its bytes. A pointer into a message is the offset from its start, and NULL is
-- `none`.
pub mod Layout
pub mod Find
pub mod Append
pub mod Check
pub mod Ecmg
pub mod Emmg
pub mod Tables
pub mod Accepts
mod Tests
use bitstream.Base.{
  u8, bit_and, ◌==◌, u16, leb, ◌<<◌, ◌>>◌, ◌-◌, ◌&&◌, false, ltb, ◌+◌, some, bit_or, ◌^◌, Bool, at,
  if◌then◌else◌, none, put, Option, Bytes, ℕ, zero, suc,
}

-- TLV_HEADER_SIZE, TLV_PARAM_EMPTY and TLV_PARAM_EMPTY_SIZE
abbrev pub header_size : ℕ
header_size = 4

abbrev pub param_empty : ℕ
param_empty = 0

abbrev pub param_empty_size : ℕ
param_empty_size = 2

pub record ParamCount : Type 0 where
  pub type : ℕ
  pub min : ℕ
  pub max : ℕ

unfoldable pub tlvh_set_version : Bytes → ℕ → Bytes
tlvh_set_version p version = put p 0 version

unfoldable pub tlvh_get_version : Bytes → ℕ
tlvh_get_version p = p 0

unfoldable pub tlvh_get_tlv : Bytes → Bytes
tlvh_get_tlv p = at p 1

unfoldable pub set_type : Bytes → ℕ → Bytes
set_type p type = put (put p 0 (type >> 8)) 1 (bit_and type 0xff)

unfoldable pub get_type : Bytes → ℕ
get_type p = bit_or (p 0 << 8) (p 1)

unfoldable pub set_length : Bytes → ℕ → Bytes
set_length p length = put (put p 2 (length >> 8)) 3 (bit_and length 0xff)

unfoldable pub get_length : Bytes → ℕ
get_length p = bit_or (p 2 << 8) (p 3)

unfoldable pub empty : Bytes → Bytes
empty p = put (put p header_size (param_empty >> 8)) (header_size + 1) (bit_and param_empty 0xff)

unfoldable pub append_empty : Bytes → Bytes
append_empty p =
    let length = get_length p in
    let p1 = put p (header_size + length) (param_empty >> 8) in
    put p1 (header_size + length + 1) (bit_and param_empty 0xff)

-- The place behind the parameter at `o`.
abbrev pub next : Bytes → ℕ → ℕ
next p o = o + (header_size + get_length (at p o))

-- `while (n)` of `tlv_get_param` from `o` on, and the test behind it.
unfoldable pub get_param_loop : ℕ → Bytes → ℕ → ℕ → Option ℕ
get_param_loop zero p size o = if leb size (o - header_size) then none else some o
get_param_loop (suc n) p size o =
    let rest = get_param_loop n p size (next p o) in if ltb size o then none else rest

unfoldable pub get_param : Bytes → ℕ → Option ℕ
unfolding get_param_loop
get_param p n =
    let size = get_length p in
    if ltb size (header_size - header_size) then none else get_param_loop n p size header_size

unfoldable pub validate_param : Bytes → ℕ → ℕ → Bool
validate_param p o length = leb (o + length) (get_length p)

-- Each round moves on by four bytes at least, so one round more than the size is enough.
unfoldable pub validate_loop : ℕ → Bytes → ℕ → ℕ → ℕ
validate_loop zero p size o = o
validate_loop (suc fuel) p size o =
    let rest = validate_loop fuel p size (next p o) in
    if leb o size && leb (o + get_length (at p o)) size then rest else o

unfoldable pub validate : Bytes → Bool
unfolding validate_loop
validate p =
    let size = get_length p in validate_loop (size + 1) p size header_size - header_size == size

-- `tlv_get_type(p_param) == i_type`
unfoldable pub type_at : Bytes → ℕ → Option ℕ → Bool
type_at p type none = false
type_at p type (some o) = get_type (at p o) == type

-- How a round of `tlv_find_param` goes on.
abbrev pub find_pick : Option ℕ → Bool → ℕ → Option (Option ℕ) → Option (Option ℕ)
find_pick none hit n rest = some none
find_pick (some o) hit n rest = if hit && n == 0 then some (some o) else rest

-- The counter `j` is a `uint8_t`; `none` where the fuel is used up.
unfoldable pub find_loop : ℕ → Bytes → ℕ → ℕ → ℕ → Option (Option ℕ)
unfolding type_at
find_loop zero p type n j = none
find_loop (suc fuel) p type n j =
    let param = get_param p j in
    let hit = type_at p type param in
    let rest = find_loop fuel p type (if hit then n - 1 else n) (u8 (j + 1)) in
    find_pick param hit n rest

-- 256 rounds bring `j` back, with at least one parameter of the type found on the way unless the
-- search never ends, and `n` is below 65536: with this fuel used up it does not end.
unfoldable pub find_param : Bytes → ℕ → ℕ → Option (Option ℕ)
unfolding find_loop
find_param p type n = find_loop (2 ^ 24) p type n 0

abbrev pub count_pick : Option ℕ → ℕ → Option ℕ → Option ℕ
count_pick none count rest = some count
count_pick (some o) count rest = rest

unfoldable pub count_loop : ℕ → Bytes → ℕ → ℕ → ℕ → Option ℕ
unfolding type_at
count_loop zero p type j count = none
count_loop (suc fuel) p type j count =
    let param = get_param p j in
    let count' = if type_at p type param then u16 (count + 1) else count in
    let rest = count_loop fuel p type (u16 (j + 1)) count' in count_pick param count rest

-- The parameters of a message start four bytes apart at least.
unfoldable pub count_param : Bytes → ℕ → Option ℕ
unfolding count_loop
count_param p type = count_loop (get_length p + 1) p type 0 0

abbrev pub count_within : ParamCount → Option ℕ → Option Bool
count_within c none = none
count_within c (some count) = some (leb c.min count && leb count c.max)

unfoldable pub validate_count_param : Bytes → ParamCount → Option Bool
unfolding count_param
validate_count_param p c = count_within c (count_param p c.type)

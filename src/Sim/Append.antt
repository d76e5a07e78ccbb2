-- ===== src/Sim/Append.antt =====
-- dvb/sim.h: the functions that append a parameter, and those that read one, TLV_DECLARE_PARAM and
-- the two for data. `none` stands for a NULL pointer that is used, and for a search that does not
-- end.
pub mod Open
pub mod Grow
pub mod Fill
pub mod Values
pub mod Numbers
pub mod RoundTrip
pub mod Finish
use bitstream.Base.{
  ℕ, zero, suc, ◌+◌, ◌-◌, ◌*◌, ◌/◌, ◌%◌, ◌^◌, ◌≤◌, ◌<◌, bit_and, bit_or, bit_xor, ◌≡◌, refl, sym,
  ap, ap₂, subst, ◌∙◌, fun_ext, ◌≢◌, ◌↔◌, ◌⊎◌, inl, inr, Bool, true, false, not, ◌&&◌, ◌||◌, Option,
  none, some, List, [], ◌∷◌, ◌++◌, arith, ltb, leb, ◌==◌, ◌!=◌, if◌then◌else◌, ==_iff, Bool-cases,
  Option-cases, flag, &&_parts, all_below, all_below_at, u8, u16, u32, ◌<<◌, ◌>>◌, Bytes, IsBytes,
  put, memset, memcpy, at, put_at, length, get_or, length-append, get_elem?, put-IsBytes,
  memcpy-IsBytes,
}
use bitstream.Sim

-- The type, the length and the content, which `fill` writes behind the four bytes of the header.
unfoldable pub write_param : Bytes → ℕ → ℕ → ℕ → (Bytes → Bytes) → Bytes
unfolding Sim.set_type Sim.set_length
write_param p o type length fill =
    let p1 = put_at p o (Sim.set_type (at p o) type) in
    let p2 = put_at p1 o (Sim.set_length (at p1 o) length) in put_at p2 o (fill (at p2 o))

-- What is done at the place of the empty parameter.
unfoldable pub append_at :
    Bytes → ℕ → ℕ → ℕ → (Bytes → Bytes) → Option (Option ℕ) → Option (Bool × Bytes)
unfolding write_param Sim.append_empty Sim.validate_param
append_at p type length asked fill (some (some o)) =
    let p3 = write_param p o type length fill in
    if Sim.validate_param p o asked
    then some (true, put_at p3 o (Sim.append_empty (at p3 o)))
    else some (false, p)
append_at p type length asked fill (some none) = none
append_at p type length asked fill none = none

unfoldable pub append_data : Bytes → ℕ → Bytes → ℕ → Option (Bool × Bytes)
unfolding append_at Sim.find_param
append_data p type content length =
    append_at p type length (u16 (length + Sim.param_empty_size)) (λ q. memcpy q 4 content 0 length)
      (Sim.find_param p Sim.param_empty 0)

-- `for (i = 0; i < sizeof(type); i++)` of the append function, from `i` on.
unfoldable pub put_value : ℕ → ℕ → ℕ → ℕ → Bytes → Bytes
put_value zero size value i q = q
put_value (suc k) size value i q =
    put_value k size value (i + 1) (put q (4 + i) (bit_and (value >> 8 * (size - i - 1)) 0xff))

-- `value` is the `utype` of the value: for a signed type, the number of the same bits.
unfoldable pub append_value : ℕ → ℕ → Bytes → ℕ → Option (Bool × Bytes)
unfolding append_at put_value Sim.find_param
append_value param size p value =
    append_at p param size (size + Sim.param_empty_size) (put_value size size value 0)
      (Sim.find_param p Sim.param_empty 0)

-- `for (i = 0; i < sizeof(type); i++)` of the find function, from `i` on.
unfoldable pub get_value : ℕ → ℕ → ℕ → ℕ → Bytes → ℕ
get_value zero size value i q = value
get_value (suc k) size value i q =
    get_value k size (bit_or value (q (4 + i) << 8 * (size - i - 1))) (i + 1) q

unfoldable pub value_at : Bytes → ℕ → Option (Option ℕ) → Option ℕ
unfolding get_value
value_at p size (some (some o)) = some (get_value size size 0 0 (at p o))
value_at p size (some none) = none
value_at p size none = none

unfoldable pub find_value : ℕ → ℕ → Bytes → ℕ → Option ℕ
unfolding value_at Sim.find_param
find_value param size p n = value_at p size (Sim.find_param p param n)

abbrev pub data_at : Bytes → Option (Option ℕ) → Option (ℕ × ℕ)
data_at p (some (some o)) = some (o + 4, Sim.get_length (at p o))
data_at p (some none) = none
data_at p none = none

-- The place of the data and `*pi_length`.
unfoldable pub find_data : Bytes → ℕ → ℕ → Option (ℕ × ℕ)
unfolding Sim.find_param Sim.get_length
find_data p type n = data_at p (Sim.find_param p type n)

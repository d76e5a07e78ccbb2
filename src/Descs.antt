-- ===== src/Descs.antt =====
-- mpeg/psi/descriptors.h: descriptors and lists of descriptors. A pointer into a list is the
-- offset from its start, and NULL is `none`.
pub mod Tiles
pub mod Add
mod Tests
use bitstream.Base.{
  ℕ, zero, suc, ◌+◌, ◌-◌, ◌^◌, bit_and, bit_or, Bool, true, false, not, ◌||◌, Option, none, some,
  Bytes, put, at, put_at, u8, u16, ◌<<◌, ◌>>◌, ltb, leb, ◌==◌, if◌then◌else◌,
}

-- DESC_HEADER_SIZE and DESCS_HEADER_SIZE
abbrev pub desc_header_size : ℕ
desc_header_size = 2

abbrev pub descs_header_size : ℕ
descs_header_size = 2

unfoldable pub desc_set_tag : Bytes → ℕ → Bytes
desc_set_tag p tag = put p 0 tag

unfoldable pub desc_get_tag : Bytes → ℕ
desc_get_tag p = p 0

unfoldable pub desc_set_length : Bytes → ℕ → Bytes
desc_set_length p length = put p 1 length

unfoldable pub desc_get_length : Bytes → ℕ
desc_get_length p = p 1

-- `n` is the offset from the descriptor.
unfoldable pub desc_check : Bytes → Option ℕ → ℕ → Option ℕ
unfolding desc_get_length
desc_check p none size = none
desc_check p (some n) size =
    if ltb n desc_header_size || ltb (desc_header_size + desc_get_length p) (n + size)
    then none
    else some n

-- `for (p = next(NULL); p; p = next(p)) if (!n--) return p`, from an entry on.
unfoldable pub desc_get_from : (Option ℕ → Option ℕ) → ℕ → Option ℕ → Option ℕ
desc_get_from next n none = none
desc_get_from next zero (some o) = some o
desc_get_from next (suc n) (some o) = desc_get_from next n (next (some o))

unfoldable pub desc_get_at : ℕ → (Option ℕ → Option ℕ) → Option ℕ
unfolding desc_get_from
desc_get_at n next = desc_get_from next n (next none)

abbrev next_offset : Bytes → Option ℕ → ℕ
next_offset p none = 0
next_offset p (some o) = o + (desc_header_size + desc_get_length (at p o))

unfoldable pub descl_next_desc : Bytes → ℕ → Option ℕ → Option ℕ
unfolding desc_get_length
descl_next_desc p length desc =
    if ltb length (next_offset p desc + desc_header_size) then none else some (next_offset p desc)

unfoldable pub descl_get_desc : Bytes → ℕ → ℕ → Option ℕ
unfolding desc_get_from descl_next_desc
descl_get_desc p length n =
    desc_get_from (descl_next_desc p length) n (descl_next_desc p length none)

-- `while (o + 2 <= length) o += 2 + desc_get_length(p + o)`. Each round moves on by two bytes at
-- least, so one more round than `length` has bytes is enough.
unfoldable pub validate_loop : ℕ → Bytes → ℕ → ℕ → ℕ
unfolding desc_get_length
validate_loop zero p length o = o
validate_loop (suc fuel) p length o =
    let rest = validate_loop fuel p length (o + (desc_header_size + desc_get_length (at p o))) in
    if leb (o + desc_header_size) length then rest else o

unfoldable pub descl_validate : Bytes → ℕ → Bool
unfolding validate_loop
descl_validate p length = validate_loop (length + 1) p length 0 == length

unfoldable pub descs_set_length : Bytes → ℕ → Bytes
descs_set_length p length =
    let p1 = put p 0 (bit_and (p 0) 0xf0) in
    let p2 = put p1 0 (bit_or (p1 0) (bit_and (length >> 8) 0xf)) in put p2 1 (bit_and length 0xff)

unfoldable pub descs_get_length : Bytes → ℕ
descs_get_length p = bit_or (bit_and (p 0) 0xf << 8) (p 1)

unfoldable pub descs_next_desc : Bytes → Option ℕ → Option ℕ
descs_next_desc p desc = descl_next_desc (at p descs_header_size) (descs_get_length p) desc

-- `desc` is the offset of the descriptor from `p_descs`.
unfoldable pub descs_validate_desc : Bytes → ℕ → ℕ → Bool
descs_validate_desc p desc desclength = leb (desc + desclength) (descs_get_length p)

unfoldable pub descs_validate : Bytes → Bool
descs_validate p = descl_validate (at p descs_header_size) (descs_get_length p)

-- The list of the next function with the new descriptor behind its `length` bytes.
unfoldable pub descs_append : Bytes → ℕ → Bytes
unfolding desc_set_tag desc_set_length
descs_append p desc_length =
    let length = descs_get_length p in
    let p1 = descs_set_length p (u16 (length + desc_length)) in
    let desc = descs_header_size + length in
    let p2 = put_at p1 desc (desc_set_tag (at p1 desc) 0) in
    put_at p2 desc (desc_set_length (at p2 desc) (u8 (length + 2 ^ 8 - desc_header_size)))

-- The new list and the offset of the new descriptor from `p_descs`.
unfoldable pub descs_add_desc : Bytes → ℕ → Option (Bytes × ℕ)
descs_add_desc p desc_length =
    if not (descs_validate p) || ltb desc_length desc_header_size
    then none
    else some (descs_append p desc_length, descs_header_size + descs_get_length p)

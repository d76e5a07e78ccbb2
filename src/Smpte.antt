-- ===== src/Smpte.antt =====
-- smpte/291.h: packets of ancillary data. A `uint16_t *` is the words by their number. A name of the
-- model is the C name without `s291_`.
pub mod Checksum
mod Tests
use bitstream.Base.{
  ℕ, zero, suc, ◌+◌, ◌-◌, ◌*◌, ◌/◌, ◌%◌, ◌^◌, ◌≤◌, ◌<◌, bit_and, bit_or, bit_xor, ◌≡◌, refl, sym,
  ap, ap₂, subst, ◌∙◌, fun_ext, ◌≢◌, ◌↔◌, ◌⊎◌, inl, inr, Bool, true, false, not, ◌&&◌, ◌||◌, Option,
  none, some, List, [], ◌∷◌, ◌++◌, arith, ltb, leb, ◌==◌, ◌!=◌, if◌then◌else◌, ==_iff, Bool-cases,
  Option-cases, flag, &&_parts, all_below, all_below_at, u8, u16, u32, ◌<<◌, ◌>>◌, Bytes, IsBytes,
  put, memset, memcpy, at, put_at, length, get_or, length-append, get_elem?, put-IsBytes,
  memcpy-IsBytes,
}

abbrev pub Words : Type 0
Words = ℕ → ℕ

-- `p[i] = v`, with the conversion to `uint16_t`.
abbrev pub put_word : Words → ℕ → ℕ → Words
put_word p i v j = if i == j then v % 65536 else p j

-- S291_HEADER_SIZE
abbrev pub header_size : ℕ
header_size = 6

-- The product has 64 bits.
unfoldable pub parity : ℕ → ℕ
parity val =
    let bits = bit_and (val * 0x0101010101010101 % 2 ^ 64) 0x8040201008040201 in
    let parity = bit_and (bits % 0x1ff) 1 in bit_or (parity << 8) (bit_xor parity 1 << 9)

unfoldable pub set_did : Words → ℕ → Words
unfolding parity
set_did p did = put_word p 3 (bit_or did (parity did))

unfoldable pub get_did : Words → ℕ
get_did p = bit_and (p 3) 0xff

unfoldable pub set_sdid : Words → ℕ → Words
unfolding parity
set_sdid p sdid = put_word p 4 (bit_or sdid (parity sdid))

unfoldable pub get_sdid : Words → ℕ
get_sdid p = bit_and (p 4) 0xff

unfoldable pub set_dc : Words → ℕ → Words
unfolding parity
set_dc p dc = put_word p 5 (bit_or dc (parity dc))

unfoldable pub get_dc : Words → ℕ
get_dc p = bit_and (p 5) 0xff

unfoldable pub get_udw : Words → Words
get_udw p i = p (6 + i)

-- `for (i = 3; i < i_dc + S291_HEADER_SIZE; i++)`, with so many rounds left.
unfoldable pub cs_loop : ℕ → Words → ℕ → ℕ → ℕ
cs_loop zero p i cs = cs
cs_loop (suc left) p i cs = cs_loop left p (i + 1) (bit_and (u16 (cs + bit_and (p i) 0x1ff)) 0x1ff)

-- `~i_cs` on the bits that the mask leaves.
unfoldable pub compute_cs : Words → ℕ
unfolding get_dc cs_loop
compute_cs p =
    let cs = cs_loop (get_dc p + header_size - 3) p 3 0 in
    bit_or cs (bit_and (0xffff - cs) 0x100 << 1)

unfoldable pub set_cs : Words → Words
unfolding get_dc compute_cs
set_cs p = put_word p (header_size + get_dc p) (compute_cs p)

unfoldable pub check_cs : Words → Bool
unfolding get_dc compute_cs
check_cs p = p (header_size + get_dc p) == compute_cs p

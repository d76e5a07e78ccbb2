-- ===== src/Common/BitField.antt =====
-- common.h: `bitstream_get_` and `bitstream_set_`, which the macros BITSTREAM_GET_TYPE and
-- BITSTREAM_SET_TYPE declare for each width. Positions count bits from the highest of the first byte.
pub mod Digits
pub mod Get
pub mod Byte
pub mod Set
pub mod RoundTrip
mod Tests
use bitstream.Base.{
  ℕ, zero, suc, ◌+◌, ◌-◌, ◌/◌, ◌%◌, ◌^◌, bit_and, bit_or, Bytes, put, u8, u32, not_u8, ◌<<◌, ◌>>◌,
  ◌==◌, ltb, leb, if◌then◌else◌,
}

-- `nbits > bits ? bits : nbits`
unfoldable pub chunk : ℕ → ℕ → ℕ
chunk bits nbits = if ltb bits nbits then bits else nbits

-- `~(0xff << size) << (nbits - size)`, in a byte
unfoldable pub get_mask : ℕ → ℕ → ℕ
get_mask size nbits = u8 (u32 ((2 ^ 32 - 1 - (0xff << size)) << (nbits - size)))

-- The loop of `bitstream_get_`, from the byte `i` on; `v` has `width` bits. A round takes a bit at
-- least, so as many rounds as there are bits are enough. A difference below 0 ends the loop as 0 does.
unfoldable pub get_loop : ℕ → ℕ → Bytes → ℕ → ℕ → ℕ → ℕ → ℕ
unfolding chunk get_mask
get_loop zero width p i bits nbits v = v
get_loop (suc fuel) width p i bits nbits v =
    let size = chunk bits nbits in
    let mask = get_mask size nbits in
    let w = bit_or (v << size) (bit_and (p i) mask >> (nbits - size)) % 2 ^ width in
    let rest = get_loop fuel width p (i + 1) (bits - nbits) 8 w in if bits == 0 then v else rest

unfoldable pub bitstream_get : ℕ → Bytes → ℕ → ℕ → ℕ
unfolding get_loop
bitstream_get width p position nb_bits =
    get_loop nb_bits width p (position / 8) nb_bits (8 - position % 8) 0

-- `(uint8_t)(0xff << (bits >= 8 ? 0 : 8 - bits)) >> (8 - nbits)`
unfoldable pub set_mask : ℕ → ℕ → ℕ
set_mask bits nbits = u8 (0xff << (if leb 8 bits then 0 else 8 - bits)) >> (8 - nbits)

-- `bits >= nbits ? v >> (bits - nbits) : v << (nbits - bits)`, in a byte
unfoldable pub set_bits : ℕ → ℕ → ℕ → ℕ
set_bits bits nbits v = u8 (if leb nbits bits then v >> (bits - nbits) else v << (nbits - bits))

-- The loop of `bitstream_set_`.
unfoldable pub set_loop : ℕ → Bytes → ℕ → ℕ → ℕ → ℕ → Bytes
unfolding set_mask set_bits
set_loop zero p i bits nbits v = p
set_loop (suc fuel) p i bits nbits v =
    let mask = set_mask bits nbits in
    let b = bit_or (bit_and (p i) (not_u8 mask)) (bit_and (set_bits bits nbits v) mask) in
    let rest = set_loop fuel (put p i b) (i + 1) (bits - nbits) 8 v in if bits == 0 then p else rest

-- `v` is of the width that the function is declared for, and `nb_bits` is at most that.
unfoldable pub bitstream_set : Bytes → ℕ → ℕ → ℕ → Bytes
unfolding set_loop
bitstream_set p position nb_bits v = set_loop nb_bits p (position / 8) nb_bits (8 - position % 8) v

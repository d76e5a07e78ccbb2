-- ===== src/Pes.antt =====
-- mpeg/pes.h: the header of a packet of an elementary stream.
pub mod Stamps
pub mod Both
pub mod Order
mod Tests
use bitstream.Base.{
  ℕ, ◌+◌, ◌-◌, bit_and, bit_or, Bool, ◌&&◌, Bytes, put, memset, u16, u64, ◌<<◌, ◌>>◌, ltb, leb,
  ◌==◌, flag, if◌then◌else◌,
}

-- PES_HEADER_SIZE, PES_HEADER_OPTIONAL_SIZE, PES_STREAM_ID_MIN
abbrev pub header_size : ℕ
header_size = 6

abbrev pub header_optional_size : ℕ
header_optional_size = 3

abbrev pub stream_id_min : ℕ
stream_id_min = 0xbc

unfoldable pub init : Bytes → Bytes
init p = put (put (put p 0 0x0) 1 0x0) 2 0x1

unfoldable pub set_streamid : Bytes → ℕ → Bytes
set_streamid p stream_id = put p 3 stream_id

unfoldable pub get_streamid : Bytes → ℕ
get_streamid p = p 3

unfoldable pub set_length : Bytes → ℕ → Bytes
set_length p length = put (put p 4 (length >> 8)) 5 (bit_and length 0xff)

unfoldable pub get_length : Bytes → ℕ
get_length p = u16 (bit_or (p 4 << 8) (p 5))

unfoldable pub set_headerlength : Bytes → ℕ → Bytes
set_headerlength p length =
    let p1 = put (put (put p 6 0x80) 7 0x0) 8 length in
    if ltb 0 length then memset p1 9 0xff length else p1

unfoldable pub get_headerlength : Bytes → ℕ
get_headerlength p = p 8

unfoldable pub set_dataalignment : Bytes → Bytes
set_dataalignment p = put p 6 (bit_or (p 6) 0x4)

unfoldable pub get_dataalignment : Bytes → Bool
get_dataalignment p = flag (bit_and (p 6) 0x4)

unfoldable pub has_pts : Bytes → Bool
has_pts p = flag (bit_and (p 7) 0x80)

unfoldable pub has_dts : Bytes → Bool
has_dts p = bit_and (p 7) 0xc0 == 0xc0

-- `if (p_pes[8] < n) p_pes[8] = n`
abbrev at_least : Bytes → ℕ → Bytes
at_least p n = if ltb (p 8) n then put p 8 n else p

unfoldable pub set_pts : Bytes → ℕ → Bytes
unfolding has_dts
set_pts p pts =
    let p1 = at_least (put p 7 (bit_or (p 7) 0x80)) 5 in
    let marker = if has_dts p1 then 0x30 else 0x20 in
    let p2 = put p1 9 (bit_or (bit_or marker 0x1) (bit_and (pts >> 29) 0xe)) in
    let p3 = put p2 10 (bit_and (pts >> 22) 0xff) in
    let p4 = put p3 11 (bit_or 0x1 (bit_and (pts >> 14) 0xfe)) in
    let p5 = put p4 12 (bit_and (pts >> 7) 0xff) in
    put p5 13 (bit_or 0x1 (bit_and (u64 (pts << 1)) 0xfe))

unfoldable pub validate_pts : Bytes → Bool
validate_pts p =
    bit_and (p 9) 0xe1 == 0x21 && (flag (bit_and (p 11) 0x1) && flag (bit_and (p 13) 0x1))

unfoldable pub get_pts : Bytes → ℕ
get_pts p =
    bit_or
      (bit_or (bit_or (bit_or (bit_and (p 9) 0xe << 29) (p 10 << 22)) (bit_and (p 11) 0xfe << 14))
        (p 12 << 7))
      (bit_and (p 13) 0xfe >> 1)

unfoldable pub set_dts : Bytes → ℕ → Bytes
set_dts p dts =
    let p1 = at_least (put p 7 (bit_or (p 7) 0x40)) 10 in
    let p2 = put p1 9 (bit_and (p1 9) 0x0f) in
    let p3 = put p2 9 (bit_or (p2 9) 0x30) in
    let p4 = put p3 14 (bit_or 0x11 (bit_and (dts >> 29) 0xe)) in
    let p5 = put p4 15 (bit_and (dts >> 22) 0xff) in
    let p6 = put p5 16 (bit_or 0x1 (bit_and (dts >> 14) 0xfe)) in
    let p7 = put p6 17 (bit_and (dts >> 7) 0xff) in
    put p7 18 (bit_or 0x1 (bit_and (u64 (dts << 1)) 0xfe))

unfoldable pub validate_dts : Bytes → Bool
validate_dts p =
    flag (bit_and (p 9) 0x10)
    && (bit_and (p 14) 0xf1 == 0x11 && (flag (bit_and (p 16) 0x1) && flag (bit_and (p 18) 0x1)))

unfoldable pub get_dts : Bytes → ℕ
get_dts p =
    bit_or
      (bit_or (bit_or (bit_or (bit_and (p 14) 0xe << 29) (p 15 << 22)) (bit_and (p 16) 0xfe << 14))
        (p 17 << 7))
      (bit_and (p 18) 0xfe >> 1)

unfoldable pub validate : Bytes → Bool
validate p = p 0 == 0x0 && (p 1 == 0x0 && (p 2 == 0x1 && leb stream_id_min (p 3)))

unfoldable pub validate_header : Bytes → Bool
validate_header p = bit_and (p 6) 0xc0 == 0x80

-- The pointer returned is an offset from the start of the packet.
unfoldable pub payload : Bytes → ℕ
unfolding get_headerlength
payload p = header_size + header_optional_size + get_headerlength p

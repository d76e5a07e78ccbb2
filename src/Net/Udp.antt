-- ===== src/Net/Udp.antt =====
-- ietf/udp.h: the header of a datagram.
pub mod Header
use bitstream.Base.{ℕ, bit_and, bit_or, Bytes, put, u16, ◌<<◌, ◌>>◌}

-- UDP_HEADER_SIZE
abbrev pub header_size : ℕ
header_size = 8

unfoldable pub set_srcport : Bytes → ℕ → Bytes
set_srcport p port = let p1 = put p 0 (bit_and port 0xff00 >> 8) in put p1 1 (bit_and port 0xff)

unfoldable pub get_srcport : Bytes → ℕ
get_srcport p = u16 (bit_or (p 0 << 8) (p 1))

unfoldable pub set_dstport : Bytes → ℕ → Bytes
set_dstport p port = let p1 = put p 2 (bit_and port 0xff00 >> 8) in put p1 3 (bit_and port 0xff)

unfoldable pub get_dstport : Bytes → ℕ
get_dstport p = u16 (bit_or (p 2 << 8) (p 3))

unfoldable pub set_len : Bytes → ℕ → Bytes
set_len p len = let p1 = put p 4 (bit_and len 0xff00 >> 8) in put p1 5 (bit_and len 0xff)

unfoldable pub get_len : Bytes → ℕ
get_len p = u16 (bit_or (p 4 << 8) (p 5))

unfoldable pub set_cksum : Bytes → ℕ → Bytes
set_cksum p cksum = let p1 = put p 6 (bit_and cksum 0xff00 >> 8) in put p1 7 (bit_and cksum 0xff)

unfoldable pub get_cksum : Bytes → ℕ
get_cksum p = u16 (bit_or (p 6 << 8) (p 7))

unfoldable pub payload : Bytes → ℕ
payload p = header_size

-- ===== src/Net/Ip.antt =====
-- ietf/ip.h: the header of an internet datagram.
pub mod Header
use bitstream.Base.{ℕ, ◌*◌, bit_and, bit_or, Bytes, put, u8, u16, u32, not_u8, ◌<<◌, ◌>>◌, flag}

unfoldable pub set_version : Bytes → ℕ → Bytes
set_version p version =
    let p1 = put p 0 (bit_and (p 0) (not_u8 0xf0)) in
    put p1 0 (bit_or (p1 0) (bit_and version 0xf << 4))

unfoldable pub get_version : Bytes → ℕ
get_version p = bit_and (p 0 >> 4) 0xf

unfoldable pub set_ihl : Bytes → ℕ → Bytes
set_ihl p ihl =
    let p1 = put p 0 (bit_and (p 0) (not_u8 0xf)) in put p1 0 (bit_or (p1 0) (bit_and ihl 0xf))

unfoldable pub get_ihl : Bytes → ℕ
get_ihl p = bit_and (p 0) 0xf

unfoldable pub set_tos : Bytes → ℕ → Bytes
set_tos p tos = put p 1 tos

unfoldable pub get_tos : Bytes → ℕ
get_tos p = p 1

unfoldable pub set_len : Bytes → ℕ → Bytes
set_len p len = let p1 = put p 2 (bit_and len 0xff00 >> 8) in put p1 3 (bit_and len 0xff)

unfoldable pub get_len : Bytes → ℕ
get_len p = u16 (bit_or (p 2 << 8) (p 3))

unfoldable pub set_id : Bytes → ℕ → Bytes
set_id p id = let p1 = put p 4 (bit_and id 0xff00 >> 8) in put p1 5 (bit_and id 0xff)

unfoldable pub get_id : Bytes → ℕ
get_id p = u16 (bit_or (p 4 << 8) (p 5))

unfoldable pub set_flag_df : Bytes → ℕ → Bytes
set_flag_df p flag =
    let p1 = put p 6 (bit_and (p 6) (not_u8 0x40)) in put p1 6 (bit_or (p1 6) (bit_and flag 1 << 6))

unfoldable pub get_flag_df : Bytes → ℕ
get_flag_df p = bit_and (p 6) 0x40

unfoldable pub set_flag_mf : Bytes → ℕ → Bytes
set_flag_mf p flag =
    let p1 = put p 6 (bit_and (p 6) (not_u8 0x20)) in put p1 6 (bit_or (p1 6) (bit_and flag 1 << 5))

unfoldable pub get_flag_mf : Bytes → ℕ
get_flag_mf p = bit_and (p 6) 0x20

unfoldable pub set_frag_offset : Bytes → ℕ → Bytes
set_frag_offset p offset =
    let p1 = put p 6 (bit_and (p 6) (not_u8 0x1f)) in
    let p2 = put p1 6 (bit_or (p1 6) (bit_and offset 0x1f00 >> 8)) in put p2 7 (bit_and offset 0xff)

unfoldable pub get_frag_offset : Bytes → ℕ
get_frag_offset p = u8 (bit_or (bit_and (p 6) 0x1f << 8) (p 7))

unfoldable pub set_ttl : Bytes → ℕ → Bytes
set_ttl p ttl = put p 8 ttl

unfoldable pub get_ttl : Bytes → ℕ
get_ttl p = p 8

unfoldable pub set_proto : Bytes → ℕ → Bytes
set_proto p proto = put p 9 proto

unfoldable pub get_proto : Bytes → ℕ
get_proto p = p 9

unfoldable pub set_cksum : Bytes → ℕ → Bytes
set_cksum p cksum = let p1 = put p 10 (bit_and cksum 0xff00 >> 8) in put p1 11 (bit_and cksum 0xff)

unfoldable pub get_cksum : Bytes → ℕ
get_cksum p = u16 (bit_or (p 10 << 8) (p 11))

unfoldable pub set_srcaddr : Bytes → ℕ → Bytes
set_srcaddr p addr =
    let p1 = put p 12 (bit_and addr 0xff000000 >> 24) in
    let p2 = put p1 13 (bit_and addr 0x00ff0000 >> 16) in
    let p3 = put p2 14 (bit_and addr 0x0000ff00 >> 8) in put p3 15 (bit_and addr 0x000000ff)

unfoldable pub get_srcaddr : Bytes → ℕ
get_srcaddr p = u32 (bit_or (bit_or (bit_or (p 12 << 24) (p 13 << 16)) (p 14 << 8)) (p 15))

unfoldable pub set_dstaddr : Bytes → ℕ → Bytes
set_dstaddr p addr =
    let p1 = put p 16 (bit_and addr 0xff000000 >> 24) in
    let p2 = put p1 17 (bit_and addr 0x00ff0000 >> 16) in
    let p3 = put p2 18 (bit_and addr 0x0000ff00 >> 8) in put p3 19 (bit_and addr 0x000000ff)

unfoldable pub get_dstaddr : Bytes → ℕ
get_dstaddr p = u32 (bit_or (bit_or (bit_or (p 16 << 24) (p 17 << 16)) (p 18 << 8)) (p 19))

unfoldable pub set_flag_reserved : Bytes → ℕ → Bytes
set_flag_reserved p flag =
    let p1 = put p 6 (bit_and (p 6) (not_u8 0x80)) in put p1 6 (bit_or (p1 6) (bit_and flag 1 << 7))

unfoldable pub get_flag_reservered : Bytes → ℕ
get_flag_reservered p = bit_and (p 6) 0x80

unfoldable pub srcaddr : Bytes → ℕ
srcaddr p = 12

unfoldable pub dstaddr : Bytes → ℕ
dstaddr p = 16

unfoldable pub payload : Bytes → ℕ
payload p = 4 * (get_ihl p)

-- ===== src/Srt.antt =====
-- haivision/srt.h: the header of packets of secure reliable transport. A name of the model is the C
-- name without `srt_`.
pub mod Constants
pub mod Handshake
pub mod Km
pub mod Reports
mod Tests
use bitstream.Base.{
  ℕ, zero, suc, ◌+◌, ◌-◌, ◌*◌, ◌/◌, ◌%◌, ◌^◌, ◌≤◌, ◌<◌, bit_and, bit_or, bit_xor, ◌≡◌, refl, sym,
  ap, ap₂, subst, ◌∙◌, fun_ext, ◌≢◌, ◌↔◌, ◌⊎◌, inl, inr, Bool, true, false, not, ◌&&◌, ◌||◌, Option,
  none, some, List, [], ◌∷◌, ◌++◌, arith, ltb, leb, ◌==◌, ◌!=◌, if◌then◌else◌, ==_iff, Bool-cases,
  Option-cases, flag, &&_parts, all_below, all_below_at, u8, u16, u32, ◌<<◌, ◌>>◌, Bytes, IsBytes,
  put, memset, memcpy, at, put_at, length, get_or, length-append, get_elem?, put-IsBytes,
  memcpy-IsBytes,
}
use bitstream.Srt.Constants.{header_size}

-- `!!b`
abbrev pub to_bit : Bool → ℕ
to_bit true = 1
to_bit false = 0

unfoldable pub set_packet_control : Bytes → Bool → Bytes
set_packet_control p control = put p 0 (to_bit control << 7)

unfoldable pub get_packet_control : Bytes → Bool
get_packet_control p = bit_and (p 0) (0x80) != 0

unfoldable pub set_data_packet_seq : Bytes → ℕ → Bytes
set_data_packet_seq p seq =
    let p1 = put p 0 (bit_or (p 0) (bit_and (seq >> 24) 0x7f)) in
    let p2 = put p1 1 (bit_and (seq >> 16) 0xff) in
    let p3 = put p2 2 (bit_and (seq >> 8) 0xff) in put p3 3 (bit_and seq 0xff)

unfoldable pub get_data_packet_seq : Bytes → ℕ
get_data_packet_seq p =
    u32 (bit_or (bit_or (bit_or (bit_and (p 0) 0x7f << 24) (p 1 << 16)) (p 2 << 8)) (p 3))

unfoldable pub set_data_packet_position : Bytes → ℕ → Bytes
set_data_packet_position p position =
    put p 4 (bit_or (bit_and (p 4) 0x3f) (bit_and position 0x3 << 6))

unfoldable pub get_data_packet_position : Bytes → ℕ
get_data_packet_position p = bit_and (p 4 >> 6) 0x3

unfoldable pub set_data_packet_order : Bytes → Bool → Bytes
set_data_packet_order p order = put p 4 (bit_or (bit_and (p 4) 0xdf) (to_bit order << 5))

unfoldable pub get_data_packet_order : Bytes → Bool
get_data_packet_order p = bit_and (p 4) 0x20 != 0

unfoldable pub set_data_packet_encryption : Bytes → ℕ → Bytes
set_data_packet_encryption p encryption =
    put p 4 (bit_or (bit_and (p 4) 0xe7) (bit_and encryption 0x3 << 3))

unfoldable pub get_data_packet_encryption : Bytes → ℕ
get_data_packet_encryption p = bit_and (p 4 >> 3) 0x3

unfoldable pub set_data_packet_retransmit : Bytes → Bool → Bytes
set_data_packet_retransmit p retransmit =
    put p 4 (bit_or (bit_and (p 4) 0xfb) (to_bit retransmit << 2))

unfoldable pub get_data_packet_retransmit : Bytes → Bool
get_data_packet_retransmit p = bit_and (p 4) 0x4 != 0

unfoldable pub set_data_packet_message_number : Bytes → ℕ → Bytes
set_data_packet_message_number p message_number =
    let p1 = put p 4 (bit_or (p 4) (bit_and (message_number >> 24) 0x3)) in
    let p2 = put p1 5 (bit_and (message_number >> 16) 0xff) in
    let p3 = put p2 6 (bit_and (message_number >> 8) 0xff) in put p3 7 (bit_and message_number 0xff)

unfoldable pub get_data_packet_message_number : Bytes → ℕ
get_data_packet_message_number p =
    u32 (bit_or (bit_or (bit_or (bit_and (p 4) 0x3 << 24) (p 5 << 16)) (p 6 << 8)) (p 7))

unfoldable pub set_packet_timestamp : Bytes → ℕ → Bytes
set_packet_timestamp p timestamp =
    let p1 = put p 8 (bit_and (timestamp >> 24) 0xff) in
    let p2 = put p1 9 (bit_and (timestamp >> 16) 0xff) in
    let p3 = put p2 10 (bit_and (timestamp >> 8) 0xff) in put p3 11 (bit_and timestamp 0xff)

unfoldable pub get_packet_timestamp : Bytes → ℕ
get_packet_timestamp p = u32 (bit_or (bit_or (bit_or (p 8 << 24) (p 9 << 16)) (p 10 << 8)) (p 11))

unfoldable pub set_packet_dst_socket_id : Bytes → ℕ → Bytes
set_packet_dst_socket_id p dst_socket_id =
    let p1 = put p 12 (bit_and (dst_socket_id >> 24) 0xff) in
    let p2 = put p1 13 (bit_and (dst_socket_id >> 16) 0xff) in
    let p3 = put p2 14 (bit_and (dst_socket_id >> 8) 0xff) in put p3 15 (bit_and dst_socket_id 0xff)

unfoldable pub get_packet_dst_socket_id : Bytes → ℕ
get_packet_dst_socket_id p =
    u32 (bit_or (bit_or (bit_or (p 12 << 24) (p 13 << 16)) (p 14 << 8)) (p 15))

unfoldable pub get_control_packet_type : Bytes → ℕ
get_control_packet_type p = u16 (bit_or (bit_and (p 0) 0x7f << 8) (p 1))

unfoldable pub set_control_packet_subtype : Bytes → ℕ → Bytes
set_control_packet_subtype p subtype =
    let p1 = put p 2 (subtype >> 8) in put p1 3 (bit_and subtype 0xff)

unfoldable pub get_control_packet_subtype : Bytes → ℕ
get_control_packet_subtype p = u16 (bit_or (p 2 << 8) (p 3))

unfoldable pub set_control_packet_type_specific : Bytes → ℕ → Bytes
set_control_packet_type_specific p type_specific =
    let p1 = put p 4 (bit_and (type_specific >> 24) 0xff) in
    let p2 = put p1 5 (bit_and (type_specific >> 16) 0xff) in
    let p3 = put p2 6 (bit_and (type_specific >> 8) 0xff) in put p3 7 (bit_and type_specific 0xff)

unfoldable pub get_control_packet_type_specific : Bytes → ℕ
get_control_packet_type_specific p =
    u32 (bit_or (bit_or (bit_or (p 4 << 24) (p 5 << 16)) (p 6 << 8)) (p 7))

unfoldable pub set_control_packet_type : Bytes → ℕ → Bytes
set_control_packet_type p type =
    let type = bit_and type 0x7fff in
    let p1 = put p 0 (bit_or (p 0) (type >> 8)) in put p1 1 (bit_and type 0xff)

unfoldable pub get_control_packet_cif : Bytes → Bytes
get_control_packet_cif p = at p header_size

-- ===== src/Srt/Reports.antt =====
-- haivision/srt.h: the control information of acknowledgements, of loss reports and of drop requests.
pub mod Losses
use bitstream.Base.{
  ℕ, zero, suc, ◌+◌, ◌-◌, ◌*◌, ◌/◌, ◌%◌, ◌^◌, ◌≤◌, ◌<◌, bit_and, bit_or, bit_xor, ◌≡◌, refl, sym,
  ap, ap₂, subst, ◌∙◌, fun_ext, ◌≢◌, ◌↔◌, ◌⊎◌, inl, inr, Bool, true, false, not, ◌&&◌, ◌||◌, Option,
  none, some, List, [], ◌∷◌, ◌++◌, arith, ltb, leb, ◌==◌, ◌!=◌, if◌then◌else◌, ==_iff, Bool-cases,
  Option-cases, flag, &&_parts, all_below, all_below_at, u8, u16, u32, ◌<<◌, ◌>>◌, Bytes, IsBytes,
  put, memset, memcpy, at, put_at, length, get_or, length-append, get_elem?, put-IsBytes,
  memcpy-IsBytes,
}

abbrev pub ack_cif_size_1 : ℕ
ack_cif_size_1 = 16

abbrev pub ack_cif_size_2 : ℕ
ack_cif_size_2 = 24

abbrev pub ack_cif_size_3 : ℕ
ack_cif_size_3 = 28

abbrev pub ack_cif_size_4 : ℕ
ack_cif_size_4 = 32

abbrev pub dropreq_cif_size : ℕ
dropreq_cif_size = 8

unfoldable pub set_ack_last_ack_seq : Bytes → ℕ → Bytes
set_ack_last_ack_seq p last_ack_seq =
    let p1 = put p 0 (bit_and (last_ack_seq >> 24) 0xff) in
    let p2 = put p1 1 (bit_and (last_ack_seq >> 16) 0xff) in
    let p3 = put p2 2 (bit_and (last_ack_seq >> 8) 0xff) in put p3 3 (bit_and last_ack_seq 0xff)

unfoldable pub get_ack_last_ack_seq : Bytes → ℕ
get_ack_last_ack_seq p = u32 (bit_or (bit_or (bit_or (p 0 << 24) (p 1 << 16)) (p 2 << 8)) (p 3))

unfoldable pub set_ack_rtt : Bytes → ℕ → Bytes
set_ack_rtt p rtt =
    let p1 = put p 4 (bit_and (rtt >> 24) 0xff) in
    let p2 = put p1 5 (bit_and (rtt >> 16) 0xff) in
    let p3 = put p2 6 (bit_and (rtt >> 8) 0xff) in put p3 7 (bit_and rtt 0xff)

unfoldable pub get_ack_rtt : Bytes → ℕ
get_ack_rtt p = u32 (bit_or (bit_or (bit_or (p 4 << 24) (p 5 << 16)) (p 6 << 8)) (p 7))

unfoldable pub set_ack_rtt_variance : Bytes → ℕ → Bytes
set_ack_rtt_variance p rtt_variance =
    let p1 = put p 8 (bit_and (rtt_variance >> 24) 0xff) in
    let p2 = put p1 9 (bit_and (rtt_variance >> 16) 0xff) in
    let p3 = put p2 10 (bit_and (rtt_variance >> 8) 0xff) in put p3 11 (bit_and rtt_variance 0xff)

unfoldable pub get_ack_rtt_variance : Bytes → ℕ
get_ack_rtt_variance p = u32 (bit_or (bit_or (bit_or (p 8 << 24) (p 9 << 16)) (p 10 << 8)) (p 11))

unfoldable pub set_ack_avail_bufsize : Bytes → ℕ → Bytes
set_ack_avail_bufsize p avail_bufsize =
    let p1 = put p 12 (bit_and (avail_bufsize >> 24) 0xff) in
    let p2 = put p1 13 (bit_and (avail_bufsize >> 16) 0xff) in
    let p3 = put p2 14 (bit_and (avail_bufsize >> 8) 0xff) in put p3 15 (bit_and avail_bufsize 0xff)

unfoldable pub get_ack_avail_bufsize : Bytes → ℕ
get_ack_avail_bufsize p =
    u32 (bit_or (bit_or (bit_or (p 12 << 24) (p 13 << 16)) (p 14 << 8)) (p 15))

unfoldable pub set_ack_packets_receiving_rate : Bytes → ℕ → Bytes
set_ack_packets_receiving_rate p packets_receiving_rate =
    let p1 = put p 16 (bit_and (packets_receiving_rate >> 24) 0xff) in
    let p2 = put p1 17 (bit_and (packets_receiving_rate >> 16) 0xff) in
    let p3 = put p2 18 (bit_and (packets_receiving_rate >> 8) 0xff) in
    put p3 19 (bit_and packets_receiving_rate 0xff)

unfoldable pub get_ack_packets_receiving_rate : Bytes → ℕ
get_ack_packets_receiving_rate p =
    u32 (bit_or (bit_or (bit_or (p 16 << 24) (p 17 << 16)) (p 18 << 8)) (p 19))

unfoldable pub set_ack_estimated_link_capacity : Bytes → ℕ → Bytes
set_ack_estimated_link_capacity p estimated_link_capacity =
    let p1 = put p 20 (bit_and (estimated_link_capacity >> 24) 0xff) in
    let p2 = put p1 21 (bit_and (estimated_link_capacity >> 16) 0xff) in
    let p3 = put p2 22 (bit_and (estimated_link_capacity >> 8) 0xff) in
    put p3 23 (bit_and estimated_link_capacity 0xff)

unfoldable pub get_ack_estimated_link_capacity : Bytes → ℕ
get_ack_estimated_link_capacity p =
    u32 (bit_or (bit_or (bit_or (p 20 << 24) (p 21 << 16)) (p 22 << 8)) (p 23))

unfoldable pub set_ack_receiving_rate : Bytes → ℕ → Bytes
set_ack_receiving_rate p receiving_rate =
    let p1 = put p 24 (bit_and (receiving_rate >> 24) 0xff) in
    let p2 = put p1 25 (bit_and (receiving_rate >> 16) 0xff) in
    let p3 = put p2 26 (bit_and (receiving_rate >> 8) 0xff) in
    put p3 27 (bit_and receiving_rate 0xff)

unfoldable pub get_ack_receiving_rate : Bytes → ℕ
get_ack_receiving_rate p =
    u32 (bit_or (bit_or (bit_or (p 24 << 24) (p 25 << 16)) (p 26 << 8)) (p 27))

unfoldable pub check_ack : Bytes → ℕ → Bool
check_ack p n =
    not
      (n != ack_cif_size_1 && (n != ack_cif_size_2 && (n != ack_cif_size_3 && n != ack_cif_size_4)))

-- What `srt_get_nak_range` leaves in its four arguments: how far it moves on, and how many bytes are
-- left.
pub record NakRange : Type 0 where
  pub moved : ℕ
  pub cif_size : ℕ
  pub start_seq : ℕ
  pub packets : ℕ

abbrev pub seq_at : Bytes → ℕ → ℕ
seq_at p o =
    u32 (bit_or (bit_or (bit_or (p o << 24) (p (o + 1) << 16)) (p (o + 2) << 8)) (p (o + 3)))

-- `none` is false. `~(1<<31)` on 32 bits is 0x7fffffff.
unfoldable pub get_nak_range : Bytes → ℕ → Option NakRange
get_nak_range p cif_size =
    let first_seq = seq_at p 0 in
    let last_seq = seq_at p 4 in
    let start = bit_and first_seq 0x7fffffff in
    if ltb cif_size 4
    then none
    else if flag (bit_and first_seq 0x80000000)
    then (if ltb cif_size 8
        then none
        else if flag (bit_and last_seq 0x80000000)
        then none
        else some (record {
          moved = 8;
          cif_size = cif_size - 8;
          start_seq = start;
          packets = bit_and (u32 (last_seq + 2 ^ 32 - start + 1)) 0x7fffffff;
        }))
    else some (record { moved = 4; cif_size = cif_size - 4; start_seq = first_seq; packets = 1 })

unfoldable pub check_dropreq : Bytes → ℕ → Bool
check_dropreq p n = n == dropreq_cif_size

unfoldable pub set_dropreq_first_seq : Bytes → ℕ → Bytes
set_dropreq_first_seq p first_seq =
    let p1 = put p 0 (bit_and (first_seq >> 24) 0x7f) in
    let p2 = put p1 1 (bit_and (first_seq >> 16) 0xff) in
    let p3 = put p2 2 (bit_and (first_seq >> 8) 0xff) in put p3 3 (bit_and first_seq 0xff)

unfoldable pub get_dropreq_first_seq : Bytes → ℕ
get_dropreq_first_seq p =
    u32 (bit_or (bit_or (bit_or (bit_and (p 0 << 24) 0x7f) (p 1 << 16)) (p 2 << 8)) (p 3))

unfoldable pub set_dropreq_last_seq : Bytes → ℕ → Bytes
set_dropreq_last_seq p last_seq =
    let p1 = put p 4 (bit_and (last_seq >> 24) 0x7f) in
    let p2 = put p1 5 (bit_and (last_seq >> 16) 0xff) in
    let p3 = put p2 6 (bit_and (last_seq >> 8) 0xff) in put p3 7 (bit_and last_seq 0xff)

unfoldable pub get_dropreq_last_seq : Bytes → ℕ
get_dropreq_last_seq p =
    u32 (bit_or (bit_or (bit_or (bit_and (p 4 << 24) 0x7f) (p 5 << 16)) (p 6 << 8)) (p 7))

-- ===== src/Net/Rtcp.antt =====
-- ietf/rtcp.h and ietf/rtcp_sr.h: control packets and sender reports.
pub mod Report
use bitstream.Base.{ℕ, bit_and, bit_or, Bytes, put, u16, u32, ◌<<◌, ◌>>◌}

-- RTCP_RTP_VERSION, RTCP_PT_SR
abbrev pub rtp_version : ℕ
rtp_version = 2

abbrev pub pt_sr : ℕ
pt_sr = 200

unfoldable pub set_rtp_version : Bytes → Bytes
set_rtp_version p = put p 0 (rtp_version << 6)

unfoldable pub get_rc : Bytes → ℕ
get_rc p = bit_and (p 0) 0x1f

unfoldable pub set_rc : Bytes → ℕ → Bytes
set_rc p rc = put p 0 (bit_or (p 0) (bit_and rc 0x1f))

unfoldable pub get_pt : Bytes → ℕ
get_pt p = p 1

unfoldable pub set_pt : Bytes → ℕ → Bytes
set_pt p pt = put p 1 pt

unfoldable pub get_length : Bytes → ℕ
get_length p = u16 (bit_or (p 2 << 8) (p 3))

unfoldable pub set_length : Bytes → ℕ → Bytes
set_length p length = let p1 = put p 2 (length >> 8) in put p1 3 (bit_and length 0xff)

-- A sender report (`rtcp_sr_`).
unfoldable pub sr_set_rtp_version : Bytes → Bytes
sr_set_rtp_version p = set_rtp_version p

unfoldable pub sr_set_pt : Bytes → Bytes
sr_set_pt p = set_pt p pt_sr

unfoldable pub sr_set_length : Bytes → ℕ → Bytes
sr_set_length p length = set_length p length

unfoldable pub get_ntp_time_msw : Bytes → ℕ
get_ntp_time_msw p = u32 (bit_or (bit_or (bit_or (p 8 << 24) (p 9 << 16)) (p 10 << 8)) (p 11))

unfoldable pub set_ntp_time_msw : Bytes → ℕ → Bytes
set_ntp_time_msw p ntp_time_msw =
    let p1 = put p 8 (bit_and (ntp_time_msw >> 24) 0xff) in
    let p2 = put p1 9 (bit_and (ntp_time_msw >> 16) 0xff) in
    let p3 = put p2 10 (bit_and (ntp_time_msw >> 8) 0xff) in put p3 11 (bit_and ntp_time_msw 0xff)

unfoldable pub get_ntp_time_lsw : Bytes → ℕ
get_ntp_time_lsw p = u32 (bit_or (bit_or (bit_or (p 12 << 24) (p 13 << 16)) (p 14 << 8)) (p 15))

unfoldable pub set_ntp_time_lsw : Bytes → ℕ → Bytes
set_ntp_time_lsw p ntp_time_lsw =
    let p1 = put p 12 (bit_and (ntp_time_lsw >> 24) 0xff) in
    let p2 = put p1 13 (bit_and (ntp_time_lsw >> 16) 0xff) in
    let p3 = put p2 14 (bit_and (ntp_time_lsw >> 8) 0xff) in put p3 15 (bit_and ntp_time_lsw 0xff)

unfoldable pub get_rtp_time : Bytes → ℕ
get_rtp_time p = u32 (bit_or (bit_or (bit_or (p 16 << 24) (p 17 << 16)) (p 18 << 8)) (p 19))

unfoldable pub set_rtp_time : Bytes → ℕ → Bytes
set_rtp_time p rtp_time =
    let p1 = put p 16 (bit_and (rtp_time >> 24) 0xff) in
    let p2 = put p1 17 (bit_and (rtp_time >> 16) 0xff) in
    let p3 = put p2 18 (bit_and (rtp_time >> 8) 0xff) in put p3 19 (bit_and rtp_time 0xff)

unfoldable pub get_packet_count : Bytes → ℕ
get_packet_count p = u32 (bit_or (bit_or (bit_or (p 20 << 24) (p 21 << 16)) (p 22 << 8)) (p 23))

unfoldable pub set_packet_count : Bytes → ℕ → Bytes
set_packet_count p packet_count =
    let p1 = put p 20 (bit_and (packet_count >> 24) 0xff) in
    let p2 = put p1 21 (bit_and (packet_count >> 16) 0xff) in
    let p3 = put p2 22 (bit_and (packet_count >> 8) 0xff) in put p3 23 (bit_and packet_count 0xff)

unfoldable pub get_octet_count : Bytes → ℕ
get_octet_count p = u32 (bit_or (bit_or (bit_or (p 24 << 24) (p 25 << 16)) (p 26 << 8)) (p 27))

unfoldable pub set_octet_count : Bytes → ℕ → Bytes
set_octet_count p octet_count =
    let p1 = put p 24 (bit_and (octet_count >> 24) 0xff) in
    let p2 = put p1 25 (bit_and (octet_count >> 16) 0xff) in
    let p3 = put p2 26 (bit_and (octet_count >> 8) 0xff) in put p3 27 (bit_and octet_count 0xff)

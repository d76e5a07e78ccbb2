-- ===== src/Net/Rtp.antt =====
-- ietf/rtp.h: the header of a real-time transport packet.
pub mod Header
pub mod Payload
use bitstream.Base.{
  ℕ, ◌+◌, ◌-◌, ◌*◌, ◌^◌, bit_and, bit_or, Bool, Bytes, put, u16, u32, u64, not_u8, ◌<<◌, ◌>>◌, ◌==◌,
  ◌!=◌, if◌then◌else◌, at,
}

-- RTP_HEADER_SIZE
abbrev pub header_size : ℕ
header_size = 12

unfoldable pub set_hdr : Bytes → Bytes
set_hdr p = put p 0 0x80

unfoldable pub check_hdr : Bytes → Bool
check_hdr p = bit_and (p 0) 0xc0 == 0x80

unfoldable pub set_padding : Bytes → Bytes
set_padding p = put p 0 (bit_or (p 0) 0x20)

unfoldable pub check_padding : Bytes → Bool
check_padding p = bit_and (p 0) 0x20 != 0

unfoldable pub set_extension : Bytes → Bytes
set_extension p = put p 0 (bit_or (p 0) 0x10)

unfoldable pub check_extension : Bytes → Bool
check_extension p = bit_and (p 0) 0x10 != 0

unfoldable pub set_cc : Bytes → ℕ → Bytes
set_cc p cc = let p1 = put p 0 (bit_and (p 0) 0xf0) in put p1 0 (bit_or (p1 0) (bit_and cc 0xf))

unfoldable pub get_cc : Bytes → ℕ
get_cc p = bit_and (p 0) 0xf

unfoldable pub set_marker : Bytes → Bytes
set_marker p = put p 1 (bit_or (p 1) 0x80)

unfoldable pub clear_marker : Bytes → Bytes
clear_marker p = put p 1 (bit_and (p 1) (not_u8 0x80))

unfoldable pub check_marker : Bytes → Bool
check_marker p = bit_and (p 1) 0x80 != 0

unfoldable pub set_type : Bytes → ℕ → Bytes
set_type p type = put p 1 (bit_or (bit_and (p 1) 0x80) (bit_and type 0x7f))

unfoldable pub get_type : Bytes → ℕ
get_type p = bit_and (p 1) 0x7f

unfoldable pub set_seqnum : Bytes → ℕ → Bytes
set_seqnum p seqnum = let p1 = put p 2 (seqnum >> 8) in put p1 3 (bit_and seqnum 0xff)

unfoldable pub get_seqnum : Bytes → ℕ
get_seqnum p = u16 (bit_or (p 2 << 8) (p 3))

unfoldable pub set_timestamp : Bytes → ℕ → Bytes
set_timestamp p timestamp =
    let p1 = put p 4 (bit_and (timestamp >> 24) 0xff) in
    let p2 = put p1 5 (bit_and (timestamp >> 16) 0xff) in
    let p3 = put p2 6 (bit_and (timestamp >> 8) 0xff) in put p3 7 (bit_and timestamp 0xff)

unfoldable pub get_timestamp : Bytes → ℕ
get_timestamp p = u32 (bit_or (bit_or (bit_or (p 4 << 24) (p 5 << 16)) (p 6 << 8)) (p 7))

unfoldable pub set_int_ssrc : Bytes → ℕ → Bytes
set_int_ssrc p ssrc =
    let p1 = put p 8 (bit_and (ssrc >> 24) 0xff) in
    let p2 = put p1 9 (bit_and (ssrc >> 16) 0xff) in
    let p3 = put p2 10 (bit_and (ssrc >> 8) 0xff) in put p3 11 (bit_and ssrc 0xff)

unfoldable pub get_int_ssrc : Bytes → ℕ
get_int_ssrc p = u32 (bit_or (bit_or (bit_or (p 8 << 24) (p 9 << 16)) (p 10 << 8)) (p 11))

unfoldable pub extension : Bytes → ℕ
extension p = header_size + (4 * (get_cc p))

-- The four bytes of the source identifier, as the caller's buffer has or gets them.
unfoldable pub set_ssrc : Bytes → Bytes → Bytes
set_ssrc p ssrc = put (put (put (put p 8 (ssrc 0)) 9 (ssrc 1)) 10 (ssrc 2)) 11 (ssrc 3)

unfoldable pub get_ssrc : Bytes → Bytes → Bytes
get_ssrc p ssrc = put (put (put (put ssrc 0 (p 8)) 1 (p 9)) 2 (p 10)) 3 (p 11)

-- The header extension (`rtpx_`), from its start.
unfoldable pub set_extension_header : Bytes → ℕ → Bytes
set_extension_header p header =
    let p1 = put p 0 (bit_and (header >> 8) 0xff) in put p1 1 (bit_and header 0xff)

unfoldable pub get_extension_header : Bytes → ℕ
get_extension_header p = u16 (bit_or (p 0 << 8) (p 1))

unfoldable pub set_extension_length : Bytes → ℕ → Bytes
set_extension_length p length =
    let p1 = put p 2 (bit_and (length >> 8) 0xff) in put p1 3 (bit_and length 0xff)

unfoldable pub get_extension_length : Bytes → ℕ
get_extension_length p = u16 (bit_or (p 2 << 8) (p 3))

-- The offset of the payload from `p_rtp`, in `unsigned int`.
unfoldable pub payload : Bytes → ℕ
payload p =
    let size = header_size + 4 * get_cc p in
    if check_extension p then size + 4 * (1 + get_extension_length (at p (extension p))) else size

-- In `size_t`, which has 64 bits: 2 ^ 64 stands for the borrow.
unfoldable pub payload_size : Bytes → ℕ → ℕ
payload_size p rtp_size =
    let padding_size = if check_padding p then p (rtp_size - 1) else 0 in
    u64 (rtp_size + 2 ^ 64 - payload p + 2 ^ 64 - padding_size)

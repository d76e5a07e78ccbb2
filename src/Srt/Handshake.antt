-- ===== src/Srt/Handshake.antt =====
-- haivision/srt.h: the control information of handshakes and its extensions, and the check of it.
pub mod Address
pub mod Blocks
use bitstream.Base.{
  ℕ, zero, suc, ◌+◌, ◌-◌, ◌*◌, ◌/◌, ◌%◌, ◌^◌, ◌≤◌, ◌<◌, bit_and, bit_or, bit_xor, ◌≡◌, refl, sym,
  ap, ap₂, subst, ◌∙◌, fun_ext, ◌≢◌, ◌↔◌, ◌⊎◌, inl, inr, Bool, true, false, not, ◌&&◌, ◌||◌, Option,
  none, some, List, [], ◌∷◌, ◌++◌, arith, ltb, leb, ◌==◌, ◌!=◌, if◌then◌else◌, ==_iff, Bool-cases,
  Option-cases, flag, &&_parts, all_below, all_below_at, u8, u16, u32, ◌<<◌, ◌>>◌, Bytes, IsBytes,
  put, memset, memcpy, at, put_at, length, get_or, length-append, get_elem?, put-IsBytes,
  memcpy-IsBytes,
}
use bitstream.Srt.Constants.{
  magic_code, handshake_cif_size, handshake_cif_extension_min_size, handshake_version,
  handshake_version_min,
}

unfoldable pub set_handshake_version : Bytes → ℕ → Bytes
set_handshake_version p version =
    let p1 = put p 0 (bit_and (version >> 24) 0xff) in
    let p2 = put p1 1 (bit_and (version >> 16) 0xff) in
    let p3 = put p2 2 (bit_and (version >> 8) 0xff) in put p3 3 (bit_and version 0xff)

unfoldable pub get_handshake_version : Bytes → ℕ
get_handshake_version p = u32 (bit_or (bit_or (bit_or (p 0 << 24) (p 1 << 16)) (p 2 << 8)) (p 3))

unfoldable pub set_handshake_encryption : Bytes → ℕ → Bytes
set_handshake_encryption p encryption =
    let p1 = put p 4 (bit_and (encryption >> 8) 0xff) in put p1 5 (bit_and encryption 0xff)

unfoldable pub get_handshake_encryption : Bytes → ℕ
get_handshake_encryption p = u16 (bit_or (p 4 << 8) (p 5))

unfoldable pub set_handshake_extension : Bytes → ℕ → Bytes
set_handshake_extension p extension =
    let p1 = put p 6 (bit_and (extension >> 8) 0xff) in put p1 7 (bit_and extension 0xff)

unfoldable pub get_handshake_extension : Bytes → ℕ
get_handshake_extension p = u16 (bit_or (p 6 << 8) (p 7))

unfoldable pub set_handshake_isn : Bytes → ℕ → Bytes
set_handshake_isn p isn =
    let p1 = put p 8 (bit_and (isn >> 24) 0xff) in
    let p2 = put p1 9 (bit_and (isn >> 16) 0xff) in
    let p3 = put p2 10 (bit_and (isn >> 8) 0xff) in put p3 11 (bit_and isn 0xff)

unfoldable pub get_handshake_isn : Bytes → ℕ
get_handshake_isn p = u32 (bit_or (bit_or (bit_or (p 8 << 24) (p 9 << 16)) (p 10 << 8)) (p 11))

unfoldable pub set_handshake_mtu : Bytes → ℕ → Bytes
set_handshake_mtu p mtu =
    let p1 = put p 12 (bit_and (mtu >> 24) 0xff) in
    let p2 = put p1 13 (bit_and (mtu >> 16) 0xff) in
    let p3 = put p2 14 (bit_and (mtu >> 8) 0xff) in put p3 15 (bit_and mtu 0xff)

unfoldable pub get_handshake_mtu : Bytes → ℕ
get_handshake_mtu p = u32 (bit_or (bit_or (bit_or (p 12 << 24) (p 13 << 16)) (p 14 << 8)) (p 15))

unfoldable pub set_handshake_mfw : Bytes → ℕ → Bytes
set_handshake_mfw p mfw =
    let p1 = put p 16 (bit_and (mfw >> 24) 0xff) in
    let p2 = put p1 17 (bit_and (mfw >> 16) 0xff) in
    let p3 = put p2 18 (bit_and (mfw >> 8) 0xff) in put p3 19 (bit_and mfw 0xff)

unfoldable pub get_handshake_mfw : Bytes → ℕ
get_handshake_mfw p = u32 (bit_or (bit_or (bit_or (p 16 << 24) (p 17 << 16)) (p 18 << 8)) (p 19))

unfoldable pub set_handshake_type : Bytes → ℕ → Bytes
set_handshake_type p type =
    let p1 = put p 20 (bit_and (type >> 24) 0xff) in
    let p2 = put p1 21 (bit_and (type >> 16) 0xff) in
    let p3 = put p2 22 (bit_and (type >> 8) 0xff) in put p3 23 (bit_and type 0xff)

unfoldable pub get_handshake_type : Bytes → ℕ
get_handshake_type p = u32 (bit_or (bit_or (bit_or (p 20 << 24) (p 21 << 16)) (p 22 << 8)) (p 23))

unfoldable pub set_handshake_socket_id : Bytes → ℕ → Bytes
set_handshake_socket_id p socket_id =
    let p1 = put p 24 (bit_and (socket_id >> 24) 0xff) in
    let p2 = put p1 25 (bit_and (socket_id >> 16) 0xff) in
    let p3 = put p2 26 (bit_and (socket_id >> 8) 0xff) in put p3 27 (bit_and socket_id 0xff)

unfoldable pub get_handshake_socket_id : Bytes → ℕ
get_handshake_socket_id p =
    u32 (bit_or (bit_or (bit_or (p 24 << 24) (p 25 << 16)) (p 26 << 8)) (p 27))

unfoldable pub set_handshake_syn_cookie : Bytes → ℕ → Bytes
set_handshake_syn_cookie p syn_cookie =
    let p1 = put p 28 (bit_and (syn_cookie >> 24) 0xff) in
    let p2 = put p1 29 (bit_and (syn_cookie >> 16) 0xff) in
    let p3 = put p2 30 (bit_and (syn_cookie >> 8) 0xff) in put p3 31 (bit_and syn_cookie 0xff)

unfoldable pub get_handshake_syn_cookie : Bytes → ℕ
get_handshake_syn_cookie p =
    u32 (bit_or (bit_or (bit_or (p 28 << 24) (p 29 << 16)) (p 30 << 8)) (p 31))

unfoldable pub set_handshake_extension_type : Bytes → ℕ → Bytes
set_handshake_extension_type p extension_type =
    let p1 = put p 0 (bit_and (extension_type >> 8) 0xff) in put p1 1 (bit_and extension_type 0xff)

unfoldable pub get_handshake_extension_type : Bytes → ℕ
get_handshake_extension_type p = u16 (bit_or (p 0 << 8) (p 1))

unfoldable pub set_handshake_extension_len : Bytes → ℕ → Bytes
set_handshake_extension_len p extension_len =
    let p1 = put p 2 (bit_and (extension_len >> 8) 0xff) in put p1 3 (bit_and extension_len 0xff)

unfoldable pub get_handshake_extension_len : Bytes → ℕ
get_handshake_extension_len p = u16 (bit_or (p 2 << 8) (p 3))

unfoldable pub set_handshake_extension_srt_flags : Bytes → ℕ → Bytes
set_handshake_extension_srt_flags p srt_flags =
    let p1 = put p 4 (bit_and (srt_flags >> 24) 0xff) in
    let p2 = put p1 5 (bit_and (srt_flags >> 16) 0xff) in
    let p3 = put p2 6 (bit_and (srt_flags >> 8) 0xff) in put p3 7 (bit_and srt_flags 0xff)

unfoldable pub get_handshake_extension_srt_flags : Bytes → ℕ
get_handshake_extension_srt_flags p =
    u32 (bit_or (bit_or (bit_or (p 4 << 24) (p 5 << 16)) (p 6 << 8)) (p 7))

unfoldable pub set_handshake_extension_receiver_tsbpd_delay : Bytes → ℕ → Bytes
set_handshake_extension_receiver_tsbpd_delay p receiver_tsbpd_delay =
    let p1 = put p 8 (bit_and (receiver_tsbpd_delay >> 8) 0xff) in
    put p1 9 (bit_and receiver_tsbpd_delay 0xff)

unfoldable pub get_handshake_extension_receiver_tsbpd_delay : Bytes → ℕ
get_handshake_extension_receiver_tsbpd_delay p = u16 (bit_or (p 8 << 8) (p 9))

unfoldable pub set_handshake_extension_sender_tsbpd_delay : Bytes → ℕ → Bytes
set_handshake_extension_sender_tsbpd_delay p sender_tsbpd_delay =
    let p1 = put p 10 (bit_and (sender_tsbpd_delay >> 8) 0xff) in
    put p1 11 (bit_and sender_tsbpd_delay 0xff)

unfoldable pub get_handshake_extension_sender_tsbpd_delay : Bytes → ℕ
get_handshake_extension_sender_tsbpd_delay p = u16 (bit_or (p 10 << 8) (p 11))

unfoldable pub get_handshake_extension_buf : Bytes → Bytes
get_handshake_extension_buf p = at p handshake_cif_size

unfoldable pub set_handshake_extension_srt_version : Bytes → ℕ → ℕ → ℕ → Bytes
set_handshake_extension_srt_version p major minor patch =
    let version = bit_or (bit_or (major << 16) (minor << 8)) patch in
    let p1 = put p 0 (bit_and (version >> 24) 0xff) in
    let p2 = put p1 1 (bit_and (version >> 16) 0xff) in
    let p3 = put p2 2 (bit_and (version >> 8) 0xff) in put p3 3 (bit_and version 0xff)

-- `*major`, `*minor` and `*patch`
unfoldable pub get_handshake_extension_srt_version : Bytes → ℕ × ℕ × ℕ
get_handshake_extension_srt_version p =
    let version = u32 (bit_or (bit_or (bit_or (p 0 << 24) (p 1 << 16)) (p 2 << 8)) (p 3)) in
    (version >> 16, bit_and (version >> 8) 0xff, bit_and version 0xff)

-- `while (n)` of the check, on `ext` with `n` bytes left; each round takes four bytes at least.
unfoldable pub check_extensions : ℕ → Bytes → ℕ → Bool
unfolding get_handshake_extension_len
check_extensions zero ext n = false
check_extensions (suc fuel) ext n =
    let n' = n - handshake_cif_extension_min_size in
    let extension_len = u16 (4 * get_handshake_extension_len ext) in
    let rest =
      check_extensions fuel (at ext (handshake_cif_extension_min_size + extension_len))
        (n' - extension_len) in
    if n == 0
    then true
    else if ltb n handshake_cif_extension_min_size
    then false
    else if ltb n' extension_len
    then false
    else rest

unfoldable pub check_handshake : Bytes → ℕ → Bool
unfolding get_handshake_version get_handshake_extension check_extensions get_handshake_extension_buf
check_handshake p n =
    let v = get_handshake_version p in
    let ext = get_handshake_extension p in
    if ltb n handshake_cif_size
    then false
    else if ltb v handshake_version_min
    then false
    else if ltb handshake_version v
    then false
    else if v == handshake_version && flag ext && ext != magic_code
    then check_extensions (n + 1) (get_handshake_extension_buf p) (n - handshake_cif_size)
    else true

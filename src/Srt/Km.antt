-- ===== src/Srt/Km.antt =====
-- haivision/srt.h: messages of key material.
use bitstream.Base.{
  not_u8, ℕ, ◌+◌, ◌*◌, ◌/◌, bit_and, bit_or, Bool, false, ◌&&◌, ◌||◌, ltb, ◌==◌, ◌!=◌,
  if◌then◌else◌, flag, u8, ◌>>◌, Bytes, put, memcpy, at,
}

abbrev pub kmreq_common_size : ℕ
kmreq_common_size = 32

abbrev pub kmreq_cipher_none : ℕ
kmreq_cipher_none = 0

abbrev pub kmreq_cipher_aes_ecb : ℕ
kmreq_cipher_aes_ecb = 1

abbrev pub kmreq_cipher_aes_ctr : ℕ
kmreq_cipher_aes_ctr = 2

abbrev pub kmreq_cipher_aes_cbc : ℕ
kmreq_cipher_aes_cbc = 3

abbrev pub kmreq_cipher_aes_gcm : ℕ
kmreq_cipher_aes_gcm = 4

abbrev pub kmreq_cipher_aes : ℕ
kmreq_cipher_aes = kmreq_cipher_aes_ctr

abbrev pub kmreq_auth_none : ℕ
kmreq_auth_none = 0

abbrev pub kmreq_auth_aes_gcm : ℕ
kmreq_auth_aes_gcm = 1

unfoldable pub km_get_kk : Bytes → ℕ
km_get_kk p = bit_and (p 3) 3

unfoldable pub km_set_kk : Bytes → ℕ → Bytes
km_set_kk p kk = put p 3 (bit_or (bit_and (p 3) (not_u8 3)) kk)

unfoldable pub km_get_cipher : Bytes → ℕ
km_get_cipher p = p 8

unfoldable pub km_set_cipher : Bytes → ℕ → Bytes
km_set_cipher p cipher = put p 8 cipher

unfoldable pub km_get_auth : Bytes → ℕ
km_get_auth p = p 9

unfoldable pub km_set_auth : Bytes → ℕ → Bytes
km_set_auth p auth = put p 9 auth

unfoldable pub km_get_klen : Bytes → ℕ
km_get_klen p = p 15

unfoldable pub km_set_klen : Bytes → ℕ → Bytes
km_set_klen p klen = put p 15 klen

unfoldable pub km_get_salt : Bytes → Bytes
km_get_salt p = at p 16

unfoldable pub km_set_salt : Bytes → Bytes → Bytes
km_set_salt p salt = memcpy p 16 salt 0 (128 / 8)

unfoldable pub km_get_wrap : Bytes → Bytes
km_get_wrap p = at p 32

unfoldable pub check_km : Bytes → ℕ → Bool
unfolding km_get_kk km_get_cipher km_get_auth km_get_klen
check_km p n =
    let kk = km_get_kk p in
    let cipher = km_get_cipher p in
    let auth = km_get_auth p in
    let klen = km_get_klen p in
    if ltb n kmreq_common_size
    then false
    else if flag (bit_and (p 0) 0x80)
    then false
    else if bit_and (p 0 >> 4) 7 != 1
    then false
    else if bit_and (p 0) 0xf != 2
    then false
    else if p 1 != 0x20 || p 2 != 0x29
    then false
    else if flag (bit_and (p 3) 0xfc)
    then false
    else if kk == 0
    then false
    else if flag (p 4) || (flag (p 5) || (flag (p 6) || flag (p 7)))
    then false
    else if cipher != kmreq_cipher_none
        && (cipher != kmreq_cipher_aes_ctr && cipher != kmreq_cipher_aes_gcm)
    then false
    else if auth != kmreq_auth_none && auth != kmreq_auth_aes_gcm
    then false
    else if cipher == kmreq_cipher_aes_gcm && auth != kmreq_auth_aes_gcm
    then false
    else if p 10 != 2
    then false
    else if flag (p 11)
    then false
    else if flag (p 12) || flag (p 13)
    then false
    else if p 14 != 4
    then false
    else if klen != 4 && (klen != 6 && klen != 8)
    then false
    else n == kmreq_common_size + 8 + u8 (klen * 4) * (if kk == 3 then 2 else 1)

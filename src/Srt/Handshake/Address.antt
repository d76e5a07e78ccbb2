-- ===== src/Srt/Handshake/Address.antt =====
-- haivision/srt.h: the address of the peer in a handshake. A `struct sockaddr` is its family and the
-- words that `memcpy` reads from its address.
use bitstream.Base.{
  ℕ, ◌+◌, ◌/◌, ◌%◌, ◌^◌, ◌≤◌, ◌<◌, bit_and, bit_or, ◌≡◌, refl, ◌∙◌, not, ◌&&◌, arith, if◌then◌else◌,
  flag, u32, ◌<<◌, ◌>>◌, Bytes, put, memset,
}
use bitstream.Base.Bits.{masks, bit_or_word}

-- `sa_family`: AF_INET, AF_INET6, and the others.
pub data Address : Type 0 where
  inet : ℕ → Address
  inet6 : ℕ → ℕ → ℕ → ℕ → Address
  other : Address

-- The four assignments of a word.
unfoldable pub put_ip : Bytes → ℕ → ℕ → Bytes
put_ip p o ip =
    let p1 = put p o (bit_and (ip >> 24) 0xff) in
    let p2 = put p1 (o + 1) (bit_and (ip >> 16) 0xff) in
    let p3 = put p2 (o + 2) (bit_and (ip >> 8) 0xff) in put p3 (o + 3) (bit_and ip 0xff)

unfoldable pub get_ip : Bytes → ℕ → ℕ
get_ip p o =
    u32 (bit_or (bit_or (bit_or (p o << 24) (p (o + 1) << 16)) (p (o + 2) << 8)) (p (o + 3)))

unfoldable pub set_handshake_ip : Bytes → Address → Bytes
unfolding put_ip
set_handshake_ip p (inet ip) = memset (put_ip p 32 ip) 36 0 12
set_handshake_ip p (inet6 a b c d) = put_ip (put_ip (put_ip (put_ip p 32 a) 36 b) 40 c) 44 d
set_handshake_ip p other = p

unfoldable pub get_handshake_ip : Bytes → Address
unfolding get_ip
get_handshake_ip p =
    let ip0 = get_ip p 32 in
    let ip1 = get_ip p 36 in
    let ip2 = get_ip p 40 in
    let ip3 = get_ip p 44 in
    if not (flag ip1) && (not (flag ip2) && not (flag ip3)) then inet ip0 else inet6 ip0 ip1 ip2 ip3

byte_lem : (x : ℕ) → bit_and x 0xff % 256 ≡ x % 256
byte_lem x = omega masks

get_ip-put_ip : (p : Bytes) (o ip : ℕ) → ip < 2 ^ 32 → get_ip (put_ip p o ip) o ≡ ip
unfolding get_ip put_ip
get_ip-put_ip p o ip h =
    let b0 : put_ip p o ip o ≡ ip / 16777216 % 256 = ground (arith, byte_lem (ip / 16777216)) in
    let b1 : put_ip p o ip (o + 1) ≡ ip / 65536 % 256 = ground (arith, byte_lem (ip / 65536)) in
    let b2 : put_ip p o ip (o + 2) ≡ ip / 256 % 256 = ground (arith, byte_lem (ip / 256)) in
    let b3 : put_ip p o ip (o + 3) ≡ ip % 256 = ground (arith, byte_lem (ip)) in
    rw (b0, b1, b2, b3)
      (omega (
        arith,
        bit_or_word (ip / 16777216 % 256) (ip / 65536 % 256) (ip / 256 % 256) (ip % 256)
            (omega arith) (omega arith) (omega arith) (omega arith),
      ))

-- Equal bytes are equal words.
get_ip_congr :
    (p q : Bytes) (o : ℕ) → ((i : ℕ) → o ≤ i → i < o + 4 → q i ≡ p i) → get_ip q o ≡ get_ip p o
unfolding get_ip
get_ip_congr p q o h =
    rw
      (
        h o (omega arith) (omega arith),
        h (o + 1) (omega arith) (omega arith),
        h (o + 2) (omega arith) (omega arith),
        h (o + 3) (omega arith) (omega arith),
      )
      refl

get_ip_kept : (p : Bytes) (o k ip : ℕ) → o + 4 ≤ k → get_ip (put_ip p k ip) o ≡ get_ip p o
get_ip_kept p o k ip h = get_ip_congr p (put_ip p k ip) o λ i g l. kept i l
  where
    kept : (i : ℕ) → i < o + 4 → put_ip p k ip i ≡ p i
    kept i l = unfold put_ip in ground arith

-- What a handshake can say: words of 32 bits.
abbrev pub IsAddress : Address → Type 0
IsAddress (inet ip) = ip < 2 ^ 32
IsAddress (inet6 a b c d) = (a < 2 ^ 32) × (b < 2 ^ 32) × (c < 2 ^ 32) × (d < 2 ^ 32)
IsAddress other = ⊥

-- An IPv6 address that has only zeros behind its first word looks like an IPv4 address.
abbrev pub as_read : Address → Address
as_read (inet ip) = inet ip
as_read (inet6 a b c d) =
    if not (flag b) && (not (flag c) && not (flag d)) then inet a else inet6 a b c d
as_read other = other

-- An IPv4 or IPv6 address that `srt_set_handshake_ip` writes is read back by `srt_get_handshake_ip`,
-- but for an IPv6 address with only zeros behind its first word, which comes back as IPv4.
pub get_handshake_ip-set_handshake_ip :
    (p : Bytes) (a : Address) → IsAddress a → get_handshake_ip (set_handshake_ip p a) ≡ as_read a
unfolding get_handshake_ip set_handshake_ip
get_handshake_ip-set_handshake_ip p (inet ip) h =
    let q = put_ip p 32 ip in
    let ip0 : get_ip (memset q 36 0 12) 32 ≡ ip =
      get_ip_congr q (memset q 36 0 12) 32 (λ i g l. ground arith) ∙ get_ip-put_ip p 32 ip h in
    rw ip0 refl
get_handshake_ip-set_handshake_ip p (inet6 a b c d) (ha, hb, hc, hd) =
    let q1 = put_ip p 32 a in
    let q2 = put_ip q1 36 b in
    let q3 = put_ip q2 40 c in
    rw
      (
        get_ip-put_ip q3 44 d hd,
        get_ip_kept q3 40 44 d (omega arith),
        get_ip-put_ip q2 40 c hc,
        get_ip_kept q3 36 44 d (omega arith),
        get_ip_kept q2 36 40 c (omega arith),
        get_ip-put_ip q1 36 b hb,
        get_ip_kept q3 32 44 d (omega arith),
        get_ip_kept q2 32 40 c (omega arith),
        get_ip_kept q1 32 36 b (omega arith),
        get_ip-put_ip p 32 a ha,
      )
      refl
get_handshake_ip-set_handshake_ip p other h = absurd h

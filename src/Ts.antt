-- ===== src/Ts.antt =====
-- mpeg/ts.h: the transport stream packet.
pub mod Adaptation
pub mod Header
pub mod Payload
mod Tests
use bitstream.Base.{
  ℕ, ◌+◌, ◌-◌, ◌%◌, ◌<◌, bit_and, bit_or, Bool, Bytes, put, memset, at, u8, u16, u64, not_u8, ◌<<◌,
  ◌>>◌, ltb, leb, ◌==◌, ◌!=◌, if◌then◌else◌, not,
}

-- TS_SIZE, TS_HEADER_SIZE, TS_SYNC
abbrev pub size : ℕ
size = 188

abbrev pub header_size : ℕ
header_size = 4

abbrev pub sync : ℕ
sync = 0x47

unfoldable pub init : Bytes → Bytes
init p = put (put (put (put p 0 sync) 1 0x0) 2 0x0) 3 0x0

unfoldable pub set_transporterror : Bytes → Bytes
set_transporterror p = put p 1 (bit_or (p 1) 0x80)

unfoldable pub get_transporterror : Bytes → Bool
get_transporterror p = bit_and (p 1) 0x80 != 0

unfoldable pub set_unitstart : Bytes → Bytes
set_unitstart p = put p 1 (bit_or (p 1) 0x40)

unfoldable pub get_unitstart : Bytes → Bool
get_unitstart p = bit_and (p 1) 0x40 != 0

unfoldable pub set_transportpriority : Bytes → Bytes
set_transportpriority p = put p 1 (bit_or (p 1) 0x20)

unfoldable pub get_transportpriority : Bytes → Bool
get_transportpriority p = bit_and (p 1) 0x20 != 0

unfoldable pub set_pid : Bytes → ℕ → Bytes
set_pid p pid =
    let p1 = put p 1 (bit_and (p 1) (not_u8 0x1f)) in
    let p2 = put p1 1 (bit_or (p1 1) (bit_and (pid >> 8) 0x1f)) in put p2 2 (bit_and pid 0xff)

unfoldable pub get_pid : Bytes → ℕ
get_pid p = u16 (bit_or (bit_and (p 1) 0x1f << 8) (p 2))

unfoldable pub set_cc : Bytes → ℕ → Bytes
set_cc p cc =
    let p1 = put p 3 (bit_and (p 3) (not_u8 0xf)) in put p1 3 (bit_or (p1 3) (bit_and cc 0xf))

unfoldable pub get_cc : Bytes → ℕ
get_cc p = bit_and (p 3) 0xf

unfoldable pub set_payload : Bytes → Bytes
set_payload p = put p 3 (bit_or (p 3) 0x10)

unfoldable pub has_payload : Bytes → Bool
has_payload p = bit_and (p 3) 0x10 != 0

-- The bytes behind the length are the flags, 0, and stuffing.
unfoldable pub set_adaptation : Bytes → ℕ → Bytes
set_adaptation p length =
    let p1 = put p 3 (bit_or (p 3) 0x20) in
    let p2 = put p1 4 length in
    let p3 = if length != 0 then put p2 5 0x0 else p2 in
    if ltb 1 length then memset p3 6 0xff (length - 1) else p3

unfoldable pub has_adaptation : Bytes → Bool
has_adaptation p = bit_and (p 3) 0x20 != 0

unfoldable pub get_adaptation : Bytes → ℕ
get_adaptation p = p 4

unfoldable pub set_scrambling : Bytes → ℕ → Bytes
set_scrambling p scrambling =
    let p1 = put p 3 (bit_and (p 3) (not_u8 0xc0)) in put p1 3 (bit_or (p1 3) (scrambling << 6))

unfoldable pub get_scrambling : Bytes → ℕ
get_scrambling p = bit_and (p 3) 0xc0 >> 6

unfoldable pub validate : Bytes → Bool
validate p = p 0 == sync

unfoldable pub pad : Bytes → Bytes
unfolding init set_pid set_cc set_payload
pad p = memset (set_payload (set_cc (set_pid (init p) 0x1fff) 0)) 4 0xff (size - 4)

-- The pointers that these return are offsets from the start of the packet.
unfoldable pub payload : Bytes → ℕ
unfolding has_payload has_adaptation get_adaptation
payload p =
    if not (has_payload p)
    then size
    else if not (has_adaptation p)
    then header_size
    else header_size + 1 + get_adaptation p

unfoldable pub section : Bytes → ℕ
unfolding get_unitstart payload
section p = if not (get_unitstart p) then payload p else payload p + 1

unfoldable pub next_section : Bytes → ℕ
unfolding get_unitstart payload
next_section p =
    if not (get_unitstart p)
    then size
    else if leb size (payload p)
    then size
    else payload p + p (payload p) + 1

unfoldable pub set_discontinuity : Bytes → Bytes
set_discontinuity p = put p 5 (bit_or (p 5) 0x80)

unfoldable pub clear_discontinuity : Bytes → Bytes
clear_discontinuity p = put p 5 (bit_and (p 5) (not_u8 0x80))

unfoldable pub has_discontinuity : Bytes → Bool
has_discontinuity p = bit_and (p 5) 0x80 != 0

unfoldable pub set_randomaccess : Bytes → Bytes
set_randomaccess p = put p 5 (bit_or (p 5) 0x40)

unfoldable pub has_randomaccess : Bytes → Bool
has_randomaccess p = bit_and (p 5) 0x40 != 0

unfoldable pub set_streampriority : Bytes → Bytes
set_streampriority p = put p 5 (bit_or (p 5) 0x20)

unfoldable pub set_pcr : Bytes → ℕ → Bytes
set_pcr p pcr =
    let p5 = put p 5 (bit_or (p 5) 0x10) in
    let p6 = put p5 6 (bit_and (pcr >> 25) 0xff) in
    let p7 = put p6 7 (bit_and (pcr >> 17) 0xff) in
    let p8 = put p7 8 (bit_and (pcr >> 9) 0xff) in
    let p9 = put p8 9 (bit_and (pcr >> 1) 0xff) in
    let p10 = put p9 10 (bit_or 0x7e (bit_and (u64 (pcr << 7)) 0x80)) in put p10 11 0

unfoldable pub set_pcrext : Bytes → ℕ → Bytes
set_pcrext p pcr_ext =
    let p1 = put p 10 (bit_or (p 10) (bit_and (pcr_ext >> 8) 0x1)) in
    put p1 11 (bit_and pcr_ext 0xff)

unfoldable pub has_pcr : Bytes → Bool
has_pcr p = bit_and (p 5) 0x10 != 0

unfoldable pub get_pcr : Bytes → ℕ
get_pcr p =
    bit_or (bit_or (bit_or (bit_or (p 6 << 25) (p 7 << 17)) (p 8 << 9)) (p 9 << 1)) (p 10 >> 7)

unfoldable pub get_pcrext : Bytes → ℕ
get_pcrext p = bit_or (bit_and (p 10) 1 << 8) (p 11)

unfoldable pub check_duplicate : ℕ → ℕ → Bool
check_duplicate cc last_cc = last_cc == cc

-- The difference may be negative in C; 256 is added first since `-` stops at 0 here, and a
-- multiple of 16 does not change whether the remainder is 0.
unfoldable pub check_discontinuity : ℕ → ℕ → Bool
check_discontinuity cc last_cc = (last_cc + 17 + 256 - cc) % 16 != 0

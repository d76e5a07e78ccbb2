-- ===== src/Id3.antt =====
-- id3/id3v2.h: the header of a tag, its flags and sizes. A pointer into the tag is the offset from
-- its start, and NULL is `none`.
pub mod Synchsafe
pub mod Header
pub mod Frame
pub mod FrameFlags
pub mod Unsync
pub mod Walk
pub mod Whole
mod Tests
use bitstream.Base.{
  ℕ, ◌+◌, ◌%◌, bit_and, bit_or, Bool, ◌&&◌, Option, none, some, Bytes, put, put_at, at, u8, u32,
  not_u8, ◌<<◌, ◌>>◌, ◌==◌, ◌!=◌, if◌then◌else◌,
}

-- ID3V2_HEADER_SIZE, ID3V2_FOOTER_SIZE, ID3V2_FRAME_HEADER_SIZE
abbrev pub header_size : ℕ
header_size = 10

abbrev pub footer_size : ℕ
footer_size = 10

abbrev pub frame_header_size : ℕ
frame_header_size = 10

-- The four rounds of the loop, in `uint32_t`.
unfoldable pub unsynchsafe : Bytes → ℕ
unsynchsafe p = u32 (u32 (u32 (u32 (0 + (p 0 << 21)) + (p 1 << 14)) + (p 2 << 7)) + (p 3 << 0))

unfoldable pub synchsafe : Bytes → ℕ → Bytes
synchsafe p v =
    put
      (put (put (put p 0 (bit_and (v >> 21) 0x7f)) 1 (bit_and (v >> 14) 0x7f)) 2
        (bit_and (v >> 7) 0x7f))
      3 (bit_and (v >> 0) 0x7f)

unfoldable pub check_tag : Bytes → Bool
check_tag p = p 0 == b'I' && (p 1 == b'D' && p 2 == b'3')

unfoldable pub check_footer_tag : Bytes → Bool
check_footer_tag p = p 0 == b'3' && (p 1 == b'D' && p 2 == b'I')

unfoldable pub set_tag : Bytes → Bytes
set_tag p = put (put (put p 0 b'I') 1 b'D') 2 b'3'

unfoldable pub set_footer_tag : Bytes → Bytes
set_footer_tag p = put (put (put p 0 b'3') 1 b'D') 2 b'I'

unfoldable pub get_version_major : Bytes → ℕ
get_version_major p = p 3

unfoldable pub set_version_major : Bytes → ℕ → Bytes
set_version_major p major = put p 3 major

unfoldable pub get_version_rev : Bytes → ℕ
get_version_rev p = p 4

unfoldable pub set_version_rev : Bytes → ℕ → Bytes
set_version_rev p rev = put p 4 rev

unfoldable pub get_size : Bytes → ℕ
unfolding unsynchsafe
get_size p = unsynchsafe (at p 6)

unfoldable pub set_size : Bytes → ℕ → Bytes
unfolding synchsafe
set_size p size = put_at p 6 (synchsafe (at p 6) size)

-- ID3V2_FLAG_UNSYNCHRONISATION and the next three
abbrev pub flag_unsynchronisation : ℕ
flag_unsynchronisation = 0x80

abbrev pub flag_extended_header : ℕ
flag_extended_header = 0x40

abbrev pub flag_experimental : ℕ
flag_experimental = 0x20

abbrev pub flag_footer : ℕ
flag_footer = 0x10

unfoldable pub unset_flags : Bytes → Bytes
unset_flags p = put p 5 0

unfoldable pub has_flag : Bytes → ℕ → Bool
has_flag p mask = bit_and (p 5) mask != 0

unfoldable pub set_flag : Bytes → ℕ → Bytes
set_flag p mask = put p 5 (bit_or (p 5) mask)

unfoldable pub unset_flag : Bytes → ℕ → Bytes
unset_flag p mask = put p 5 (bit_and (p 5) (not_u8 mask))

-- What the macro ID3V2_FLAG declares for each flag.
unfoldable pub has_unsynchronisation : Bytes → Bool
unfolding has_flag
has_unsynchronisation p = has_flag p flag_unsynchronisation

unfoldable pub set_unsynchronisation : Bytes → Bytes
unfolding set_flag
set_unsynchronisation p = set_flag p flag_unsynchronisation

unfoldable pub unset_unsynchronisation : Bytes → Bytes
unfolding unset_flag
unset_unsynchronisation p = unset_flag p flag_unsynchronisation

unfoldable pub has_extended_header : Bytes → Bool
unfolding has_flag
has_extended_header p = has_flag p flag_extended_header

unfoldable pub set_extended_header : Bytes → Bytes
unfolding set_flag
set_extended_header p = set_flag p flag_extended_header

unfoldable pub unset_extended_header : Bytes → Bytes
unfolding unset_flag
unset_extended_header p = unset_flag p flag_extended_header

unfoldable pub has_experimental : Bytes → Bool
unfolding has_flag
has_experimental p = has_flag p flag_experimental

unfoldable pub set_experimental : Bytes → Bytes
unfolding set_flag
set_experimental p = set_flag p flag_experimental

unfoldable pub unset_experimental : Bytes → Bytes
unfolding unset_flag
unset_experimental p = unset_flag p flag_experimental

unfoldable pub has_footer : Bytes → Bool
unfolding has_flag
has_footer p = has_flag p flag_footer

unfoldable pub set_footer : Bytes → Bytes
unfolding set_flag
set_footer p = set_flag p flag_footer

unfoldable pub unset_footer : Bytes → Bytes
unfolding unset_flag
unset_footer p = unset_flag p flag_footer

unfoldable pub init : Bytes → Bytes
init p = set_size (unset_flags (set_version_rev (set_version_major (set_tag p) 4) 0)) 0

unfoldable pub footer_get_size : Bytes → ℕ
footer_get_size p = if has_footer p then footer_size else 0

unfoldable pub get_footer : Bytes → Option ℕ
get_footer p = if has_footer p then some (header_size + get_size p) else none

unfoldable pub get_extented_header : Bytes → Option ℕ
get_extented_header p = if has_extended_header p then some header_size else none

unfoldable pub get_extented_header_size : Bytes → ℕ
get_extented_header_size p = if has_extended_header p then unsynchsafe (at p header_size) else 0

unfoldable pub get_header_size : Bytes → ℕ
get_header_size p = u32 (header_size + get_extented_header_size p)

unfoldable pub get_total_size : Bytes → ℕ
get_total_size p = u32 (header_size + get_size p + footer_get_size p)

unfoldable pub get_frames : Bytes → ℕ
get_frames p = get_header_size p

-- ===== src/Id3/Frame.antt =====
-- id3/id3v2.h: the header of a frame, from its start, and the step to the next frame of a tag.
use bitstream.Base.{
  ℕ, ◌+◌, bit_and, bit_or, Bool, false, ◌&&◌, ◌||◌, not, Option, none, some, Bytes, put, put_at, at,
  memcpy, u16, not_u8, ◌<<◌, ◌>>◌, ◌==◌, ◌!=◌, ltb, leb, if◌then◌else◌,
}
use bitstream.Id3

-- One round of the loop: the byte is a letter or a digit.
unfoldable pub validate_id_char : ℕ → Bool
validate_id_char c = not ((ltb c b'A' || ltb b'Z' c) && (ltb c b'0' || ltb b'9' c))

unfoldable pub validate_id : Bytes → Bool
unfolding validate_id_char
validate_id p =
    validate_id_char (p 0)
    && (validate_id_char (p 1) && (validate_id_char (p 2) && validate_id_char (p 3)))

-- ID3V2_FRAME_ID
unfoldable pub frame_id : ℕ → ℕ → ℕ → ℕ → ℕ
frame_id a b c d = bit_or (bit_or (bit_or (a << 24) (b << 16)) (c << 8)) (d << 0)

unfoldable pub get_id : Bytes → ℕ
unfolding frame_id
get_id p = frame_id (p 0) (p 1) (p 2) (p 3)

unfoldable pub set_id : Bytes → ℕ → Bytes
set_id p id =
    put
      (put (put (put p 0 (bit_and (id >> 24) 0xff)) 1 (bit_and (id >> 16) 0xff)) 2
        (bit_and (id >> 8) 0xff))
      3 (bit_and (id >> 0) 0xff)

unfoldable pub get_id_txt : Bytes → Bytes → Bytes
get_id_txt p id = put (memcpy id 0 p 0 4) 4 0

unfoldable pub get_size : Bytes → ℕ
unfolding Id3.unsynchsafe
get_size p = Id3.unsynchsafe (at p 4)

unfoldable pub set_size : Bytes → ℕ → Bytes
unfolding Id3.synchsafe
set_size p size = put_at p 4 (Id3.synchsafe (at p 4) size)

-- ID3V2_FRAME_FLAG_TAG_ALTER_PRESERVATION and the next seven
abbrev pub flag_tag_alter_preservation : ℕ
flag_tag_alter_preservation = 0x4000

abbrev pub flag_file_alter_preservation : ℕ
flag_file_alter_preservation = 0x2000

abbrev pub flag_read_only : ℕ
flag_read_only = 0x1000

abbrev pub flag_group_identity : ℕ
flag_group_identity = 0x40

abbrev pub flag_compression : ℕ
flag_compression = 8

abbrev pub flag_encryption : ℕ
flag_encryption = 4

abbrev pub flag_unsynchronisation : ℕ
flag_unsynchronisation = 2

abbrev pub flag_data_length_indicator : ℕ
flag_data_length_indicator = 1

unfoldable pub unset_flags : Bytes → Bytes
unset_flags p = put (put p 8 0) 9 0

unfoldable pub get_flags : Bytes → ℕ
get_flags p = u16 (bit_or (p 8 << 8) (p 9))

unfoldable pub has_flag : Bytes → ℕ → Bool
unfolding get_flags
has_flag p mask = bit_and (get_flags p) mask != 0

unfoldable pub set_flag : Bytes → ℕ → Bytes
set_flag p mask =
    let p1 = put p 8 (bit_or (p 8) (bit_and (mask >> 8) 0xff)) in
    put p1 9 (bit_or (p1 9) (bit_and mask 0xff))

unfoldable pub unset_flag : Bytes → ℕ → Bytes
unset_flag p mask =
    let p1 = put p 8 (bit_and (p 8) (not_u8 (bit_and (mask >> 8) 0xff))) in
    put p1 9 (bit_and (p1 9) (not_u8 (bit_and mask 0xff)))

-- What the macro ID3V2_FRAME_FLAG declares for the flag that the next module uses; the other seven
-- are the same three functions at their constants.
unfoldable pub has_unsynchronisation : Bytes → Bool
unfolding has_flag
has_unsynchronisation p = has_flag p flag_unsynchronisation

unfoldable pub set_unsynchronisation : Bytes → Bytes
unfolding set_flag
set_unsynchronisation p = set_flag p flag_unsynchronisation

unfoldable pub unset_unsynchronisation : Bytes → Bytes
unfolding unset_flag
unset_unsynchronisation p = unset_flag p flag_unsynchronisation

unfoldable pub get_data : ℕ → ℕ
get_data frame = frame + Id3.frame_header_size

-- The offset of the frame behind the frame `frame`, or of the first one.
unfoldable pub next_frame : Bytes → Option ℕ → Option ℕ
unfolding get_data
next_frame p frame =
    let end = Id3.header_size + Id3.get_size p in
    let next : ℕ = elim frame [
      | none ↦ Id3.get_frames p
      | some f ↦ get_data f + get_size (at p f)
    ] in
    if leb end (next + Id3.frame_header_size) then none else if p next == 0 then none else some next

unfoldable pub is : Bytes → ℕ → Bool
is p id = get_id p == id

unfoldable pub validate : Bytes → Bool
unfolding validate_id
validate p = if not (validate_id p) then false else leb 1 (get_size p)

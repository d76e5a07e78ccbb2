-- ===== src/Id3/Tests.antt =====
-- A tag with one frame, whose content holds two bytes that look like a start of a stream.
use bitstream.Base.{
  ◌∙◌, ◌↔◌, ◌-◌, some, length, ltb, ◌+◌, ◌≡◌, refl, Bool, true, false, Bytes, IsBytes, ◌==◌,
  if◌then◌else◌, arith,
}
use bitstream.Id3
use bitstream.Id3.Frame
use bitstream.Id3.Header.{tag_setters, HeaderLaws}
use bitstream.Id3.Unsync
use bitstream.Id3.Unsync.Zeros
use bitstream.Id3.Unsync.Ends.{content, Holds}
use bitstream.Id3.Unsync.RoundTrip.{frame_undo-frame_unsynchronise, undone_keeps_flag}
use bitstream.Id3.Walk
use bitstream.Id3.Walk.Accepts.{validate-IsTag, IsTag}

empty : Bytes
empty i = 0

-- The frame `TIT2` with the content 00 ff 00 ff e1 41.
abbrev frame : Bytes
frame i =
    if i == 0
    then b'T'
    else if i == 1
    then b'I'
    else if i == 2
    then b'T'
    else if i == 3
    then b'2'
    else if i == 7
    then 6
    else if i == 11
    then 0xff
    else if i == 13
    then 0xff
    else if i == 14
    then 0xe1
    else if i == 15
    then 0x41
    else 0

frame-IsBytes : IsBytes frame
frame-IsBytes i = ground arith

plain : Frame.has_unsynchronisation frame ≡ false
unfolding Frame.has_unsynchronisation
plain = refl

two_zeros : Zeros.zeros (content frame) ≡ 2
unfolding Zeros.zeros Unsync.starts_sync Frame.get_size
two_zeros = refl

eight_bytes : length (Zeros.expand (content frame)) ≡ 8
unfolding Frame.get_size
eight_bytes = Zeros.length-expand (content frame) ∙ rw two_zeros refl

six_bytes : Frame.get_size frame ≡ 6
unfolding Frame.get_size
six_bytes = refl

frame_undo-frame_unsynchronise_example :
    Holds frame
      (content frame)
      ((Unsync.frame_undo_unsynchronise ((Unsync.frame_unsynchronise frame empty 30).0) empty 20).0)
    × ((Unsync.frame_undo_unsynchronise ((Unsync.frame_unsynchronise frame empty 30).0) empty 20).1
        ≡ 10 + Frame.get_size frame)
frame_undo-frame_unsynchronise_example =
    frame_undo-frame_unsynchronise frame empty empty 30 20 frame-IsBytes plain
      (omega (arith, eight_bytes)) (omega (arith, eight_bytes)) (omega (arith, six_bytes))

undone_keeps_flag_example :
    Frame.has_unsynchronisation
      ((Unsync.frame_undo_unsynchronise ((Unsync.frame_unsynchronise frame empty 30).0) empty 20).0)
    ≡ true
undone_keeps_flag_example =
    undone_keeps_flag frame empty empty 30 20 frame-IsBytes plain (omega (arith, two_zeros))
      (omega (arith, eight_bytes)) (omega (arith, eight_bytes)) (omega (arith, six_bytes))

-- A tag of 18 bytes of content: the frame above and two bytes of padding.
abbrev tag : Bytes
tag i =
    if i == 0
    then b'I'
    else if i == 1
    then b'D'
    else if i == 2
    then b'3'
    else if i == 3
    then 4
    else if i == 9
    then 18
    else if ltb i 10
    then 0
    else frame (i - 10)

validate-IsTag_example : (b : Bool) × (Walk.validate tag 28 ≡ some b) × ((b ≡ true) ↔ IsTag tag 28)
validate-IsTag_example = validate-IsTag tag 28

accepts : Walk.validate tag 28 ≡ some true
unfolding Walk.validate Id3.check_tag Id3.get_version_major Id3.get_version_rev Id3.get_total_size
    Id3.get_size Id3.footer_get_size Id3.has_footer Walk.validate_end Walk.walk Frame.next_frame
    Id3.get_frames Id3.get_header_size Id3.get_extented_header_size Id3.has_extended_header
    Frame.get_size Frame.validate Id3.get_footer Frame.get_data Frame.validate_id
    Frame.validate_id_char Walk.skip_padding Walk.validate_footer Id3.check_footer_tag
    Id3.has_experimental Id3.has_flag Id3.has_unsynchronisation Id3.unsynchsafe
accepts = refl

tag-IsBytes : IsBytes tag
tag-IsBytes i = ground arith

tag_setters_example : HeaderLaws tag 3 1 99
tag_setters_example = tag_setters tag 3 1 99 tag-IsBytes (omega arith) (omega arith) (omega arith)

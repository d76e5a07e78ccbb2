-- ===== src/Id3/FrameFlags.antt =====
-- id3/id3v2.h: what the macro ID3V2_FRAME_FLAG declares for the flags that nothing else there uses,
-- and the encodings of text.
use bitstream.Base.{◌==◌, put, memcpy, if◌then◌else◌, ℕ, Bool, Bytes}
use bitstream.Id3.Frame
use Prim.Native.String.{String}

unfoldable pub has_tag_alter_preservation : Bytes → Bool
unfolding Frame.has_flag
has_tag_alter_preservation p = Frame.has_flag p Frame.flag_tag_alter_preservation

unfoldable pub set_tag_alter_preservation : Bytes → Bytes
unfolding Frame.set_flag
set_tag_alter_preservation p = Frame.set_flag p Frame.flag_tag_alter_preservation

unfoldable pub unset_tag_alter_preservation : Bytes → Bytes
unfolding Frame.unset_flag
unset_tag_alter_preservation p = Frame.unset_flag p Frame.flag_tag_alter_preservation

unfoldable pub has_file_alter_preservation : Bytes → Bool
unfolding Frame.has_flag
has_file_alter_preservation p = Frame.has_flag p Frame.flag_file_alter_preservation

unfoldable pub set_file_alter_preservation : Bytes → Bytes
unfolding Frame.set_flag
set_file_alter_preservation p = Frame.set_flag p Frame.flag_file_alter_preservation

unfoldable pub unset_file_alter_preservation : Bytes → Bytes
unfolding Frame.unset_flag
unset_file_alter_preservation p = Frame.unset_flag p Frame.flag_file_alter_preservation

unfoldable pub has_read_only : Bytes → Bool
unfolding Frame.has_flag
has_read_only p = Frame.has_flag p Frame.flag_read_only

unfoldable pub set_read_only : Bytes → Bytes
unfolding Frame.set_flag
set_read_only p = Frame.set_flag p Frame.flag_read_only

unfoldable pub unset_read_only : Bytes → Bytes
unfolding Frame.unset_flag
unset_read_only p = Frame.unset_flag p Frame.flag_read_only

unfoldable pub has_group_identity : Bytes → Bool
unfolding Frame.has_flag
has_group_identity p = Frame.has_flag p Frame.flag_group_identity

unfoldable pub set_group_identity : Bytes → Bytes
unfolding Frame.set_flag
set_group_identity p = Frame.set_flag p Frame.flag_group_identity

unfoldable pub unset_group_identity : Bytes → Bytes
unfolding Frame.unset_flag
unset_group_identity p = Frame.unset_flag p Frame.flag_group_identity

unfoldable pub has_compression : Bytes → Bool
unfolding Frame.has_flag
has_compression p = Frame.has_flag p Frame.flag_compression

unfoldable pub set_compression : Bytes → Bytes
unfolding Frame.set_flag
set_compression p = Frame.set_flag p Frame.flag_compression

unfoldable pub unset_compression : Bytes → Bytes
unfolding Frame.unset_flag
unset_compression p = Frame.unset_flag p Frame.flag_compression

unfoldable pub has_encryption : Bytes → Bool
unfolding Frame.has_flag
has_encryption p = Frame.has_flag p Frame.flag_encryption

unfoldable pub set_encryption : Bytes → Bytes
unfolding Frame.set_flag
set_encryption p = Frame.set_flag p Frame.flag_encryption

unfoldable pub unset_encryption : Bytes → Bytes
unfolding Frame.unset_flag
unset_encryption p = Frame.unset_flag p Frame.flag_encryption

unfoldable pub has_data_length_indicator : Bytes → Bool
unfolding Frame.has_flag
has_data_length_indicator p = Frame.has_flag p Frame.flag_data_length_indicator

unfoldable pub set_data_length_indicator : Bytes → Bytes
unfolding Frame.set_flag
set_data_length_indicator p = Frame.set_flag p Frame.flag_data_length_indicator

unfoldable pub unset_data_length_indicator : Bytes → Bytes
unfolding Frame.unset_flag
unset_data_length_indicator p = Frame.unset_flag p Frame.flag_data_length_indicator

-- ID3V2_FRAME_TEXT_ENCODING_ISO_8859_1 to ID3V2_FRAME_TEXT_ENCODING_UTF_8
abbrev pub text_encoding_iso_8859_1 : ℕ
text_encoding_iso_8859_1 = 0

abbrev pub text_encoding_utf_16 : ℕ
text_encoding_utf_16 = 1

abbrev pub text_encoding_utf_16be : ℕ
text_encoding_utf_16be = 2

abbrev pub text_encoding_utf_8 : ℕ
text_encoding_utf_8 = 3

unfoldable pub text_encoding_str : ℕ → String
text_encoding_str encoding =
    if encoding == text_encoding_iso_8859_1
    then "ISO-8859-1"
    else if encoding == text_encoding_utf_16
    then "UTF-16"
    else if encoding == text_encoding_utf_16be
    then "UTF-16BE"
    else if encoding == text_encoding_utf_8
    then "UTF-8"
    else "Unknown"

-- `n` is `strlen(str)`.
unfoldable pub set_txt_enc : Bytes → ℕ → Bytes → ℕ → Bytes
set_txt_enc p encoding str n = memcpy (put p 0 encoding) 1 str 0 n

-- ===== src/Id3/Walk.antt =====
-- id3/id3v2.h: the validation of a whole tag.
pub mod Rules
pub mod Valid
pub mod Accepts
use bitstream.Base.{
  ℕ, zero, suc, ◌+◌, ◌-◌, Bool, true, false, ◌&&◌, ◌||◌, not, Option, none, some, Bytes, at, ◌==◌,
  ◌!=◌, ltb, if◌then◌else◌,
}
use bitstream.Id3
use bitstream.Id3.Frame

-- Two flags are equal.
abbrev pub same : Bool → Bool → Bool
same true b = b
same false b = not b

unfoldable pub validate_footer : Bytes → Bytes → Bool
validate_footer p footer =
    Id3.check_footer_tag footer
    && (Id3.get_version_major p == Id3.get_version_major footer
        && (Id3.get_version_rev p == Id3.get_version_rev footer
            && (same (Id3.has_unsynchronisation p) (Id3.has_unsynchronisation footer)
                && (same (Id3.has_extended_header p) (Id3.has_extended_header footer)
                    && (same (Id3.has_experimental p) (Id3.has_experimental footer)
                        && (same (Id3.has_footer p) (Id3.has_footer footer)
                            && Id3.get_size p == Id3.get_size footer))))))

-- How the loop over the frames ends: by `return false`, or with `last`; `stuck` is out of fuel.
pub data Walked : Type 0 where
  failed stuck : Walked
  ended : Option ℕ → Walked

-- `id3v2_each_frame(p_id3v2, frame)`, from a frame on.
unfoldable pub walk : ℕ → Bytes → ℕ → Option ℕ → Option ℕ → Walked
walk zero p end frame last = stuck
walk (suc fuel) p end none last = ended last
walk (suc fuel) p end (some f) last =
    let l = f + Id3.frame_header_size + Frame.get_size (at p f) in
    let rest = walk fuel p end (Frame.next_frame p (some f)) (some l) in
    if ltb end l || not (Frame.validate (at p f)) then failed else rest

-- `while (last < end) if (*last++ != 0) return false`, with `end - last` rounds.
unfoldable pub skip_padding : ℕ → Bytes → ℕ → Bool
skip_padding zero p last = true
skip_padding (suc left) p last = p last == 0 && skip_padding left p (last + 1)

-- The part behind the loop.
unfoldable pub validate_end : Bytes → ℕ → Walked → Option Bool
unfolding skip_padding
validate_end p end failed = some false
validate_end p end stuck = none
validate_end p end (ended none) = some false
validate_end p end (ended (some last)) = elim (Id3.get_footer p) [
  | some footer ↦ some (last == footer && validate_footer p (at p footer))
  | none ↦ some (skip_padding (end - last) p last)
]

-- Each round moves on by 11 bytes at least, so two rounds more than the tag has bytes are enough.
unfoldable pub validate : Bytes → ℕ → Option Bool
validate p size =
    let end = Id3.header_size + Id3.get_size p in
    if ltb size Id3.header_size
    then some false
    else if not (Id3.check_tag p) || Id3.get_version_major p != 4 || Id3.get_version_rev p != 0
    then some false
    else if ltb size (Id3.get_total_size p)
    then some false
    else validate_end p end (walk (end + 2) p end (Frame.next_frame p none) none)

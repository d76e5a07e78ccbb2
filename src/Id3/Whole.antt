-- ===== src/Id3/Whole.antt =====
-- id3/id3v2.h: a whole tag with and without unsynchronisation, written to a buffer of limited size.
pub mod Enough
use bitstream.Base.{
  ℕ, zero, suc, ◌+◌, ◌-◌, ◌*◌, ◌^◌, Option, none, some, Bytes, put, put_at, memcpy, at, u32, ◌!=◌,
  leb, if◌then◌else◌,
}
use bitstream.Id3
use bitstream.Id3.Frame
use bitstream.Id3.Unsync

-- The buffer, `tmp` as an offset in it, the bytes that are left, `out_size`, and `end_frames`.
pub record Tag : Type 0 where
  pub buffer : Bytes
  pub tmp : ℕ
  pub size : ℕ
  pub out_size : ℕ
  pub end_frames : Option ℕ

-- The header and the extended header.
unfoldable pub begin_tag : Bytes → Bytes → ℕ → Tag
begin_tag p out size =
    let extended = Id3.get_extented_header_size p in
    let with_header : Tag =
      if leb Id3.header_size size
      then record {
        buffer = memcpy out 0 p 0 Id3.header_size;
        tmp = Id3.header_size;
        size = size - Id3.header_size;
        out_size = Id3.header_size;
        end_frames = none;
      }
      else record {
        buffer = out;
        tmp = 0;
        size = 0;
        out_size = Id3.header_size;
        end_frames = none;
      } in
    let copied = memcpy (with_header.buffer) (with_header.tmp) p Id3.header_size extended in
    if extended != 0
    then record with_header {
      buffer = if leb extended (with_header.size) then copied else with_header.buffer;
      size = if leb extended (with_header.size) then with_header.size else 0;
      out_size = u32 (with_header.out_size + extended);
    }
    else with_header

-- One frame, written by `write`, one of the two functions on a frame.
unfoldable pub tag_step : (Bytes → Bytes → ℕ → Bytes × ℕ) → Bytes → ℕ → Tag → Tag
tag_step write p f s =
    let (b, frame_size) = write (at p f) (at (s.buffer) (s.tmp)) (s.size) in
    let fits = leb frame_size (s.size) in
    record {
      buffer = put_at (s.buffer) (s.tmp) b;
      tmp = if fits then s.tmp + frame_size else s.tmp;
      size = if fits then s.size - frame_size else s.size;
      out_size = u32 (s.out_size + frame_size);
      end_frames = some (f + Id3.frame_header_size + Frame.get_size (at p f));
    }

-- `id3v2_each_frame(p_id3v2, frame)`: a frame is ten bytes or more, so as many rounds as the tag has
-- bytes are enough.
unfoldable pub tag_loop : (Bytes → Bytes → ℕ → Bytes × ℕ) → ℕ → Bytes → Option ℕ → Tag → Tag
tag_loop write zero p frame s = s
tag_loop write (suc fuel) p none s = s
tag_loop write (suc fuel) p (some f) s =
    tag_loop write fuel p (Frame.next_frame p (some f)) (tag_step write p f s)

-- The footer, changed by `mark`.
unfoldable pub end_footer : (Bytes → Bytes) → Bytes → ℕ → Tag → Tag
end_footer mark p footer s =
    let out_size = u32 (s.out_size + Id3.header_size) in
    let copied = memcpy (s.buffer) (s.tmp) p footer Id3.header_size in
    let marked =
      Id3.set_size (mark (at copied (s.tmp))) (u32 (out_size + 2 ^ 32 - 2 * Id3.header_size)) in
    record s {
      buffer = if leb Id3.header_size (s.size) then put_at copied (s.tmp) marked else s.buffer;
      out_size = out_size;
    }

-- The padding. `base` is the address of the tag, which the difference to a NULL `end_frames` shows.
unfoldable pub end_padding : ℕ → Bytes → Tag → Tag
end_padding base p s =
    let end = Id3.header_size + Id3.get_size p in
    let padding : ℕ = elim (s.end_frames) [
      | none ↦ u32 (base + end)
      | some e ↦ u32 (end + 2 ^ 32 - e)
    ] in
    if padding != 0
    then record s {
      buffer = if leb padding (s.size) then memcpy (s.buffer) (s.tmp) p end padding else s.buffer;
      out_size = u32 (s.out_size + padding);
    }
    else record s {
      buffer = if s.size != 0 then put (s.buffer) (s.tmp) 0 else s.buffer;
      out_size = u32 (s.out_size + 1);
    }

-- The flag and the size in the header that was copied.
unfoldable pub end_tag : (Bytes → Bytes) → Bytes → ℕ → Tag → Bytes × ℕ
end_tag mark p size s =
    let minus = if Id3.has_footer p then 2 * Id3.header_size else Id3.header_size in
    (
      (if leb Id3.header_size size
          then Id3.set_size (mark (s.buffer)) (u32 (s.out_size + 2 ^ 32 - minus))
          else s.buffer),
      s.out_size,
    )

unfoldable pub unsynchronise : ℕ → Bytes → Bytes → ℕ → Bytes × ℕ
unsynchronise base p out size =
    let end = Id3.header_size + Id3.get_size p in
    let total = Id3.get_total_size p in
    let s =
      tag_loop Unsync.frame_unsynchronise (end + 1) p (Frame.next_frame p none)
        (begin_tag p out size) in
    if Id3.has_unsynchronisation p
    then ((if leb total size then memcpy out 0 p 0 total else out), total)
    else end_tag Id3.set_unsynchronisation p size (
        if Id3.has_footer p
        then end_footer Id3.set_unsynchronisation p end s
        else end_padding base p s)

unfoldable pub undo_unsynchronise : Bytes → Bytes → ℕ → Bytes × ℕ
undo_unsynchronise p out size =
    let end = Id3.header_size + Id3.get_size p in
    let total = Id3.get_total_size p in
    let s =
      tag_loop Unsync.frame_undo_unsynchronise (end + 1) p (Frame.next_frame p none)
        (begin_tag p out size) in
    if Id3.has_unsynchronisation p
    then end_tag Id3.unset_unsynchronisation p size
        (if Id3.has_footer p then end_footer Id3.unset_unsynchronisation p end s else s)
    else ((if leb total size then memcpy out 0 p 0 total else out), total)

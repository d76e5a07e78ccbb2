-- ===== src/Id3/Unsync.antt =====
-- id3/id3v2.h: a frame with and without unsynchronisation, written to a buffer of limited size.
pub mod Zeros
pub mod Pour
pub mod Loops
pub mod Ends
pub mod Away
pub mod Back
pub mod RoundTrip
use bitstream.Base.{
  ℕ, zero, suc, ◌+◌, ◌-◌, ◌%◌, ◌^◌, bit_and, Bool, true, false, ◌&&◌, ◌||◌, Bytes, put, memcpy, at,
  u32, ◌==◌, ltb, leb, ◌!=◌, if◌then◌else◌,
}
use bitstream.Id3
use bitstream.Id3.Frame

-- The buffer, `tmp` as an offset in it, and the bytes that are left behind `tmp`.
pub record Out : Type 0 where
  pub buffer : Bytes
  pub tmp : ℕ
  pub size : ℕ

-- `if (size) { *tmp++ = c; size--; }`
unfoldable pub emit : Out → ℕ → Out
emit o c =
    if o.size != 0
    then record { buffer = put (o.buffer) (o.tmp) c; tmp = o.tmp + 1; size = o.size - 1 }
    else o

-- The variables of the loops.
pub record Loop : Type 0 where
  pub out : Out
  pub out_size : ℕ
  pub altered : Bool

-- The test for a zero between two bytes.
unfoldable pub starts_sync : ℕ → ℕ → Bool
starts_sync c d = c == 0xff && (bit_and d 0xe0 == 0xe0 || d == 0)

-- The body of the loop of `id3v2_frame_unsynchronise`; `n` is the size of the frame.
unfoldable pub unsync_step : Bytes → ℕ → ℕ → Loop → Loop
unsync_step frame_data n i s =
    let o = emit (s.out) (frame_data i) in
    if ltb (i + 1) n && starts_sync (frame_data i) (frame_data (i + 1))
    then record { out = emit o 0; out_size = u32 (s.out_size + 1); altered = true }
    else record { out = o; out_size = s.out_size; altered = s.altered }

-- `for (; i < n; i++)` with `left` rounds left.
unfoldable pub unsync_loop : ℕ → Bytes → ℕ → ℕ → Loop → Loop
unsync_loop zero frame_data n i s = s
unsync_loop (suc left) frame_data n i s =
    unsync_loop left frame_data n (i + 1) (unsync_step frame_data n i s)

-- The copy of the header, or no room for anything.
unfoldable pub begin_frame : Bytes → Bytes → ℕ → Out
begin_frame p out size =
    if leb Id3.frame_header_size size
    then record {
      buffer = memcpy out 0 p 0 Id3.frame_header_size;
      tmp = Id3.frame_header_size;
      size = size - Id3.frame_header_size;
    }
    else record { buffer = out; tmp = 0; size = 0 }

-- The flag and the size in the header that was copied.
unfoldable pub end_frame : Loop → ℕ → Bytes
end_frame s size =
    let b = if s.altered then Frame.set_unsynchronisation (s.out.buffer) else s.out.buffer in
    if leb Id3.frame_header_size size
    then Frame.set_size b (u32 (s.out_size + 2 ^ 32 - Id3.frame_header_size))
    else s.out.buffer

-- `*p_size` is `size` before the call; the result has the buffer and `*p_size` behind it.
unfoldable pub frame_unsynchronise : Bytes → Bytes → ℕ → Bytes × ℕ
unfolding end_frame
frame_unsynchronise p out size =
    let frame_size = Frame.get_size p in
    let out_size = u32 (Id3.frame_header_size + frame_size) in
    let start : Loop = record {
      out = begin_frame p out size;
      out_size = out_size;
      altered = false;
    } in
    let s = unsync_loop frame_size (at p (Frame.get_data 0)) frame_size 0 start in
    if Frame.has_unsynchronisation p
    then ((if leb out_size size then memcpy out 0 p 0 out_size else out), out_size)
    else (end_frame s size, s.out_size)

-- The body of the loop of `id3v2_frame_undo_unsynchronise`, and the next `i`.
unfoldable pub undo_step : Bytes → ℕ → ℕ → Loop → Loop × ℕ
undo_step frame_data n i s =
    let o = emit (s.out) (frame_data i) in
    if ltb (i + 1) n && (frame_data i == 0xff && frame_data (i + 1) == 0)
    then (record { out = o; out_size = u32 (s.out_size + 2 ^ 32 - 1); altered = s.altered }, i + 2)
    else (record { out = o; out_size = s.out_size; altered = s.altered }, i + 1)

-- `for (; i < n; i++)`: each round moves `i` on, so `n` rounds are enough.
unfoldable pub undo_loop : ℕ → Bytes → ℕ → ℕ → Loop → Loop
undo_loop zero frame_data n i s = s
undo_loop (suc fuel) frame_data n i s =
    let rest =
      undo_loop fuel frame_data n ((undo_step frame_data n i s).1)
        ((undo_step frame_data n i s).0) in
    if ltb i n then rest else s

-- Here the buffer is used also where the header does not fit.
unfoldable pub begin_undo : Bytes → Bytes → ℕ → Out
begin_undo p out size =
    if leb Id3.frame_header_size size
    then record {
      buffer = memcpy out 0 p 0 Id3.frame_header_size;
      tmp = Id3.frame_header_size;
      size = size - Id3.frame_header_size;
    }
    else record { buffer = out; tmp = 0; size = size }

unfoldable pub frame_undo_unsynchronise : Bytes → Bytes → ℕ → Bytes × ℕ
unfolding end_frame
frame_undo_unsynchronise p out size =
    let frame_size = Frame.get_size p in
    let out_size = u32 (Id3.frame_header_size + frame_size) in
    let start : Loop = record {
      out = begin_undo p out size;
      out_size = out_size;
      altered = false;
    } in
    let s = undo_loop frame_size (at p (Frame.get_data 0)) frame_size 0 start in
    if Frame.has_unsynchronisation p
    then (end_frame s size, s.out_size)
    else ((if leb out_size size then memcpy out 0 p 0 out_size else out), out_size)

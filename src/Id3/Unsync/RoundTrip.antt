-- ===== src/Id3/Unsync/RoundTrip.antt =====
-- Frames on the way out and back.
use bitstream.Base.{
  ℕ, ◌+◌, ◌^◌, ◌≤◌, ◌<◌, ◌≡◌, inl, inr, refl, sym, ap, ◌∙◌, subst, true, false, List, length, Bytes,
  IsBytes, at, ltb, leb, u32, Bool-cases, arith, memcpy,
}
use bitstream.Id3.Frame
use bitstream.Id3.Unsync
use bitstream.Id3.Unsync.{Out, Loop}
use bitstream.Id3.Unsync.Zeros.{
  slice, expand, shrink, shrink-expand, zeros, length-expand, length-slice, expand-same,
}
use bitstream.Id3.Unsync.Pour.{AllBytes, slice-AllBytes, slice-eq}
use bitstream.Id3.Unsync.Ends.{content, Holds}
use bitstream.Id3.Unsync.Away.{expand-AllBytes, unsynchronise_lem}
use bitstream.Id3.Unsync.Back.{undo_lem}

content-Holds : (p q : Bytes) (xs : List ℕ) → Holds p xs q → content q ≡ xs
content-Holds p q xs holds = ap (λ (n : ℕ). slice (at q 10) 0 n) (holds.size) ∙ holds.content_is

Holds-trans : (p q r : Bytes) (xs ys : List ℕ) → Holds p xs q → Holds q ys r → Holds p ys r
Holds-trans p q r xs ys a b = record {
  size = b.size;
  content_is = b.content_is;
  header = λ j c. b.header j c ∙ a.header j c;
  nine = b.nine;
}

get_size-eq :
    (b c : Bytes) → ((j : ℕ) → 4 ≤ j → j < 8 → b j ≡ c j) → Frame.get_size b ≡ Frame.get_size c
unfolding Frame.get_size
get_size-eq b c h = omega (
  arith,
  h 4 (omega arith) (omega arith),
  h 5 (omega arith) (omega arith),
  h 6 (omega arith) (omega arith),
  h 7 (omega arith) (omega arith),
)

-- A copy of the whole frame.
copy-Holds :
    (p q back : Bytes) (xs : List ℕ) (size : ℕ)
    → Holds p xs q
    → size ≡ 10 + length xs
    → Holds p xs (memcpy back 0 q 0 size)
copy-Holds p q back xs size a e = record {
  size = get_size-eq _ q (λ j _ c. copied j (omega (arith, e, c))) ∙ a.size;
  content_is =
      slice-eq _ (at q 10) 0 (length xs) (λ j _ c. copied (10 + j) (omega (arith, e, c)))
      ∙ a.content_is;
  header = λ j c. copied j (ground (arith, e, c)) ∙ a.header j c;
  nine = omega (arith, copied 9 (omega (arith, e)), a.nine);
}
  where
    copied : (j : ℕ) → j < size → memcpy back 0 q 0 size j ≡ q j
    copied j c = ground (arith, c)

-- The frame that the first call leaves, and the second call on it.
module _ (p q back : Bytes) (size : ℕ) (eight : p 8 < 256) (bytes : AllBytes (content p))
    (small : 10 + length (expand (content p)) < 2 ^ 28) (room : 10 + Frame.get_size p ≤ size)
    (holds : Holds p (expand (content p)) q) where
  is_content : shrink (content q) ≡ content p
  is_content = ap shrink (content-Holds p q (expand (content p)) holds) ∙ shrink-expand (content p)

  undone_set :
      Frame.has_unsynchronisation q ≡ true
      → Holds p (content p) ((Unsync.frame_undo_unsynchronise q back size).0)
        × ((Unsync.frame_undo_unsynchronise q back size).1 ≡ 10 + Frame.get_size p)
  undone_set set =
      let (kept, counted, _) =
        undo_lem q back size (omega (arith, holds.header 8 (inr refl), eight)) (holds.nine)
          (subst AllBytes (sym (content-Holds p q (expand (content p)) holds))
            (expand-AllBytes (content p) bytes))
          set
          (omega (arith, small, ap (length {A = ℕ}) (content-Holds p q (expand (content p)) holds)))
          (omega (
            arith,
            room,
            ap (length {A = ℕ}) is_content,
            length-slice (at p 10) 0 (Frame.get_size p),
          )) in
      (
        subst (λ (xs : List ℕ). Holds p xs ((Unsync.frame_undo_unsynchronise q back size).0))
            is_content
            (Holds-trans p q ((Unsync.frame_undo_unsynchronise q back size).0) (expand (content p))
              (shrink (content q)) holds kept),
        omega (
          arith,
          counted,
          ap (length {A = ℕ}) is_content,
          length-slice (at p 10) 0 (Frame.get_size p),
        ),
      )

  undone_clear :
      Frame.has_unsynchronisation q ≡ false
      → zeros (content p) ≡ 0
      → Holds p (content p) ((Unsync.frame_undo_unsynchronise q back size).0)
        × ((Unsync.frame_undo_unsynchronise q back size).1 ≡ 10 + Frame.get_size p)
  unfolding Unsync.frame_undo_unsynchronise
  undone_clear clear none_in =
      let same = subst (λ (xs : List ℕ). Holds p xs q) (expand-same (content p) none_in) holds in
      let long = length-slice (at p 10) 0 (Frame.get_size p) in
      rw (clear, fits (omega (arith, same.size, long)))
        (
          copy-Holds p q back (content p) (u32 (10 + Frame.get_size q)) same
              (omega (arith, same.size, small, long, length-expand (content p))),
          omega (arith, same.size, small, long, length-expand (content p)),
        )
    where
      fits : Frame.get_size q ≡ Frame.get_size p → leb (u32 (10 + Frame.get_size q)) size ≡ true
      fits e = ground (arith, e, room)

-- `id3v2_frame_undo_unsynchronise` undoes `id3v2_frame_unsynchronise`: of a frame of bytes without
-- the flag, whose size fits 28 bits with the zeros, written to a buffer with room for it and from
-- there to one with room for the frame, the result has the frame's size, content and identifier.
pub frame_undo-frame_unsynchronise :
    (p out back : Bytes) (size size_back : ℕ)
    → IsBytes p
    → Frame.has_unsynchronisation p ≡ false
    → 10 + length (expand (content p)) < 2 ^ 28
    → 10 + length (expand (content p)) ≤ size
    → 10 + Frame.get_size p ≤ size_back
    → Holds p (content p) (
        (Unsync.frame_undo_unsynchronise
          ((Unsync.frame_unsynchronise p out size).0)
          back
          size_back).0)
      × ((Unsync.frame_undo_unsynchronise
            ((Unsync.frame_unsynchronise p out size).0)
            back
            size_back).1
          ≡ 10 + Frame.get_size p)
frame_undo-frame_unsynchronise p out back size size_back h plain small room room_back =
    let done = unsynchronise_lem p out size h plain small in
    let bytes = slice-AllBytes (at p 10) (λ i. h (10 + i)) 0 (Frame.get_size p) in
    let q : Bytes = (Unsync.frame_unsynchronise p out size).0 in
    elim (Bool-cases (ltb 0 (zeros (content p)))) [
      | inl e ↦
          undone_set p q back size_back (h 8) bytes small room_back (done.written room)
            (done.flagged room ∙ e)
      | inr e ↦
          undone_clear p q back size_back (h 8) bytes small room_back (done.written room)
            (done.flagged room ∙ e) (ground (arith, e))
    ]

-- Where a zero was put in, the frame that comes back still has the flag, so the flag no longer says
-- how its content is stored.
pub undone_keeps_flag :
    (p out back : Bytes) (size size_back : ℕ)
    → IsBytes p
    → Frame.has_unsynchronisation p ≡ false
    → 0 < zeros (content p)
    → 10 + length (expand (content p)) < 2 ^ 28
    → 10 + length (expand (content p)) ≤ size
    → 10 + Frame.get_size p ≤ size_back
    → Frame.has_unsynchronisation (
        (Unsync.frame_undo_unsynchronise
          ((Unsync.frame_unsynchronise p out size).0)
          back
          size_back).0)
      ≡ true
undone_keeps_flag p out back size size_back h plain some_in small room room_back =
    let done = unsynchronise_lem p out size h plain small in
    let holds = done.written room in
    let q : Bytes = (Unsync.frame_unsynchronise p out size).0 in
    let bytes = slice-AllBytes (at p 10) (λ i. h (10 + i)) 0 (Frame.get_size p) in
    let same = is_content p q back size_back (h 8) bytes small room_back holds in
    (undo_lem q back size_back (omega (arith, holds.header 8 (inr refl), h 8)) (holds.nine)
      (subst AllBytes (sym (content-Holds p q (expand (content p)) holds))
        (expand-AllBytes (content p) bytes))
      (done.flagged room ∙ ground (arith, some_in))
      (omega (arith, small, ap (length {A = ℕ}) (content-Holds p q (expand (content p)) holds)))
      (omega (
        arith,
        room_back,
        ap (length {A = ℕ}) same,
        length-slice (at p 10) 0 (Frame.get_size p),
      ))).2

-- ===== src/Id3/Unsync/Back.antt =====
-- `id3v2_frame_undo_unsynchronise` on a frame with the flag.
use bitstream.Base.{
  [], ◌∷◌, ◌==◌, ◌&&◌, ◌∷◌, ℕ, ◌+◌, ◌-◌, ◌^◌, ◌≤◌, ◌<◌, ◌≡◌, inl, inr, refl, ◌∙◌, true, false, List,
  length, Bytes, at, u32, Bool-cases, if◌then◌else◌, arith, memcpy,
}
use bitstream.Id3.Frame
use bitstream.Id3.Unsync
use bitstream.Id3.Unsync.{Out, Loop}
use bitstream.Id3.Unsync.Zeros.{shrink, length-slice}
use bitstream.Id3.Unsync.Pour.{AllBytes}
use bitstream.Id3.Unsync.Ends.{content, Holds, poured_lem}
use bitstream.Id3.Unsync.Loops.{IsUndone, undo_loop_lem}

shrink-AllBytes : (xs : List ℕ) → AllBytes xs → AllBytes (shrink xs)
unfolding shrink
shrink-AllBytes [] a = tt
shrink-AllBytes (c ∷ []) a = a
shrink-AllBytes (c ∷ d ∷ xs) a = elim (Bool-cases (c == 0xff && d == 0)) [
  | inl e ↦ rw e (a.0, shrink-AllBytes xs (a.1.1))
  | inr e ↦ rw e (a.0, shrink-AllBytes (d ∷ xs) (a.1))
]

shrink-le : (xs : List ℕ) → length (shrink xs) ≤ length xs
unfolding shrink
shrink-le [] = omega arith
shrink-le (c ∷ []) = omega arith
shrink-le (c ∷ d ∷ xs) = elim (Bool-cases (c == 0xff && d == 0)) [
  | inl e ↦ rw e (omega (arith, shrink-le xs))
  | inr e ↦ rw e (omega (arith, shrink-le (d ∷ xs)))
]

-- What `id3v2_frame_undo_unsynchronise` makes of a frame with the flag.
pub undo_lem :
    (p out : Bytes) (size : ℕ)
    → p 8 < 256
    → p 9 < 256
    → AllBytes (content p)
    → Frame.has_unsynchronisation p ≡ true
    → 10 + length (content p) < 2 ^ 28
    → 10 + length (shrink (content p)) ≤ size
    → Holds p (shrink (content p)) ((Unsync.frame_undo_unsynchronise p out size).0)
      × ((Unsync.frame_undo_unsynchronise p out size).1 ≡ 10 + length (shrink (content p)))
      × (Frame.has_unsynchronisation ((Unsync.frame_undo_unsynchronise p out size).0) ≡ true)
unfolding Unsync.frame_undo_unsynchronise Frame.get_data
undo_lem p out size h8 h9 bytes set small room =
    rw set (ended.0, counted, ended.1 ∙ rw (flag_is, set) refl)
  where
    n : ℕ
    n = Frame.get_size p

    start : Loop
    start = record { out = Unsync.begin_undo p out size; out_size = u32 (10 + n); altered = false }

    s : Loop
    s = Unsync.undo_loop n (at p 10) n 0 start

    long : length (content p) ≡ n
    long = length-slice (at p 10) 0 n

    looped : IsUndone (at p 10) n n 0 start s
    looped =
        undo_loop_lem (at p 10) n n n 0 start (omega arith) (omega arith)
          (omega (arith, small, long)) (omega (arith, small, long))

    counted : s.out_size ≡ 10 + length (shrink (content p))
    counted = omega (arith, looped.out_size, small, long, shrink-le (content p))

    flag_is : s.altered ≡ false
    flag_is = looped.altered

    began :
        Unsync.begin_undo p out size
        ≡ record { buffer = memcpy out 0 p 0 10; tmp = 10; size = size - 10 }
    began = unfold Unsync.begin_undo in ground (arith, room)

    ended :
        Holds p (shrink (content p)) (Unsync.end_frame s size)
        × (Frame.has_unsynchronisation (Unsync.end_frame s size)
            ≡ (if s.altered then true else Frame.has_unsynchronisation p))
    ended =
        poured_lem p out size (shrink (content p)) s (Unsync.begin_undo p out size) h8 h9
          (shrink-AllBytes (content p) bytes) (omega (arith, room)) room
          (omega (arith, small, shrink-le (content p))) began (looped.out) counted

-- ===== src/Id3/Unsync/Away.antt =====
-- `id3v2_frame_unsynchronise` on a frame that is not yet unsynchronised.
use bitstream.Base.{
  [], ◌∷◌, ◌∷◌, ℕ, ◌+◌, ◌-◌, ◌^◌, ◌≤◌, ◌<◌, ◌≡◌, inl, inr, ◌∙◌, true, false, List, length, Bytes,
  IsBytes, at, ltb, u32, Bool-cases, if◌then◌else◌, arith, memcpy,
}
use bitstream.Id3.Frame
use bitstream.Id3.Unsync
use bitstream.Id3.Unsync.{Out, Loop}
use bitstream.Id3.Unsync.Zeros.{after, expand, zeros, length-expand, length-slice}
use bitstream.Id3.Unsync.Pour.{AllBytes, slice-AllBytes}
use bitstream.Id3.Unsync.Ends.{content, Holds, poured_lem}
use bitstream.Id3.Unsync.Loops.{IsUnsynced, unsync_loop_lem}

after-AllBytes : (c : ℕ) (xs : List ℕ) → AllBytes xs → AllBytes (after c xs)
unfolding after
after-AllBytes c [] a = tt
after-AllBytes c (d ∷ xs) a = elim (Bool-cases (Unsync.starts_sync c d)) [
  | inl e ↦ rw e (omega arith, (a.0, after-AllBytes d xs (a.1)))
  | inr e ↦ rw e (a.0, after-AllBytes d xs (a.1))
]

pub expand-AllBytes : (xs : List ℕ) → AllBytes xs → AllBytes (expand xs)
unfolding expand
expand-AllBytes [] a = tt
expand-AllBytes (c ∷ xs) a = (a.0, after-AllBytes c xs (a.1))

-- What `id3v2_frame_unsynchronise` makes of a frame that is not yet unsynchronised.
pub record IsUnsynchronised (p : Bytes) (size : ℕ) (r : Bytes × ℕ) : Type 0 where
  pub needed : r.1 ≡ 10 + length (expand (content p))
  pub written : 10 + length (expand (content p)) ≤ size → Holds p (expand (content p)) (r.0)
  pub flagged :
      10 + length (expand (content p)) ≤ size
      → Frame.has_unsynchronisation (r.0) ≡ ltb 0 (zeros (content p))

-- Of a frame of bytes without the flag, whose size fits 28 bits with the zeros, the call returns the
-- room that it needs, whatever room there is; with that room it writes the frame with a zero behind
-- each 0xff that is followed by 0x00 or by 0xe0 or more, and it sets the flag exactly where it has
-- put one in.
pub unsynchronise_lem :
    (p out : Bytes) (size : ℕ)
    → IsBytes p
    → Frame.has_unsynchronisation p ≡ false
    → 10 + length (expand (content p)) < 2 ^ 28
    → IsUnsynchronised p size (Unsync.frame_unsynchronise p out size)
unfolding Unsync.frame_unsynchronise Frame.get_data
unsynchronise_lem p out size h plain small = rw plain (record {
  needed = counted;
  written = λ room. (ended room).0;
  flagged = λ room. (ended room).1 ∙ rw (flag_is, plain) (ground arith);
})
  where
    n : ℕ
    n = Frame.get_size p

    start : Loop
    start = record { out = Unsync.begin_frame p out size; out_size = u32 (10 + n); altered = false }

    s : Loop
    s = Unsync.unsync_loop n (at p 10) n 0 start

    long : length (expand (content p)) ≡ n + zeros (content p)
    long = length-expand (content p) ∙ omega (arith, length-slice (at p 10) 0 n)

    looped : IsUnsynced (at p 10) n n 0 start s
    looped = unsync_loop_lem (at p 10) n n 0 start (omega arith) (omega (arith, small, long))

    counted : s.out_size ≡ 10 + length (expand (content p))
    counted = looped.out_size ∙ omega (arith, small, long)

    flag_is : s.altered ≡ ltb 0 (zeros (content p))
    flag_is = looped.altered

    began :
        10 ≤ size
        → Unsync.begin_frame p out size
          ≡ record { buffer = memcpy out 0 p 0 10; tmp = 10; size = size - 10 }
    began room = unfold Unsync.begin_frame in ground (arith, room)

    ended :
        10 + length (expand (content p)) ≤ size
        → Holds p (expand (content p)) (Unsync.end_frame s size)
          × (Frame.has_unsynchronisation (Unsync.end_frame s size)
              ≡ (if s.altered then true else Frame.has_unsynchronisation p))
    ended room =
        poured_lem p out size (expand (content p)) s (Unsync.begin_frame p out size) (h 8) (h 9)
          (expand-AllBytes (content p) (slice-AllBytes (at p 10) (λ i. h (10 + i)) 0 n))
          (omega (arith, room)) room small (began (omega (arith, room))) (looped.out) counted

-- ===== src/Descs/Tiles.antt =====
-- Lists that descriptors fill exactly: the check of them and the iteration over them.
use native.Mathlib.Decide.{dec_le}
use bitstream.Base.{
  ◌∷◌, [], List, get_elem?, ℕ, zero, suc, ◌+◌, ◌≤◌, ◌<◌, ◌≡◌, ◌↔◌, true, Option, none, some, Bytes,
  ==_iff, ltb, if◌then◌else◌, arith,
}
use bitstream.Descs

-- From `o` on, whole descriptors follow one another up to `length`.
pub data Tiles (p : Bytes) (length : ℕ) : ℕ → Type 0 where
  stop : {o : ℕ} → o ≡ length → Tiles p length o
  step : {o : ℕ} → o + 2 ≤ length → Tiles p length (o + (2 + p (o + 1))) → Tiles p length o

Tiles-le : {p : Bytes} {length o : ℕ} → Tiles p length o → o ≤ length
Tiles-le (stop e) = omega arith
Tiles-le (step h t) = omega arith

loop_sound :
    (fuel : ℕ) (p : Bytes) (length o : ℕ)
    → length < fuel + o
    → Descs.validate_loop fuel p length o ≡ length
    → Tiles p length o
unfolding Descs.validate_loop
loop_sound zero p length o h e = stop e
loop_sound (suc fuel) p length o h e = elim (dec_le (o + 2) length) [
  | yes k ↦ step k (loop_sound fuel p length (o + (2 + p (o + 1))) (omega arith) (ground arith))
  | no k ↦ stop (ground arith)
]

loop_complete :
    (fuel : ℕ) (p : Bytes) (length o : ℕ)
    → length < fuel + o
    → Tiles p length o
    → Descs.validate_loop fuel p length o ≡ length
unfolding Descs.validate_loop
loop_complete zero p length o h t = absurd (omega (arith, Tiles-le t))
loop_complete (suc fuel) p length o h (stop e) = ground arith
loop_complete (suc fuel) p length o h (step k t) =
    ground (arith, loop_complete fuel p length (o + (2 + p (o + 1))) (omega arith) t)

-- `descl_validate` accepts a list exactly when its descriptors follow one another up to its end.
pub descl_validate_iff :
    (p : Bytes) (length : ℕ) → (Descs.descl_validate p length ≡ true) ↔ Tiles p length 0
unfolding Descs.descl_validate
descl_validate_iff p length = (
  λ e. loop_sound (length + 1) p length 0 (omega arith) ((==_iff _ _).0 e),
  λ t. (==_iff _ _).1 (loop_complete (length + 1) p length 0 (omega arith) t),
)

-- The offsets of the descriptors, in order.
abbrev pub offsets : {p : Bytes} {length o : ℕ} → Tiles p length o → List ℕ
offsets (stop e) = []
offsets (step {o = o} h t) = o ∷ offsets t

-- Each of these descriptors is inside the list, with its header and its content.
pub AllInside : Bytes → ℕ → List ℕ → Type 0
AllInside p length [] = Unit
AllInside p length (o ∷ os) = (o + (2 + p (o + 1)) ≤ length) × AllInside p length os

pub offsets-AllInside :
    {p : Bytes} {length o : ℕ} (t : Tiles p length o) → AllInside p length (offsets t)
unfolding AllInside
offsets-AllInside (stop e) = tt
offsets-AllInside (step h t) = (Tiles-le t, offsets-AllInside t)

-- What the iteration yields at the offset `o`.
abbrev entry : ℕ → ℕ → Option ℕ
entry length o = if ltb length (o + 2) then none else some o

entry-some : (length o : ℕ) → o + 2 ≤ length → entry length o ≡ some o
entry-some length o h = ground arith

get_from-offsets :
    (n : ℕ) {p : Bytes} {length o : ℕ} (t : Tiles p length o)
    → Descs.desc_get_from (Descs.descl_next_desc p length) n (entry length o)
      ≡ get_elem? (offsets t) n
unfolding Descs.desc_get_from Descs.descl_next_desc
get_from-offsets zero (stop e) = ground arith
get_from-offsets (suc n) (stop e) = ground arith
get_from-offsets zero (step h t) = ground arith
get_from-offsets (suc n) {length} (step {o = o} h t) =
    rw (entry-some length o h) (get_from-offsets n t)

-- On a list that its descriptors fill, `descl_get_desc` finds them by their number, and NULL behind
-- the last.
pub descl_get_desc-offsets :
    (p : Bytes) (length n : ℕ) (t : Tiles p length 0)
    → Descs.descl_get_desc p length n ≡ get_elem? (offsets t) n
unfolding Descs.descl_get_desc
descl_get_desc-offsets p length n t = get_from-offsets n t

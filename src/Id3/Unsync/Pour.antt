-- ===== src/Id3/Unsync/Pour.antt =====
-- A list of bytes written to a buffer of limited size.
use bitstream.Base.{
  ap, sym, subst, at, IsBytes, ap₂, put, ℕ, zero, suc, ◌+◌, ◌-◌, ◌≤◌, ◌<◌, ◌≡◌, ◌⊎◌, inl, refl, ◌∙◌,
  List, [], ◌∷◌, length, Bytes, arith,
}
use bitstream.Id3.Unsync
use bitstream.Id3.Unsync.{Out}
use bitstream.Id3.Unsync.Zeros.{slice}

unfoldable pub pour : Out → List ℕ → Out
pour o [] = o
pour o (c ∷ xs) = pour (Unsync.emit o c) xs

-- Only the room that is left is written.
pub pour-outside :
    (xs : List ℕ) (o : Out) (j : ℕ)
    → (j < o.tmp) ⊎ (o.tmp + o.size ≤ j)
    → (pour o xs).buffer j ≡ o.buffer j
unfolding pour
pour-outside [] o j h = refl
pour-outside (c ∷ xs) o j h =
    pour-outside xs (Unsync.emit o c) j (unfold Unsync.emit in ground arith)
    ∙ (unfold Unsync.emit in ground arith)

abbrev pub AllBytes : List ℕ → Type 0
AllBytes [] = Unit
AllBytes (c ∷ xs) = (c < 256) × AllBytes xs

-- A byte for which there is room.
abbrev put_next : Out → ℕ → Out
put_next o c = record { buffer = put (o.buffer) (o.tmp) c; tmp = o.tmp + 1; size = o.size - 1 }

emit_room : (o : Out) (c : ℕ) → 0 < o.size → Unsync.emit o c ≡ put_next o c
unfolding Unsync.emit
emit_room o c h = ground (arith, h)

-- With room for all of it, the list stands in the buffer from `tmp` on.
pub slice-pour :
    (xs : List ℕ) (o : Out)
    → AllBytes xs
    → length xs ≤ o.size
    → slice ((pour o xs).buffer) (o.tmp) (length xs) ≡ xs
unfolding pour
slice-pour [] o a h = refl
slice-pour (c ∷ xs) o a h =
    subst (λ (e : Out). slice ((pour e xs).buffer) (o.tmp) (suc (length xs)) ≡ c ∷ xs)
      (sym (emit_room o c (omega (arith, h))))
      (ap₂ (λ (x : ℕ) (l : List ℕ). x ∷ l)
        (pour-outside xs (put_next o c) (o.tmp) (inl (omega arith)) ∙ ground (arith, a))
        (slice-pour xs (put_next o c) (a.1) (omega (arith, h))))

pub slice-AllBytes : (b : Bytes) → IsBytes b → (i n : ℕ) → AllBytes (slice b i n)
slice-AllBytes b h i zero = tt
slice-AllBytes b h i (suc n) = (h i, slice-AllBytes b h (i + 1) n)

pub slice-eq :
    (b c : Bytes) (i n : ℕ) → ((j : ℕ) → i ≤ j → j < i + n → b j ≡ c j) → slice b i n ≡ slice c i n
slice-eq b c i zero h = refl
slice-eq b c i (suc n) h =
    ap₂ (λ (x : ℕ) (l : List ℕ). x ∷ l) (h i (omega arith) (omega arith))
      (slice-eq b c (i + 1) n (λ j p q. h j (omega arith) (omega arith)))

pub slice-at : (b : Bytes) (k i n : ℕ) → slice (at b k) i n ≡ slice b (k + i) n
slice-at b k i zero = refl
slice-at b k i (suc n) =
    ap (λ (l : List ℕ). b (k + i) ∷ l)
      (slice-at b k (i + 1) n ∙ ap (λ (j : ℕ). slice b j n) (omega arith))

-- ===== src/Id3/Unsync/Zeros.antt =====
-- Unsynchronisation on lists of bytes: a zero behind each 0xff that would start a sync pattern.
use bitstream.Base.{
  inr, ◌∙◌, inl, ℕ, zero, suc, ◌+◌, ◌≡◌, refl, ap, true, false, ◌&&◌, List, [], ◌∷◌, length, Bytes,
  Bool-cases, ◌==◌, if◌then◌else◌, arith,
}
use bitstream.Id3.Unsync

-- The `n` bytes from `i` on.
abbrev pub slice : Bytes → ℕ → ℕ → List ℕ
slice b i zero = []
slice b i (suc n) = b i ∷ slice b (i + 1) n

-- What follows the byte `c` on the way out.
unfoldable pub after : ℕ → List ℕ → List ℕ
after c [] = []
after c (d ∷ xs) =
    let rest = after d xs in if Unsync.starts_sync c d then 0 ∷ (d ∷ rest) else d ∷ rest

unfoldable pub expand : List ℕ → List ℕ
unfolding after
expand [] = []
expand (c ∷ xs) = c ∷ after c xs

-- The way back.
unfoldable pub shrink : List ℕ → List ℕ
shrink [] = []
shrink (c ∷ []) = c ∷ []
shrink (c ∷ d ∷ xs) =
    let skipped = shrink xs in
    let kept = shrink (d ∷ xs) in if c == 0xff && d == 0 then c ∷ skipped else c ∷ kept

pub shrink_over :
    (c d : ℕ) (xs : List ℕ) → (c == 0xff && d == 0) ≡ true → shrink (c ∷ d ∷ xs) ≡ c ∷ shrink xs
unfolding shrink
shrink_over c d xs e = rw e

pub shrink_at :
    (c d : ℕ) (xs : List ℕ)
    → (c == 0xff && d == 0) ≡ false
    → shrink (c ∷ d ∷ xs) ≡ c ∷ shrink (d ∷ xs)
unfolding shrink
shrink_at c d xs e = rw e

shrink_skip : (xs : List ℕ) → shrink (0xff ∷ 0 ∷ xs) ≡ 0xff ∷ shrink xs
unfolding shrink
shrink_skip xs = refl

plain_lem : (c d : ℕ) → Unsync.starts_sync c d ≡ false → (c == 0xff && d == 0) ≡ false
unfolding Unsync.starts_sync
plain_lem c d e = ground arith

sync_lem : (c d : ℕ) → Unsync.starts_sync c d ≡ true → c ≡ 0xff
unfolding Unsync.starts_sync
sync_lem c d e = ground arith

shrink-after : (c : ℕ) (xs : List ℕ) → shrink (c ∷ after c xs) ≡ c ∷ xs
unfolding after
shrink-after c [] = unfold shrink in refl
shrink-after c (d ∷ xs) = elim (Bool-cases (Unsync.starts_sync c d)) [
  | inl e ↦
      rw (e, sync_lem c d e)
        (shrink_skip (d ∷ after d xs) ∙ ap (λ (l : List ℕ). 0xff ∷ l) (shrink-after d xs))
  | inr e ↦ rw e (
      shrink_at c d (after d xs) (plain_lem c d e) ∙ ap (λ (l : List ℕ). c ∷ l) (shrink-after d xs))
]

pub shrink-expand : (xs : List ℕ) → shrink (expand xs) ≡ xs
unfolding expand
shrink-expand [] = unfold shrink in refl
shrink-expand (c ∷ xs) = shrink-after c xs

-- How many zeros are put in.
unfoldable pub zeros_after : ℕ → List ℕ → ℕ
zeros_after c [] = 0
zeros_after c (d ∷ xs) =
    let rest = zeros_after d xs in if Unsync.starts_sync c d then suc rest else rest

unfoldable pub zeros : List ℕ → ℕ
unfolding zeros_after
zeros [] = 0
zeros (c ∷ xs) = zeros_after c xs

length-after : (c : ℕ) (xs : List ℕ) → length (after c xs) ≡ length xs + zeros_after c xs
unfolding after zeros_after
length-after c [] = omega arith
length-after c (d ∷ xs) = elim (Bool-cases (Unsync.starts_sync c d)) [
  | inl e ↦ rw e (omega (arith, length-after d xs))
  | inr e ↦ rw e (omega (arith, length-after d xs))
]

pub length-expand : (xs : List ℕ) → length (expand xs) ≡ length xs + zeros xs
unfolding expand zeros
length-expand [] = omega arith
length-expand (c ∷ xs) = omega (arith, length-after c xs)

after-same : (c : ℕ) (xs : List ℕ) → zeros_after c xs ≡ 0 → after c xs ≡ xs
unfolding after zeros_after
after-same c [] h = refl
after-same c (d ∷ xs) h = elim (Bool-cases (Unsync.starts_sync c d)) [
  | inl e ↦ absurd (ground (arith, e, h))
  | inr e ↦ rw e (ap (λ (l : List ℕ). d ∷ l) (after-same d xs (ground (arith, e, h))))
]

-- A frame without such a byte stays as it is.
pub expand-same : (xs : List ℕ) → zeros xs ≡ 0 → expand xs ≡ xs
unfolding expand zeros
expand-same [] h = refl
expand-same (c ∷ xs) h = ap (λ (l : List ℕ). c ∷ l) (after-same c xs h)

pub length-slice : (b : Bytes) (i n : ℕ) → length (slice b i n) ≡ n
length-slice b i zero = refl
length-slice b i (suc n) = omega (arith, length-slice b (i + 1) n)

-- ===== src/Sim/Layout.antt =====
-- The parameters that a message holds, and where they lie in it.
use bitstream.Base.{
  zero, ◌+◌, inl, inr, refl, Bool-cases, ap₂, leb, ◌&&◌, ◌↔◌, true, suc, arith, ◌∷◌, [], ◌<◌, at,
  ◌≡◌, ◌≤◌, length, List, Bytes, ℕ,
}
use bitstream.Sim

pub record Param : Type 0 where
  pub type : ℕ
  pub content : List ℕ

-- The `n` bytes from `o` on.
unfoldable pub slice : Bytes → ℕ → ℕ → List ℕ
slice p o zero = []
slice p o (suc n) = p o ∷ slice p (o + 1) n

pub length-slice : (p : Bytes) (o n : ℕ) → length (slice p o n) ≡ n
unfolding slice
length-slice p o zero = refl
length-slice p o (suc n) = omega (arith, length-slice p (o + 1) n)

pub slice_congr :
    (p q : Bytes) (o k n : ℕ)
    → ((i : ℕ) → i < n → p (o + i) ≡ q (k + i))
    → slice p o n ≡ slice q k n
unfolding slice
slice_congr p q o k zero h = refl
slice_congr p q o k (suc n) h =
    ap₂ (λ (x : ℕ) (xs : List ℕ). x ∷ xs) (grind (arith, h 0 (omega arith)))
      (slice_congr p q (o + 1) (k + 1) n (λ i g. grind (arith, h (i + 1) (omega arith))))

-- The parameter that the bytes at `o` are.
abbrev pub param_at : Bytes → ℕ → Param
param_at p o = record {
  type = Sim.get_type (at p o);
  content = slice p (o + 4) (Sim.get_length (at p o));
}

-- From `o` to `e`, the message holds these parameters one behind the other.
abbrev pub IsLaid : Bytes → ℕ → List Param → ℕ → Type 0
IsLaid p o [] e = o ≡ e
IsLaid p o (q ∷ qs) e = (q ≡ param_at p o) × IsLaid p (Sim.next p o) qs e

pub IsLaid-le : (p : Bytes) (o : ℕ) (qs : List Param) (e : ℕ) → IsLaid p o qs e → o ≤ e
IsLaid-le p o [] e h = omega arith
IsLaid-le p o (q ∷ qs) e h = omega (arith, IsLaid-le p (Sim.next p o) qs e h.1)

-- A message of exactly these parameters.
abbrev pub IsMessage : Bytes → List Param → Type 0
IsMessage p qs = IsLaid p 4 qs (4 + Sim.get_length p)

validate_sound :
    (fuel : ℕ) (p : Bytes) (size o : ℕ)
    → size < fuel + o
    → Sim.validate_loop fuel p size o ≡ 4 + size
    → (qs : List Param) × IsLaid p o qs (4 + size)
unfolding Sim.validate_loop
validate_sound zero p size o h e = ([], e)
validate_sound (suc fuel) p size o h e =
    elim (Bool-cases (leb o size && leb (o + Sim.get_length (at p o)) size)) [
      | inl k ↦
          let (qs, t) = validate_sound fuel p size (Sim.next p o) (omega arith) (ground arith) in
          (param_at p o ∷ qs, (refl, t))
      | inr k ↦ ([], ground arith)
    ]

validate_complete :
    (fuel : ℕ) (p : Bytes) (size o : ℕ) (qs : List Param)
    → size < fuel + o
    → IsLaid p o qs (4 + size)
    → Sim.validate_loop fuel p size o ≡ 4 + size
unfolding Sim.validate_loop
validate_complete zero p size o [] h t = t
validate_complete zero p size o (q ∷ qs) h t =
    absurd (omega (arith, IsLaid-le p (Sim.next p o) qs (4 + size) t.1))
validate_complete (suc fuel) p size o [] h t = ground arith
validate_complete (suc fuel) p size o (q ∷ qs) h t = ground (
  arith,
  IsLaid-le p (Sim.next p o) qs (4 + size) t.1,
  validate_complete fuel p size (Sim.next p o) qs (omega arith) t.1,
)

validate_loop-le : (fuel : ℕ) (p : Bytes) (size o : ℕ) → o ≤ Sim.validate_loop fuel p size o
unfolding Sim.validate_loop
validate_loop-le zero p size o = omega arith
validate_loop-le (suc fuel) p size o = ground (arith, validate_loop-le fuel p size (Sim.next p o))

-- `tlv_validate` accepts a message exactly when its bytes, up to the length in its header, are a
-- list of whole parameters.
pub validate-IsMessage :
    (p : Bytes) → (Sim.validate p ≡ true) ↔ ((qs : List Param) × IsMessage p qs)
unfolding Sim.validate
validate-IsMessage p =
    let size = Sim.get_length p in
    (
      λ e.
          validate_sound (size + 1) p size 4 (omega arith)
            (ground (arith, validate_loop-le (size + 1) p size 4)),
      λ (qs, t). ground (arith, validate_complete (size + 1) p size 4 qs (omega arith) t),
    )

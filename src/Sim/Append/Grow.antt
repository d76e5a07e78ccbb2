-- ===== src/Sim/Append/Grow.antt =====
-- A message that keeps its bytes keeps its parameters, and one more behind them is one more.
use bitstream.Base.{
  ℕ, ◌+◌, ◌≤◌, ◌<◌, bit_or, ◌≡◌, refl, sym, ap, ap₂, subst, ◌∙◌, ◌≢◌, List, [], ◌∷◌, ◌++◌, arith,
  ◌<<◌, Bytes, at,
}
use bitstream.Base.Bits.{masks, bit_or_disjoint}
use bitstream.Sim
use bitstream.Sim.Append.Open.{AllNamed}
use bitstream.Sim.Layout.{Param, IsLaid, IsLaid-le, param_at, slice, slice_congr}

pub type_congr : (p q : Bytes) → q 0 ≡ p 0 → q 1 ≡ p 1 → Sim.get_type q ≡ Sim.get_type p
unfolding Sim.get_type
type_congr p q a b = ap₂ (λ (x y : ℕ). bit_or (x << 8) y) a b

pub length_congr : (p q : Bytes) → q 2 ≡ p 2 → q 3 ≡ p 3 → Sim.get_length q ≡ Sim.get_length p
unfolding Sim.get_length
length_congr p q a b = ap₂ (λ (x y : ℕ). bit_or (x << 8) y) a b

-- Equal bytes below `e` hold the same parameters there.
param_congr :
    (p q : Bytes) (o : ℕ)
    → ((i : ℕ) → i < 4 + Sim.get_length (at p o) → q (o + i) ≡ p (o + i))
    → param_at q o ≡ param_at p o
param_congr p q o h =
    let type = type_congr (at p o) (at q o) (h 0 (omega arith)) (h 1 (omega arith)) in
    let size = length_congr (at p o) (at q o) (h 2 (omega arith)) (h 3 (omega arith)) in
    let content =
      slice_congr q p (o + 4) (o + 4) (Sim.get_length (at p o))
        (λ i g. subst (λ k. q k ≡ p k) (omega arith) (h (4 + i) (omega arith))) in
    ap₂ (λ (x : ℕ) (xs : List ℕ). record { type = x; content = xs }) type
      (ap (slice q (o + 4)) size ∙ content)

pub IsLaid-congr :
    (p q : Bytes) (o e : ℕ) (qs : List Param)
    → ((i : ℕ) → o ≤ i → i < e → q i ≡ p i)
    → IsLaid p o qs e
    → IsLaid q o qs e
IsLaid-congr p q o e [] h t = t
IsLaid-congr p q o e (r ∷ qs) h t =
    let le = IsLaid-le p (Sim.next p o) qs e t.1 in
    let same = param_congr p q o (λ i g. h (o + i) (omega arith) (omega arith)) in
    let size =
      length_congr (at p o) (at q o) (h (o + 2) (omega arith) (omega arith))
        (h (o + 3) (omega arith) (omega arith)) in
    (
      t.0 ∙ sym same,
      IsLaid-congr p q (Sim.next q o) e qs (λ i g k. h i (omega arith) k)
          (subst (λ n. IsLaid p (o + (4 + n)) qs e) (sym size) t.1),
    )

pub IsLaid-snoc :
    (p : Bytes) (o e : ℕ) (qs : List Param)
    → IsLaid p o qs e
    → IsLaid p o (qs ++ param_at p e ∷ []) (Sim.next p e)
IsLaid-snoc p o e [] t = subst (λ k. IsLaid p o (param_at p k ∷ []) (Sim.next p k)) t (refl, refl)
IsLaid-snoc p o e (r ∷ qs) t = (t.0, IsLaid-snoc p (Sim.next p o) e qs t.1)

pub AllNamed-snoc :
    (qs : List Param) (r : Param) → AllNamed qs → r.type ≢ 0 → AllNamed (qs ++ r ∷ [])
AllNamed-snoc [] r h k = (k, tt)
AllNamed-snoc (q ∷ qs) r h k = (h.0, AllNamed-snoc qs r h.1 k)

pub set_type_lem : (p : Bytes) (type : ℕ) → type < 65536 → Sim.get_type (Sim.set_type p type) ≡ type
unfolding Sim.get_type Sim.set_type
set_type_lem p type h = omega (masks, bit_or_disjoint 8)

pub set_length_lem : (p : Bytes) (n : ℕ) → n < 65536 → Sim.get_length (Sim.set_length p n) ≡ n
unfolding Sim.get_length Sim.set_length
set_length_lem p n h = omega (masks, bit_or_disjoint 8)

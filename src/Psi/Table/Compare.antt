-- ===== src/Psi/Table/Compare.antt =====
-- `psi_table_compare`, and the tables on which it does not end.
use native.Mathlib.Decide.{dec_lt}
use bitstream.Base.{
  memcmp, &&_parts, memcmp_iff, ℕ, zero, suc, ◌+◌, ◌≤◌, ◌<◌, ◌≡◌, ◌↔◌, inl, inr, refl, ap, ◌∙◌,
  subst, Bool, true, false, none, some, Bytes, u8, leb, ◌==◌, ==_iff, Bool-cases, arith,
}
use bitstream.Psi
use bitstream.Psi.Table

-- Sections of one version and length whose bytes, the first three and as many as the length says, are
-- the same.
pub record IsSame (p q : Bytes) : Type 0 where
  pub same_version : Psi.get_version p ≡ Psi.get_version q
  pub same_length : Psi.get_length p ≡ Psi.get_length q
  pub same_bytes : (i : ℕ) → i < 3 + Psi.get_length p → p i ≡ q i

compare-IsSame : (p q : Bytes) → (Psi.compare p q ≡ true) ↔ IsSame p q
unfolding Psi.compare
compare-IsSame p q =
    let bytes = memcmp_iff (3 + Psi.get_length p) p q in
    (
      λ e.
          let (version, rest) = &&_parts _ _ e in
          let (size, same) = &&_parts _ _ rest in
          record {
            same_version = (==_iff _ _).0 version;
            same_length = (==_iff _ _).0 size;
            same_bytes = bytes.0 (subst (λ (n : ℕ). memcmp p q n ≡ true) (omega arith) same);
          },
      λ c.
          let size : (Psi.get_length p == Psi.get_length q) ≡ true = (==_iff _ _).1 c.same_length in
          let version : (Psi.get_version p == Psi.get_version q) ≡ true =
            (==_iff _ _).1 c.same_version in
          let same : memcmp p q (Psi.get_length p + 3) ≡ true =
            subst (λ (n : ℕ). memcmp p q n ≡ true) (omega arith) (bytes.1 c.same_bytes) in
          rw (version, size, same) refl,
    )

-- Tables of the same last section number, with the same sections up to it.
pub record IsEqual (t u : ℕ → Bytes) : Type 0 where
  pub same_last : Psi.get_lastsection (t 0) ≡ Psi.get_lastsection (u 0)
  pub same_sections : (i : ℕ) → i ≤ Psi.get_lastsection (t 0) → IsSame (t i) (u i)

module _ (t u : ℕ → Bytes) (last : ℕ) (legal : last < 255) where
  EqualFrom : ℕ → Type 0
  EqualFrom i = (m : ℕ) → i ≤ m → m ≤ last → Psi.compare (t m) (u m) ≡ true

  Compared : ℕ → ℕ → Type 0
  unfolding EqualFrom
  Compared fuel i =
      (b : Bool) × (Table.compare_from fuel t u last i ≡ some b) × ((b ≡ true) ↔ EqualFrom i)

  compare_next :
      (fuel i : ℕ)
      → i ≤ last
      → Psi.compare (t i) (u i) ≡ true
      → Table.compare_from (suc fuel) t u last i ≡ Table.compare_from fuel t u last (i + 1)
  unfolding Table.compare_from
  compare_next fuel i h e =
      let within : leb i last ≡ true = ground (arith, h) in
      let next : u8 (i + 1) ≡ i + 1 = omega (arith, h, legal) in
      rw (within, e, Table.compare_from) (ap (λ (n : ℕ). Table.compare_from fuel t u last n) next)

  compare_differs :
      (fuel i : ℕ)
      → i ≤ last
      → Psi.compare (t i) (u i) ≡ false
      → Table.compare_from (suc fuel) t u last i ≡ some false
  unfolding Table.compare_from
  compare_differs fuel i h e =
      (let within : leb i last ≡ true = ground (arith, h) in rw (within, e, Table.compare_from))

  compare_end : (fuel i : ℕ) → last < i → Table.compare_from (suc fuel) t u last i ≡ some true
  unfolding Table.compare_from
  compare_end fuel i h =
      (let behind : leb i last ≡ false = ground (arith, h) in rw (behind, Table.compare_from))

  compare_lem : (fuel i : ℕ) → i ≤ last + 1 → last + 2 ≤ fuel + i → Compared fuel i
  unfolding Compared EqualFrom
  compare_lem zero i h enough = absurd (omega (arith, h, enough))
  compare_lem (suc fuel) i h enough = elim (dec_lt last i) [
    | yes out ↦
        (true, compare_end fuel i out, (λ _ m a b. absurd (omega (arith, out, a, b)), λ _. refl))
    | no within ↦ elim (Bool-cases (Psi.compare (t i) (u i))) [
      | inr differs ↦ (
        false,
        compare_differs fuel i (omega (arith, within)) differs,
        (
          λ q. absurd (ground (arith, q)),
          λ all. absurd (ground (arith, differs, all i (omega arith) (omega (arith, within)))),
        ),
      )
      | inl same ↦
          let (b, e, (to, from)) =
            compare_lem fuel (i + 1) (omega (arith, within)) (omega (arith, enough)) in
          (
            b,
            compare_next fuel i (omega (arith, within)) same ∙ e,
            (
              λ q m a k. elim (dec_lt i m) [
                | yes later ↦ to q m (omega arith) k
                | no here ↦
                    let back : i ≡ m = omega (arith, a, here) in
                    subst (λ (n : ℕ). Psi.compare (t n) (u n) ≡ true) back same
              ],
              λ all. from (λ m a k. all m (omega (arith, a)) k),
            ),
          )
    ]
  ]

-- Of tables of which the first has fewer than 256 sections, `psi_table_compare` ends, and it finds
-- equal exactly those of the same last section number whose sections have, one by one, the same
-- version, the same length, and the same bytes from the first up to the last that the length counts.
pub table_compare-IsEqual :
    (t u : ℕ → Bytes)
    → Psi.get_lastsection (t 0) < 255
    → (b : Bool) × (Table.table_compare t u ≡ some b) × ((b ≡ true) ↔ IsEqual t u)
unfolding Table.table_compare Table.table_get_lastsection Compared EqualFrom
table_compare-IsEqual t u legal =
    elim (Bool-cases (Psi.get_lastsection (t 0) == Psi.get_lastsection (u 0))) [
      | inr differs ↦ (
        false,
        ground (arith, differs),
        (λ q. absurd (ground (arith, q)), λ c. absurd (ground (arith, differs, c.same_last))),
      )
      | inl same ↦
          let (b, e, (to, from)) =
            compare_lem t u (Psi.get_lastsection (t 0)) legal 257 0 (omega arith)
              (omega (arith, legal)) in
          (
            b,
            ground (arith, same, e),
            (
              λ q. record {
                same_last = (==_iff _ _).0 same;
                same_sections = λ i h. (compare-IsSame (t i) (u i)).0 (to q i (omega arith) h);
              },
              λ c. from (λ m _ h. (compare-IsSame (t m) (u m)).1 (c.same_sections m h)),
            ),
          )
    ]

-- The comparison of two tables of 256 sections that are equal one by one does not end: no number of
-- rounds is enough.
pub table_compare_never_ends :
    (t u : ℕ → Bytes) (rounds i : ℕ)
    → ((m : ℕ) → m < 256 → Psi.compare (t m) (u m) ≡ true)
    → i < 256
    → Table.compare_from rounds t u 255 i ≡ none
unfolding Table.compare_from
table_compare_never_ends t u zero i same h = refl
table_compare_never_ends t u (suc rounds) i same h =
    let within : leb i 255 ≡ true = ground (arith, h) in
    rw (within, same i h, table_compare_never_ends t u rounds (u8 (i + 1)) same (omega arith))

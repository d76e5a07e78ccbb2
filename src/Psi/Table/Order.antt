-- ===== src/Psi/Table/Order.antt =====
-- The sections of one table, in whatever order they come.
use native.Mathlib.Decide.{dec_lt}
use bitstream.Base.{
  ℕ, ◌≤◌, ◌<◌, ◌≡◌, ◌↔◌, inl, inr, sym, ap, ◌∙◌, Bool, true, false, none, some, List, [], ◌∷◌,
  Bytes, Bool-cases, ◌==◌, ltb, ◌||◌, if◌then◌else◌, arith,
}
use bitstream.Psi
use bitstream.Psi.Table
use bitstream.Psi.Table.{Table}
use bitstream.Psi.Table.Complete.{table_section_lem}
use bitstream.Psi.Table.Calls.{none-some}

-- The calls of `psi_table_section` on the sections of these numbers.
unfoldable pub fed : (ℕ → Bytes) → List ℕ → Table → Table
fed sections [] t = t
fed sections (k ∷ ks) t = fed sections ks ((Table.table_section t (sections k)).1)

abbrev pub has : ℕ → List ℕ → Bool
has j [] = false
has j (k ∷ ks) = k == j || has j ks

abbrev pub AllUpTo : ℕ → List ℕ → Type 0
AllUpTo last [] = Unit
AllUpTo last (k ∷ ks) = (k ≤ last) × AllUpTo last ks

-- Sections 0 to `last` of one version of one table.
pub record IsSeries (sections : ℕ → Bytes) (last : ℕ) : Type 0 where
  pub bounded : last < 256
  pub number : (k : ℕ) → k ≤ last → Psi.get_section (sections k) ≡ k
  pub same_last : (k : ℕ) → k ≤ last → Psi.get_lastsection (sections k) ≡ last
  pub same_version :
      (k : ℕ) → k ≤ last → Psi.get_version (sections k) ≡ Psi.get_version (sections 0)
  pub same_table :
      (k : ℕ) → k ≤ last → Psi.get_tableidext (sections k) ≡ Psi.get_tableidext (sections 0)

module _ (sections : ℕ → Bytes) (last : ℕ) (series : IsSeries sections last) where
  -- The slots hold the sections that were seen.
  Holds : (ℕ → Bool) → Table → Type 0
  Holds seen t = (j : ℕ) → j < 256 → t j ≡ (if seen j then some (sections j) else none)

  fill-Holds :
      (seen : ℕ → Bool) (t : Table) (k : ℕ)
      → k ≤ last
      → Holds seen t
      → Holds (λ j. k == j || seen j) (Table.fill t (Psi.get_section (sections k)) (sections k))
  unfolding Holds Table.fill
  fill-Holds seen t k h held j l = rw (series.number k h) (elim (Bool-cases (k == j)) [
    | inl here ↦
        let same : k ≡ j = ground (arith, here) in rw here (ap (λ (m : ℕ). some (sections m)) same)
    | inr other ↦ rw other (held j l)
  ])

  unseen :
      (seen : ℕ → Bool) (k j : ℕ)
      → k ≤ last
      → ((i : ℕ) → seen i ≡ true → i ≤ last)
      → last < j
      → (k == j || seen j) ≡ false
  unseen seen k j h within high = elim (Bool-cases (seen j)) [
    | inl e ↦ absurd (omega (arith, within j e, high))
    | inr e ↦ ground (arith, e, h, high)
  ]

  section-Holds :
      (seen : ℕ → Bool) (t : Table) (k : ℕ)
      → k ≤ last
      → ((j : ℕ) → seen j ≡ true → j ≤ last)
      → Holds seen t
      → Holds (λ j. k == j || seen j) ((Table.table_section t (sections k)).1)
  unfolding Holds
  section-Holds seen t k h within held j l =
      let (full, emptied, kept, same) = table_section_lem t (sections k) in
      let filled = fill-Holds seen t k h held j l in
      elim (Bool-cases ((Table.table_section t (sections k)).0)) [
        | inr e ↦ ap (λ (u : Table). u j) (same e) ∙ filled
        | inl e ↦ elim (dec_lt last j) [
          | no low ↦ kept j (omega (arith, low, series.same_last k h)) ∙ filled
          | yes high ↦
              emptied j e (omega (arith, high, series.same_last k h)) l
              ∙ sym (
                  ap (λ (b : Bool). if b then some (sections j) else none)
                    (unseen seen k j h within high))
        ]
      ]

  full_iff :
      (seen : ℕ → Bool) (t : Table) (k : ℕ)
      → k ≤ last
      → Holds seen t
      → ((Table.table_section t (sections k)).0 ≡ true)
        ↔ ((j : ℕ) → j ≤ last → (k == j || seen j) ≡ true)
  unfolding Holds
  full_iff seen t k h held =
      let (full, _, _, _) = table_section_lem t (sections k) in
      (
        λ e j l. elim (Bool-cases (k == j || seen j)) [
          | inl yet ↦ yet
          | inr never ↦
              let m = full.0 e j (omega (arith, l, series.same_last k h)) in
              absurd (
                none-some (
                  sym (
                    fill-Holds seen t k h held j (omega (arith, l, series.bounded))
                    ∙ ap (λ (b : Bool). if b then some (sections j) else none) never)
                  ∙ m.held))
        ],
        λ all. full.1 (λ j l.
            let low : j ≤ last = omega (arith, l, series.same_last k h) in
            record {
              at_slot = sections j;
              held =
                  fill-Holds seen t k h held j (omega (arith, low, series.bounded))
                  ∙ ap (λ (b : Bool). if b then some (sections j) else none) (all j low);
              same_last = series.same_last j low ∙ sym (series.same_last k h);
              same_version = series.same_version j low ∙ sym (series.same_version k h);
              same_table = series.same_table j low ∙ sym (series.same_table k h);
            }),
      )

  among :
      (seen : ℕ → Bool) (k j : ℕ)
      → k ≤ last
      → ((i : ℕ) → seen i ≡ true → i ≤ last)
      → (k == j || seen j) ≡ true
      → j ≤ last
  among seen k j h within e = elim (Bool-cases (seen j)) [
    | inl c ↦ within j c
    | inr c ↦ ground (arith, e, c, h)
  ]

  Holds-eq : (a b : ℕ → Bool) (t : Table) → ((j : ℕ) → a j ≡ b j) → Holds a t → Holds b t
  unfolding Holds
  Holds-eq a b t same held j l =
      held j l ∙ ap (λ (c : Bool). if c then some (sections j) else none) (same j)

  init-Holds : (t : Table) → Holds (λ _. false) (Table.table_init t)
  unfolding Holds Table.table_init
  init-Holds t j l =
      let inside : ltb j 256 ≡ true = ground (arith, l) in
      ap (λ (c : Bool). if c then none else t j) inside

  fed_lem :
      (ks : List ℕ) (seen : ℕ → Bool) (t : Table)
      → AllUpTo last ks
      → ((j : ℕ) → seen j ≡ true → j ≤ last)
      → Holds seen t
      → Holds (λ j. has j ks || seen j) (fed sections ks t)
  unfolding fed
  fed_lem [] seen t a within held = held
  fed_lem (k ∷ ks) seen t (h, a) within held =
      Holds-eq (λ j. has j ks || (k == j || seen j)) _ _ (λ j. ground arith)
        (fed_lem ks (λ j. k == j || seen j) ((Table.table_section t (sections k)).1) a
          (λ j e. among seen k j h within e) (section-Holds seen t k h within held))

-- Sections 0 to the last of one version of one table are handed over in any order, some of them more
-- than once, from `psi_table_init` on: a call of `psi_table_section` reports a full table exactly
-- when each of them was in a call up to then.
pub table_section_any_order :
    (sections : ℕ → Bytes) (last : ℕ) (t : Table) (ks : List ℕ) (k : ℕ)
    → IsSeries sections last
    → AllUpTo last ks
    → k ≤ last
    → ((Table.table_section (fed sections ks (Table.table_init t)) (sections k)).0 ≡ true)
      ↔ ((j : ℕ) → j ≤ last → has j (k ∷ ks) ≡ true)
table_section_any_order sections last t ks k series a h =
    let (to, from) =
      full_iff sections last series (λ j. has j ks || false) (fed sections ks (Table.table_init t))
        k h
        (fed_lem sections last series ks (λ _. false) (Table.table_init t) a
          (λ j e. absurd (ground (arith, e))) (init-Holds sections last series t)) in
    (λ e j l. ground (arith, to e j l), λ all. from (λ j l. ground (arith, all j l)))

-- ===== src/Psi/Table/Calls.antt =====
-- The tables that calls of `psi_table_section` reach from `psi_table_init`.
use bitstream.Base.{
  ◌⊎◌, inl, inr, Bool-cases, false, ℕ, ◌+◌, ◌≤◌, ◌<◌, ◌≡◌, inl, inr, sym, ap, ◌∙◌, Bool, true, none,
  some, Bytes, IsBytes, Bool-cases, ◌==◌, leb, ltb, ◌&&◌, if◌then◌else◌, arith,
}
use bitstream.Psi
use bitstream.Psi.Table
use bitstream.Psi.Table.{Table}
use bitstream.Psi.Table.Complete.{table_section_lem}

-- One call after the other, on any sections, as the tables in between say.
pub data Reached : Table → Type 0 where
  initial : (t : Table) → Reached (Table.table_init t)
  call : (t : Table) (s : Bytes) → IsBytes s → Reached t → Reached ((Table.table_section t s).1)

-- Each of the 256 slots is empty or holds the section of its number.
abbrev pub IsNumbered : Table → Type 0
IsNumbered t = (k : ℕ) (p : Bytes) → k < 256 → t k ≡ some p → Psi.get_section p ≡ k

pub none-some : {p : Bytes} → none ≡ some p → ⊥
none-some e = cc

some_inj : {p q : Bytes} → some p ≡ some q → p ≡ q
some_inj e = cc

table_init-IsNumbered : (t : Table) → IsNumbered (Table.table_init t)
unfolding Table.table_init
table_init-IsNumbered t k p h e =
    let inside : ltb k 256 ≡ true = ground (arith, h) in
    absurd (none-some (sym (ap (λ (b : Bool). if b then none else t k) inside) ∙ e))

fill-IsNumbered :
    (t : Table) (s : Bytes) → IsNumbered t → IsNumbered (Table.fill t (Psi.get_section s) s)
unfolding Table.fill
fill-IsNumbered t s n k p h e = elim (Bool-cases (Psi.get_section s == k)) [
  | inl here ↦
      ap Psi.get_section (some_inj (sym e ∙ ap (λ (b : Bool). if b then some s else t k) here))
      ∙ ground (arith, here)
  | inr other ↦ n k p h (sym (ap (λ (b : Bool). if b then some s else t k) other) ∙ e)
]

free-IsNumbered : (t : Table) (i : ℕ) → IsNumbered t → IsNumbered (Table.free_from t i)
unfolding Table.free_from
free-IsNumbered t i n k p h e = elim (Bool-cases (leb i k && ltb k 256)) [
  | inl gone ↦ absurd (none-some (sym (ap (λ (b : Bool). if b then none else t k) gone) ∙ e))
  | inr kept ↦ n k p h (sym (ap (λ (b : Bool). if b then none else t k) kept) ∙ e)
]

table_section-IsNumbered :
    (t : Table) (s : Bytes) → IsNumbered t → IsNumbered ((Table.table_section t s).1)
unfolding Table.table_section
table_section-IsNumbered t s n =
    let filled = fill-IsNumbered t s n in
    elim (Bool-cases
      (Table.all_agree (Psi.get_lastsection s + 1) (Table.fill t (Psi.get_section s) s) s 0)) [
        | inl e ↦ rw e (free-IsNumbered _ (Psi.get_lastsection s + 1) filled)
        | inr e ↦ rw e filled
      ]

Reached-IsNumbered : (t : Table) → Reached t → IsNumbered t
Reached-IsNumbered _ (initial t) = table_init-IsNumbered t
Reached-IsNumbered _ (call t s b r) = table_section-IsNumbered t s (Reached-IsNumbered t r)

-- Each slot up to the last that `s` names holds the section of its number, with the version, the
-- identifier extension and the last number of `s`, and nothing is behind that. The identifier of the
-- table is not compared.
pub record IsWhole (t : Table) (s : Bytes) : Type 0 where
  pub filled :
      (k : ℕ)
      → k ≤ Psi.get_lastsection s
      → (p : Bytes) × (t k ≡ some p)
        × (Psi.get_section p ≡ k)
        × (Psi.get_lastsection p ≡ Psi.get_lastsection s)
        × (Psi.get_version p ≡ Psi.get_version s)
        × (Psi.get_tableidext p ≡ Psi.get_tableidext s)
  pub empty : (k : ℕ) → Psi.get_lastsection s < k → k < 256 → t k ≡ none

lastsection-lt : (s : Bytes) → IsBytes s → Psi.get_lastsection s < 256
unfolding Psi.get_lastsection
lastsection-lt s b = b 7

-- In a table that calls of `psi_table_section` reached from `psi_table_init`, every slot is empty or
-- holds the section of its number; and a call on it either reports no full table, or leaves one that
-- has the sections 0 to the last, each in its slot and with the version, the table identifier
-- extension and the last section number of the section it was called on, and no others. Nothing is
-- said of their table identifiers.
pub table_section-IsWhole :
    (t : Table) (s : Bytes)
    → Reached t
    → IsBytes s
    → IsNumbered t
      × (((Table.table_section t s).0 ≡ false) ⊎ IsWhole ((Table.table_section t s).1) s)
table_section-IsWhole t s r b =
    let numbered = Reached-IsNumbered t r in
    let (full, emptied, kept, _) = table_section_lem t s in
    (
      numbered,
      elim (Bool-cases ((Table.table_section t s).0)) [
        | inr e ↦ inl e
        | inl e ↦ inr (record {
          filled = λ k h.
              let m = full.0 e k h in
              (
                m.at_slot,
                kept k h ∙ m.held,
                fill-IsNumbered t s numbered k (m.at_slot) (omega (arith, h, lastsection-lt s b))
                    (m.held),
                m.same_last,
                m.same_version,
                m.same_table,
              );
          empty = λ k h l. emptied k e h l;
        })
      ],
    )

-- ===== src/Psi/Table/Complete.antt =====
-- When `psi_table_section` reports a full table, and what such a table is.
use native.Mathlib.Decide.{dec_lt}
use bitstream.Base.{
  inr, inl, ℕ, zero, suc, ◌+◌, ◌≤◌, ◌<◌, ◌≡◌, ◌↔◌, refl, subst, true, false, Option, none, some,
  Bytes, Bool-cases, arith,
}
use bitstream.Psi
use bitstream.Psi.Table
use bitstream.Psi.Table.{Table}

-- The slot holds a section of the same version of the same table as `s`.
pub record IsSibling (t : Table) (s : Bytes) (i : ℕ) : Type 0 where
  pub at_slot : Bytes
  pub held : t i ≡ some at_slot
  pub same_last : Psi.get_lastsection at_slot ≡ Psi.get_lastsection s
  pub same_version : Psi.get_version at_slot ≡ Psi.get_version s
  pub same_table : Psi.get_tableidext at_slot ≡ Psi.get_tableidext s

agrees-IsSibling :
    (t : Table) (s : Bytes) (i : ℕ) (slot : Option Bytes)
    → t i ≡ slot
    → Table.agrees slot s ≡ true
    → IsSibling t s i
unfolding Table.agrees
agrees-IsSibling t s i none e h = absurd (ground (arith, h))
agrees-IsSibling t s i (some p) e h = record {
  at_slot = p;
  held = e;
  same_last = ground (arith, h);
  same_version = ground (arith, h);
  same_table = ground (arith, h);
}

IsSibling-agrees : (t : Table) (s : Bytes) (i : ℕ) → IsSibling t s i → Table.agrees (t i) s ≡ true
unfolding Table.agrees
IsSibling-agrees t s i m = rw (m.held) (ground (arith, m.same_last, m.same_version, m.same_table))

all_agree-IsSibling :
    (left : ℕ) (t : Table) (s : Bytes) (i : ℕ)
    → Table.all_agree left t s i ≡ true
    → (k : ℕ) → i ≤ k
    → k < i + left
    → IsSibling t s k
unfolding Table.all_agree
all_agree-IsSibling zero t s i h k a b = absurd (omega (arith, a, b))
all_agree-IsSibling (suc left) t s i h k a b = elim (dec_lt i k) [
  | yes later ↦
      all_agree-IsSibling left t s (i + 1) (ground (arith, h)) k (omega arith) (omega arith)
  | no here ↦
      subst (IsSibling t s) (omega arith) (agrees-IsSibling t s i (t i) refl (ground (arith, h)))
]

IsSibling-all_agree :
    (left : ℕ) (t : Table) (s : Bytes) (i : ℕ)
    → ((k : ℕ) → i ≤ k → k < i + left → IsSibling t s k)
    → Table.all_agree left t s i ≡ true
unfolding Table.all_agree
IsSibling-all_agree zero t s i h = refl
IsSibling-all_agree (suc left) t s i h = ground (
  arith,
  IsSibling-agrees t s i (h i (omega arith) (omega arith)),
  IsSibling-all_agree left t s (i + 1) (λ k a b. h k (omega arith) (omega arith)),
)

-- The new section is in its slot, and every slot up to its last one holds a sibling.
abbrev pub IsFull : Table → Bytes → Type 0
IsFull t s =
    (k : ℕ) → k ≤ Psi.get_lastsection s → IsSibling (Table.fill t (Psi.get_section s) s) s k

-- `psi_table_section` reports a full table exactly when, with the new section in its slot, every
-- slot up to the last one holds a section of the same version and table. It then empties the slots
-- behind the last one, up to 256, and changes nothing else; otherwise it only fills the slot.
pub table_section_lem :
    (t : Table) (s : Bytes)
    → (((Table.table_section t s).0 ≡ true) ↔ IsFull t s)
      × ((j : ℕ)
          → (Table.table_section t s).0 ≡ true
          → Psi.get_lastsection s < j
          → j < 256
          → (Table.table_section t s).1 j ≡ none)
      × ((j : ℕ)
          → j ≤ Psi.get_lastsection s
          → (Table.table_section t s).1 j ≡ Table.fill t (Psi.get_section s) s j)
      × ((Table.table_section t s).0 ≡ false
          → (Table.table_section t s).1 ≡ Table.fill t (Psi.get_section s) s)
unfolding Table.table_section
table_section_lem t s =
    elim (Bool-cases
      (Table.all_agree (Psi.get_lastsection s + 1) (Table.fill t (Psi.get_section s) s) s 0)) [
        | inl e ↦ rw e (
          (
            λ _ k h.
                all_agree-IsSibling (Psi.get_lastsection s + 1) (Table.fill t (Psi.get_section s) s)
                  s 0 e k (omega arith) (omega arith),
            λ _. refl,
          ),
          λ j _ h k. (unfold Table.free_from in ground arith),
          λ j h. (unfold Table.free_from in ground arith),
          λ h. absurd (ground (arith, h)),
        )
        | inr e ↦ rw e (
          (
            λ h. absurd (ground (arith, h)),
            λ full. absurd (
                ground (
                  arith,
                  e,
                  IsSibling-all_agree (Psi.get_lastsection s + 1)
                      (Table.fill t (Psi.get_section s) s) s 0 (λ k _ h. full k (omega arith)),
                )),
          ),
          λ j h k. absurd (ground (arith, h)),
          λ j h. refl,
          λ h. refl,
        )
      ]

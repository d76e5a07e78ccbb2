-- ===== src/Pat/Find.antt =====
-- `pat_table_find_program`, and the entries of a section by their number.
use native.Mathlib.Decide.{dec_lt}
use bitstream.Base.{
  subst, ℕ, zero, suc, ◌+◌, ◌*◌, ◌≤◌, ◌<◌, ◌≡◌, ◌≢◌, inl, inr, refl, ap, ◌∙◌, true, false, Option,
  none, some, Bytes, at, u8, leb, ◌==◌, ==_iff, Bool-cases, if◌then◌else◌, arith,
}
use bitstream.Psi
use bitstream.Pat

-- `while ((p_program = pat_get_program(p_section, j)) != NULL) { j++; ... }` in one section, from
-- the entry `j` on. The outer `none` means that the fuel ran out, which the loop may do: `j` is an
-- int, of which `pat_get_program` sees 8 bits.
unfoldable pub search_section : ℕ → Bytes → ℕ → ℕ → Option (Option ℕ)
search_section zero s program j = none
search_section (suc fuel) s program j =
    let rest = search_section fuel s program (j + 1) in
    elim (Pat.get_program s (u8 j)) [
      | none ↦ some none
      | some o ↦ if Pat.get_number (at s o) == program then some (some o) else rest
    ]

-- The loop over the sections `i` up to `last`, where `i` is an `uint8_t`.
unfoldable pub search_table : ℕ → (ℕ → Bytes) → ℕ → ℕ → ℕ → Option (Option (ℕ × ℕ))
search_table zero t last program i = none
search_table (suc fuel) t last program i =
    let rest = search_table fuel t last program (u8 (i + 1)) in
    if leb i last
    then elim (search_section 257 (t i) program 0) [
      | none ↦ none
      | some r ↦ elim r [ none ↦ rest | some o ↦ some (some (i, o)) ]
    ]
    else some none

-- The section's index and the offset in it.
unfoldable pub find_program : (ℕ → Bytes) → ℕ → Option (Option (ℕ × ℕ))
find_program t program = search_table 257 t (Psi.get_lastsection (t 0)) program 0

-- The entry `k` is in front of the checksum.
abbrev pub IsInside : Bytes → ℕ → Type 0
IsInside s k = 8 + k * 4 + 8 ≤ Psi.get_length s + 3

abbrev pub number : Bytes → ℕ → ℕ
number s k = Pat.get_number (at s (8 + k * 4))

pub get_program_inside :
    (s : Bytes) (k : ℕ) → k < 256 → IsInside s k → Pat.get_program s (u8 k) ≡ some (8 + k * 4)
unfolding Pat.get_program
get_program_inside s k h i = ground arith

pub get_program_outside :
    (s : Bytes) (k : ℕ)
    → k < 256
    → Psi.get_length s + 3 < 8 + k * 4 + 8
    → Pat.get_program s (u8 k) ≡ none
unfolding Pat.get_program
get_program_outside s k h i = ground arith

-- The first entry from `j` on that has the number, or that there is none.
abbrev pub FirstFrom : Bytes → ℕ → ℕ → Option ℕ → Type 0
FirstFrom s program j none = (k : ℕ) → j ≤ k → IsInside s k → number s k ≢ program
FirstFrom s program j (some o) =
    (k : ℕ) × (o ≡ 8 + k * 4)
    × (j ≤ k)
    × IsInside s k
    × (number s k ≡ program)
    × ((m : ℕ) → j ≤ m → m < k → number s m ≢ program)

-- One round of the loop.
search_here :
    (fuel : ℕ) (s : Bytes) (program j : ℕ)
    → j < 256
    → IsInside s j
    → number s j ≡ program
    → search_section (suc fuel) s program j ≡ some (some (8 + j * 4))
unfolding search_section
search_here fuel s program j h i e =
    rw (get_program_inside s j h i, (==_iff (number s j) program).1 e, search_section)

search_on :
    (fuel : ℕ) (s : Bytes) (program j : ℕ)
    → j < 256
    → IsInside s j
    → (number s j == program) ≡ false
    → search_section (suc fuel) s program j ≡ search_section fuel s program (j + 1)
unfolding search_section
search_on fuel s program j h i e = rw (get_program_inside s j h i, e, search_section)

search_end :
    (fuel : ℕ) (s : Bytes) (program j : ℕ)
    → j < 256
    → Psi.get_length s + 3 < 8 + j * 4 + 8
    → search_section (suc fuel) s program j ≡ some none
unfolding search_section
search_end fuel s program j h i = rw (get_program_outside s j h i, search_section)

Found : ℕ → Bytes → ℕ → ℕ → Type 0
Found fuel s program j =
    (r : Option ℕ) × (search_section fuel s program j ≡ some r) × FirstFrom s program j r

first_later :
    (s : Bytes) (program j : ℕ) (r : Option ℕ)
    → number s j ≢ program
    → FirstFrom s program (j + 1) r
    → FirstFrom s program j r
first_later s program j none differs f = λ k h i e. elim (dec_lt j k) [
  | yes later ↦ f k (omega arith) i e
  | no here ↦ differs (ap (number s) (omega arith) ∙ e)
]
first_later s program j (some o) differs (k, at_k, later, inside, e, before) = (
  k,
  at_k,
  omega arith,
  inside,
  e,
  λ m a b q. elim (dec_lt j m) [
    | yes c ↦ before m (omega arith) b q
    | no c ↦ differs (ap (number s) (omega arith) ∙ q)
  ],
)

search_section-Found :
    (fuel : ℕ) (s : Bytes) (program j : ℕ)
    → Psi.get_length s ≤ 1032
    → j ≤ 255
    → 256 ≤ fuel + j
    → Found fuel s program j
unfolding Found
search_section-Found zero s program j short h enough = absurd (omega (arith, h, enough))
search_section-Found (suc fuel) s program j short h enough =
    elim (dec_lt (Psi.get_length s + 3) (8 + j * 4 + 8)) [
      | yes out ↦ (
        none,
        search_end fuel s program j (omega (arith, h)) out,
        λ k later inside. absurd (omega (arith, out, later, inside)),
      )
      | no out ↦
          let inside : IsInside s j = omega (arith, out) in
          elim (Bool-cases (number s j == program)) [
            | inl e ↦
                let same = (==_iff (number s j) program).0 e in
                (
                  some (8 + j * 4),
                  search_here fuel s program j (omega (arith, h)) inside same,
                  (j, refl, omega arith, inside, same, λ m a b. absurd (omega (arith, a, b))),
                )
            | inr e ↦
                let (r, found, first) =
                  search_section-Found fuel s program (j + 1) short (omega (arith, out, short))
                    (omega (arith, enough)) in
                (
                  r,
                  search_on fuel s program j (omega (arith, h)) inside e ∙ found,
                  first_later s program j r (λ q. absurd (ground (arith, q, e))) first,
                )
          ]
    ]

-- What `pat_table_find_program` is to find: the first entry of the table with the number, section
-- by section, or that there is none.
abbrev pub FirstInTable : (ℕ → Bytes) → ℕ → ℕ → ℕ → Option (ℕ × ℕ) → Type 0
FirstInTable t last program i none = (m : ℕ) → i ≤ m → m ≤ last → FirstFrom (t m) program 0 none
FirstInTable t last program i (some (m, o)) =
    (i ≤ m)
    × (m ≤ last)
    × FirstFrom (t m) program 0 (some o)
    × ((l : ℕ) → i ≤ l → l < m → FirstFrom (t l) program 0 none)

module _ (t : ℕ → Bytes) (last program : ℕ) (legal : last < 255)
    (short : (m : ℕ) → m ≤ last → Psi.get_length (t m) ≤ 1032) where
  table_hit :
      (fuel i o : ℕ)
      → i ≤ last
      → search_section 257 (t i) program 0 ≡ some (some o)
      → search_table (suc fuel) t last program i ≡ some (some (i, o))
  unfolding search_table
  table_hit fuel i o h e = rw (leb_true, e, search_table)
    where
      leb_true : leb i last ≡ true
      leb_true = ground arith

  table_next :
      (fuel i : ℕ)
      → i ≤ last
      → search_section 257 (t i) program 0 ≡ some none
      → search_table (suc fuel) t last program i ≡ search_table fuel t last program (i + 1)
  unfolding search_table
  table_next fuel i h e =
      rw (leb_true, e, search_table) (ap (search_table fuel t last program) next)
    where
      leb_true : leb i last ≡ true
      leb_true = ground arith

      next : u8 (i + 1) ≡ i + 1
      next = omega arith

  table_end : (fuel i : ℕ) → last < i → search_table (suc fuel) t last program i ≡ some none
  unfolding search_table
  table_end fuel i h = ground arith

  FoundIn : ℕ → ℕ → Type 0
  FoundIn fuel i =
      (r : Option (ℕ × ℕ)) × (search_table fuel t last program i ≡ some r)
      × FirstInTable t last program i r

  table_later :
      (i : ℕ) (r : Option (ℕ × ℕ))
      → FirstFrom (t i) program 0 none
      → FirstInTable t last program (i + 1) r
      → FirstInTable t last program i r
  table_later i none here f = λ m h k. elim (dec_lt i m) [
    | yes later ↦ f m (omega arith) k
    | no same ↦ subst (λ l. FirstFrom (t l) program 0 none) (omega arith) here
  ]
  table_later i (some (m, o)) here (later, inside, found, before) = (
    omega arith,
    inside,
    found,
    λ l a b. elim (dec_lt i l) [
      | yes c ↦ before l (omega arith) b
      | no c ↦ subst (λ k. FirstFrom (t k) program 0 none) (omega arith) here
    ],
  )

  -- One section, with what the rest of the table yields.
  at_section :
      (fuel i : ℕ)
      → i ≤ last
      → FoundIn fuel (i + 1)
      → (r : Option ℕ) → search_section 257 (t i) program 0 ≡ some r
      → FirstFrom (t i) program 0 r
      → FoundIn (suc fuel) i
  unfolding FoundIn
  at_section fuel i k (r, result, rest) none found first =
      (r, table_next fuel i k found ∙ result, table_later i r first rest)
  at_section fuel i k later (some o) found first = (
    some (i, o),
    table_hit fuel i o k found,
    (omega arith, k, first, λ l a b. absurd (omega (arith, a, b))),
  )

  search_table-FoundIn : (fuel i : ℕ) → i ≤ last + 1 → last + 2 ≤ fuel + i → FoundIn fuel i
  unfolding FoundIn Found
  search_table-FoundIn zero i h enough = absurd (omega (arith, h, enough))
  search_table-FoundIn (suc fuel) i h enough = elim (dec_lt last i) [
    | yes out ↦ (none, table_end fuel i out, λ m a b. absurd (omega (arith, out, a, b)))
    | no within ↦
        let (r, found, first) =
          search_section-Found 257 (t i) program 0 (short i (omega (arith, within))) (omega arith)
            (omega arith) in
        let later =
          search_table-FoundIn fuel (i + 1) (omega (arith, within)) (omega (arith, enough)) in
        at_section fuel i (omega (arith, within)) later r found first
  ]

-- On a table of fewer than 256 sections whose length fields are at most 1032, as those of all
-- legal ones are, `pat_table_find_program` ends, and it returns the first entry with the program
-- number, in the order of the sections, or NULL where there is none.
pub find_program-FirstInTable :
    (t : ℕ → Bytes) (program : ℕ)
    → Psi.get_lastsection (t 0) < 255
    → ((m : ℕ) → m ≤ Psi.get_lastsection (t 0) → Psi.get_length (t m) ≤ 1032)
    → (r : Option (ℕ × ℕ)) × (find_program t program ≡ some r)
      × FirstInTable t (Psi.get_lastsection (t 0)) program 0 r
unfolding find_program FoundIn
find_program-FirstInTable t program legal short =
    search_table-FoundIn t (Psi.get_lastsection (t 0)) program legal short 257 0 (omega arith)
      (omega arith)

-- In a section whose length field is at least 1033 no entry is the last one: `pat_get_program`, of
-- whose index 8 bits are left, never returns NULL, at whatever index it is called.
pub get_program_never_null :
    (s : Bytes) (j : ℕ) → 1033 ≤ Psi.get_length s → Pat.get_program s (u8 j) ≢ none
unfolding Pat.get_program
get_program_never_null s j h e = ground (arith, e)

-- ===== src/Pat/Whole/Consistent.antt =====
-- The tables that `pat_table_validate` accepts.
use native.Mathlib.Decide.{dec_lt}
use bitstream.Base.{
  subst, ℕ, zero, suc, ◌+◌, ◌*◌, ◌≤◌, ◌<◌, ◌≡◌, ◌↔◌, inl, inr, refl, sym, ap, ◌∙◌, Bool, true,
  false, Option, none, some, Bytes, at, u8, leb, ◌==◌, ==_iff, Bool-cases, if◌then◌else◌, arith,
}
use bitstream.Psi
use bitstream.Psi.Crc
use bitstream.Pat
use bitstream.Pat.Find.{
  find_program, IsInside, number, FirstInTable, find_program-FirstInTable, get_program_inside,
  get_program_outside,
}
use bitstream.Pat.Whole.{check_entries, check_sections, table_validate}

abbrev pub pid : Bytes → ℕ → ℕ
pid s k = Pat.get_pid (at s (8 + k * 4))

find_inj : {a b : ℕ × ℕ} → some (some a) ≡ some (some b) → a ≡ b
find_inj e = cc

clash : {a b : ℕ} → (a == b) ≡ false → a ≡ b → ⊥
clash h e = ground (arith, h, e)

module _ (t : ℕ → Bytes) (legal : Psi.get_lastsection (t 0) < 255)
    (short : (m : ℕ) → m ≤ Psi.get_lastsection (t 0) → Psi.get_length (t m) ≤ 1032) where
  abbrev last : ℕ
  last = Psi.get_lastsection (t 0)

  -- The entry agrees with the first one of its number.
  Agrees : ℕ → ℕ → Type 0
  Agrees i k =
      (e : ℕ × ℕ) × (find_program t (number (t i) k) ≡ some (some e))
      × (pid (t i) k ≡ Pat.get_pid (at (t (e.0)) (e.1)))

  -- An entry of the table is found by its number.
  there :
      (i k : ℕ)
      → i ≤ last
      → IsInside (t i) k
      → (e : ℕ × ℕ) × (find_program t (number (t i) k) ≡ some (some e))
        × FirstInTable t last (number (t i) k) 0 (some e)
  there i k h inside =
      let (r, found, first) = find_program-FirstInTable t (number (t i) k) legal short in
      pick r found first
    where
      pick :
          (r : Option (ℕ × ℕ))
          → find_program t (number (t i) k) ≡ some r
          → FirstInTable t last (number (t i) k) 0 r
          → (e : ℕ × ℕ) × (find_program t (number (t i) k) ≡ some (some e))
            × FirstInTable t last (number (t i) k) 0 (some e)
      pick none found first = absurd (first i (omega arith) h k (omega arith) inside refl)
      pick (some e) found first = (e, found, first)

  -- A round on an entry.
  entry_round :
      (fuel i j : ℕ) (e : ℕ × ℕ)
      → j < 256
      → IsInside (t i) j
      → find_program t (number (t i) j) ≡ some (some e)
      → check_entries (suc fuel) t (t i) j ≡ (
          if pid (t i) j == Pat.get_pid (at (t (e.0)) (e.1))
          then check_entries fuel t (t i) (j + 1)
          else some false)
  unfolding check_entries
  entry_round fuel i j e h inside found =
      rw (get_program_inside (t i) j h inside, found, check_entries)

  entry_end :
      (fuel i j : ℕ)
      → j < 256
      → Psi.get_length (t i) + 3 < 8 + j * 4 + 8
      → check_entries (suc fuel) t (t i) j ≡ some true
  unfolding check_entries
  entry_end fuel i j h out = rw (get_program_outside (t i) j h out, check_entries)

  -- The entries of the section `i` from `j` on.
  AllAgree : ℕ → ℕ → Type 0
  unfolding Agrees
  AllAgree i j = (k : ℕ) → j ≤ k → IsInside (t i) k → Agrees i k

  Checked : Option Bool → Type 0 → Type 0
  Checked o P = (b : Bool) × (o ≡ some b) × ((b ≡ true) ↔ P)

  entries_lem :
      (fuel i j : ℕ)
      → i ≤ last
      → j ≤ 255
      → 256 ≤ fuel + j
      → Checked (check_entries fuel t (t i) j) (AllAgree i j)
  unfolding Checked AllAgree Agrees
  entries_lem zero i j h k enough = absurd (omega (arith, k, enough))
  entries_lem (suc fuel) i j h k enough = elim (dec_lt (Psi.get_length (t i) + 3) (8 + j * 4 + 8)) [
    | yes out ↦ (
      true,
      entry_end fuel i j (omega (arith, k)) out,
      (λ _ m later inside. absurd (omega (arith, out, later, inside)), λ _. refl),
    )
    | no out ↦
        let inside : IsInside (t i) j = omega (arith, out) in
        let (e, found, first) = there i j h inside in
        let round = entry_round fuel i j e (omega (arith, k)) inside found in
        elim (Bool-cases (pid (t i) j == Pat.get_pid (at (t (e.0)) (e.1)))) [
          | inr differs ↦ (
            false,
            round
                ∙ ap (λ (c : Bool). if c then check_entries fuel t (t i) (j + 1) else some false)
                    differs,
            (
              λ q. absurd (ground (arith, q)),
              λ all.
                  let (e', found', agrees) = all j (omega arith) inside in
                  let one : e' ≡ e = find_inj (sym found' ∙ found) in
                  absurd (
                    clash differs
                      (agrees ∙ ap (λ (x : ℕ × ℕ). Pat.get_pid (at (t (x.0)) (x.1))) one)),
            ),
          )
          | inl same ↦
              let (b, result, (to, from)) =
                entries_lem fuel i (j + 1) h (omega (arith, out, short i h))
                  (omega (arith, enough)) in
              (
                b,
                round
                    ∙ ap
                        (λ (c : Bool). if c then check_entries fuel t (t i) (j + 1) else some false)
                        same
                    ∙ result,
                (
                  λ q m later in_m. elim (dec_lt j m) [
                    | yes c ↦ to q m (omega arith) in_m
                    | no c ↦
                        let back : j ≡ m = omega (arith, later, c) in
                        subst (Agrees i) back (e, found, (==_iff _ _).0 same)
                  ],
                  λ all. from (λ m later in_m. all m (omega (arith, later)) in_m),
                ),
              )
        ]
  ]

  section_round :
      (fuel i : ℕ) (b : Bool)
      → i ≤ last
      → Crc.check_crc (t i) ≡ true
      → check_entries 257 t (t i) 0 ≡ some b
      → check_sections (suc fuel) t last i
        ≡ (if b then check_sections fuel t last (i + 1) else some false)
  unfolding check_sections
  section_round fuel i b h crc e =
      let within : leb i last ≡ true = ground (arith, h) in
      let next : u8 (i + 1) ≡ i + 1 = omega (arith, h, legal) in
      rw (within, crc, e, check_sections)
        (ap (λ (n : ℕ). if b then check_sections fuel t last n else some false) next)

  section_bad :
      (fuel i : ℕ)
      → i ≤ last
      → Crc.check_crc (t i) ≡ false
      → check_sections (suc fuel) t last i ≡ some false
  unfolding check_sections
  section_bad fuel i h crc =
      (let within : leb i last ≡ true = ground (arith, h) in rw (within, crc, check_sections))

  section_end : (fuel i : ℕ) → last < i → check_sections (suc fuel) t last i ≡ some true
  unfolding check_sections
  section_end fuel i h =
      (let behind : leb i last ≡ false = ground (arith, h) in rw (behind, check_sections))

  -- The sections from `i` on.
  AllRight : ℕ → Type 0
  AllRight i = (m : ℕ) → i ≤ m → m ≤ last → (Crc.check_crc (t m) ≡ true) × AllAgree m 0

  right_later : (i : ℕ) → Crc.check_crc (t i) ≡ true → AllAgree i 0 → AllRight (i + 1) → AllRight i
  unfolding AllRight
  right_later i crc all rest m h k = elim (dec_lt i m) [
    | yes later ↦ rest m (omega arith) k
    | no here ↦
        let same : i ≡ m = omega (arith, h, here) in
        subst (λ (n : ℕ). (Crc.check_crc (t n) ≡ true) × AllAgree n 0) same (crc, all)
  ]

  sections_lem :
      (fuel i : ℕ)
      → i ≤ last + 1
      → last + 2 ≤ fuel + i
      → Checked (check_sections fuel t last i) (AllRight i)
  unfolding Checked AllRight
  sections_lem zero i h enough = absurd (omega (arith, h, enough))
  sections_lem (suc fuel) i h enough = elim (dec_lt last i) [
    | yes out ↦
        (true, section_end fuel i out, (λ _ m a b. absurd (omega (arith, out, a, b)), λ _. refl))
    | no within ↦ elim (Bool-cases (Crc.check_crc (t i))) [
      | inr bad ↦ (
        false,
        section_bad fuel i (omega (arith, within)) bad,
        (
          λ q. absurd (ground (arith, q)),
          λ all. absurd (ground (arith, bad, (all i (omega arith) (omega (arith, within))).0)),
        ),
      )
      | inl crc ↦
          let (b, e, (to, from)) =
            entries_lem 257 i 0 (omega (arith, within)) (omega arith) (omega arith) in
          let round = section_round fuel i b (omega (arith, within)) crc e in
          let (c, later, (to', from')) =
            sections_lem fuel (i + 1) (omega (arith, within)) (omega (arith, enough)) in
          elim (Bool-cases b) [
            | inr no_b ↦ (
              false,
              round
                  ∙ ap (λ (x : Bool). if x then check_sections fuel t last (i + 1) else some false)
                      no_b,
              (
                λ q. absurd (ground (arith, q)),
                λ all.
                    absurd (
                      ground (arith, no_b, from ((all i (omega arith) (omega (arith, within))).1))),
              ),
            )
            | inl yes_b ↦ (
              c,
              round
                  ∙ ap (λ (x : Bool). if x then check_sections fuel t last (i + 1) else some false)
                      yes_b
                  ∙ later,
              (
                λ q. right_later i crc (to yes_b) (to' q),
                λ all. from' (λ m a k. all m (omega (arith, a)) k),
              ),
            )
          ]
    ]
  ]

  -- What the first entry of a number says holds for all.
  consistent_to :
      AllRight 0
      → ((i k m l : ℕ)
          → i ≤ last
          → IsInside (t i) k
          → m ≤ last
          → IsInside (t m) l
          → number (t i) k ≡ number (t m) l
          → pid (t i) k ≡ pid (t m) l)
  unfolding AllRight AllAgree Agrees
  consistent_to all i k m l h inside h' inside' same =
      let (e, found, agrees) = (all i (omega arith) h).1 k (omega arith) inside in
      let (e', found', agrees') = (all m (omega arith) h').1 l (omega arith) inside' in
      let one : e ≡ e' = find_inj (sym found ∙ ap (λ (n : ℕ). find_program t n) same ∙ found') in
      agrees ∙ ap (λ (x : ℕ × ℕ). Pat.get_pid (at (t (x.0)) (x.1))) one ∙ sym agrees'

  consistent_from :
      ((i : ℕ) → i ≤ last → Crc.check_crc (t i) ≡ true)
      → ((i k m l : ℕ)
          → i ≤ last
          → IsInside (t i) k
          → m ≤ last
          → IsInside (t m) l
          → number (t i) k ≡ number (t m) l
          → pid (t i) k ≡ pid (t m) l)
      → AllRight 0
  unfolding AllRight AllAgree Agrees
  consistent_from crc same i _ h = (
    crc i h,
    λ k _ inside.
        let (e, found, (_, within, (l, at_l, _, inside_l, number_l, _), _)) = there i k h inside in
        (
          e,
          found,
          same i k (e.0) l h inside within inside_l (sym number_l)
              ∙ ap (λ (o : ℕ). Pat.get_pid (at (t (e.0)) o)) (sym at_l),
        ),
  )

-- Right checksums, and one packet identifier for all entries of a program number.
pub record IsConsistent (t : ℕ → Bytes) : Type 0 where
  pub checksums : (i : ℕ) → i ≤ Psi.get_lastsection (t 0) → Crc.check_crc (t i) ≡ true
  pub one_pid :
      (i k m l : ℕ)
      → i ≤ Psi.get_lastsection (t 0)
      → IsInside (t i) k
      → m ≤ Psi.get_lastsection (t 0)
      → IsInside (t m) l
      → number (t i) k ≡ number (t m) l
      → pid (t i) k ≡ pid (t m) l

-- On a table of fewer than 256 sections whose length fields are at most 1032, `pat_table_validate`
-- ends, and it accepts exactly the tables with right checksums in which all entries of one program
-- number have one packet identifier.
pub table_validate-IsConsistent :
    (t : ℕ → Bytes)
    → Psi.get_lastsection (t 0) < 255
    → ((m : ℕ) → m ≤ Psi.get_lastsection (t 0) → Psi.get_length (t m) ≤ 1032)
    → (b : Bool) × (table_validate t ≡ some b) × ((b ≡ true) ↔ IsConsistent t)
unfolding table_validate Checked AllRight
table_validate-IsConsistent t legal short =
    let (b, e, (to, from)) =
      sections_lem t legal short 257 0 (omega arith) (omega (arith, legal)) in
    (
      b,
      e,
      (
        λ q. record {
          checksums = λ i h. (to q i (omega arith) h).0;
          one_pid = consistent_to t legal short (to q);
        },
        λ c. from (consistent_from t legal short (c.checksums) (c.one_pid)),
      ),
    )

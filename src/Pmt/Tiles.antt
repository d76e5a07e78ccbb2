-- ===== src/Pmt/Tiles.antt =====
-- Sections that stream entries fill exactly: the check of them and the iteration over them.
use native.Mathlib.Decide.{dec_le}
use bitstream.Base.{
  inr, inl, ℕ, zero, suc, ◌+◌, ◌≤◌, ◌<◌, ◌≡◌, ◌↔◌, refl, true, Option, none, some, List, [], ◌∷◌,
  get_elem?, Bytes, at, ltb, ◌==◌, Bool-cases, if◌then◌else◌, arith,
}
use bitstream.Psi
use bitstream.Psi.Crc
use bitstream.Descs
use bitstream.Pmt

-- The size of the entry at `o` with its descriptors.
abbrev pub entry_size : Bytes → ℕ → ℕ
entry_size p o = 5 + Pmt.get_es_desclength (at p o)

-- From `o` on, whole entries with accepted descriptors follow one another up to the checksum.
pub data Streams (p : Bytes) : ℕ → Type 0 where
  stop : {o : ℕ} → o ≡ Pmt.section_size p → Streams p o
  step :
      {o : ℕ}
      → o + entry_size p o ≤ Pmt.section_size p
      → Descs.descs_validate (at p (o + 3)) ≡ true
      → Streams p (o + entry_size p o)
      → Streams p o

Streams-le : {p : Bytes} {o : ℕ} → Streams p o → o ≤ Pmt.section_size p
Streams-le (stop e) = omega arith
Streams-le (step h d t) = omega arith

loop_sound :
    (fuel : ℕ) (p : Bytes) (o : ℕ)
    → Pmt.section_size p < fuel + o
    → Pmt.validate_loop fuel p o ≡ true
    → Streams p o
unfolding Pmt.validate_loop
loop_sound zero p o h e = absurd (ground (arith, e))
loop_sound (suc fuel) p o h e = elim (dec_le (o + entry_size p o) (Pmt.section_size p)) [
  | yes k ↦
      step k (ground arith) (loop_sound fuel p (o + entry_size p o) (omega arith) (ground arith))
  | no k ↦ stop (ground arith)
]

loop_complete :
    (fuel : ℕ) (p : Bytes) (o : ℕ)
    → Pmt.section_size p < fuel + o
    → Streams p o
    → Pmt.validate_loop fuel p o ≡ true
unfolding Pmt.validate_loop
loop_complete zero p o h t = absurd (omega (arith, Streams-le t))
loop_complete (suc fuel) p o h (stop e) = ground arith
loop_complete (suc fuel) p o h (step k d t) =
    ground (arith, d, loop_complete fuel p (o + entry_size p o) (omega arith) t)

-- A program map section: its header, its checksum, its descriptors, and its stream entries.
pub record IsMap (p : Bytes) : Type 0 where
  pub syntax : Psi.get_syntax p ≡ true
  pub only_section : (Psi.get_section p ≡ 0) × (Psi.get_lastsection p ≡ 0)
  pub table : Psi.get_tableid p ≡ 2
  pub checksum : Crc.check_crc p ≡ true
  pub descriptors : Descs.descs_validate (at p 10) ≡ true
  pub streams : Streams p (12 + Pmt.get_desclength p)

-- `pmt_validate` accepts exactly the sections with the syntax bit, of table 2, numbered 0 of 0, with
-- a right checksum, whose descriptors fill their list and whose stream entries fill the rest, each
-- with its own list of descriptors.
pub validate_iff : (p : Bytes) → (Pmt.validate p ≡ true) ↔ IsMap p
unfolding Pmt.validate
validate_iff p = (
  λ e. record {
    syntax = ground (arith, e);
    only_section = (ground (arith, e), ground (arith, e));
    table = ground (arith, e);
    checksum = ground (arith, e);
    descriptors = ground (arith, e);
    streams =
        loop_sound (Pmt.section_size p + 1) p (12 + Pmt.get_desclength p) (omega arith)
          (ground (arith, e));
  },
  λ m. ground (
    arith,
    m.syntax,
    m.only_section,
    m.table,
    m.checksum,
    m.descriptors,
    Streams-le (m.streams),
    loop_complete (Pmt.section_size p + 1) p (12 + Pmt.get_desclength p) (omega arith) (m.streams),
  ),
)

-- The offsets of the entries, in order.
abbrev pub offsets : {p : Bytes} {o : ℕ} → Streams p o → List ℕ
offsets (stop e) = []
offsets (step {o = o} h d t) = o ∷ offsets t

-- What the iteration yields at the offset `o`.
abbrev entry : Bytes → ℕ → Option ℕ
entry p o = if ltb o (Pmt.section_size p) then some o else none

entry-some : (p : Bytes) (o : ℕ) → o + entry_size p o ≤ Pmt.section_size p → entry p o ≡ some o
entry-some p o h = ground arith

next_entry :
    (p : Bytes) (o : ℕ)
    → o + entry_size p o ≤ Pmt.section_size p
    → Pmt.next_es p (some o) ≡ entry p (o + entry_size p o)
unfolding Pmt.next_es
next_entry p o h = ground arith

get_from-offsets :
    (n : ℕ) {p : Bytes} {o : ℕ} (t : Streams p o)
    → Pmt.get_es_from p n (entry p o) ≡ get_elem? (offsets t) n
unfolding Pmt.get_es_from
get_from-offsets zero (stop e) = ground arith
get_from-offsets (suc n) (stop e) = ground arith
get_from-offsets zero (step h d t) = ground arith
get_from-offsets (suc n) {p} (step {o = o} h d t) =
    rw (entry-some p o h, next_entry p o h, Pmt.get_es_from) (get_from-offsets n t)

-- In a section that its stream entries fill, `pmt_get_es` finds them by their number, and NULL
-- behind the last.
pub get_es-offsets :
    (p : Bytes) (n : ℕ) (t : Streams p (12 + Pmt.get_desclength p))
    → Pmt.get_es p n ≡ get_elem? (offsets t) n
unfolding Pmt.get_es Pmt.next_es
get_es-offsets p n t = get_from-offsets n t

-- The first of the entries that has the packet identifier.
unfoldable pub first_with : Bytes → ℕ → List ℕ → Option ℕ
first_with p pid [] = none
first_with p pid (o ∷ os) = if Pmt.get_es_pid (at p o) == pid then some o else first_with p pid os

find_from-offsets :
    (fuel : ℕ) (p : Bytes) (pid : ℕ) {o : ℕ} (t : Streams p o)
    → Pmt.section_size p < fuel + o
    → Pmt.find_es_from fuel p pid (entry p o) ≡ some (first_with p pid (offsets t))
unfolding Pmt.find_es_from first_with
find_from-offsets zero p pid t h = absurd (omega (arith, Streams-le t))
find_from-offsets (suc fuel) p pid (stop e) h = ground arith
find_from-offsets (suc fuel) p pid (step {o = o} k d t) h =
    rw (entry-some p o k, next_entry p o k)
      (elim (Bool-cases (Pmt.get_es_pid (at p o) == pid)) [
        | inl e ↦ rw e refl
        | inr e ↦ rw e (find_from-offsets fuel p pid t (omega arith))
      ])

-- In a section that its stream entries fill, `pmt_find_es` ends, and it returns the first entry
-- with the packet identifier, or NULL where no entry has it.
pub find_es-offsets :
    (p : Bytes) (pid : ℕ) (t : Streams p (12 + Pmt.get_desclength p))
    → Pmt.find_es p pid ≡ some (first_with p pid (offsets t))
unfolding Pmt.find_es Pmt.next_es
find_es-offsets p pid t = find_from-offsets (Pmt.section_size p + 1) p pid t (omega arith)

-- ===== src/Common/Escape/Written.antt =====
-- What the escaping is to write for a code point, as tables: the characters of XML 1.0 and the names
-- of the five special ones.
use bitstream.Base.{
  ℕ, ◌≤◌, ◌<◌, ◌≡◌, refl, Bool, true, false, ◌&&◌, ◌||◌, List, [], ◌∷◌, ◌++◌, leb, ◌==◌,
  if◌then◌else◌, Bool-cases, inl, inr, sym, ◌∙◌, arith,
}
use bitstream.Common.Escape.{entity, is_char}
use bitstream.Common.Escape.Utf8.{utf8}

-- The first and the last code point of each range of XML characters.
abbrev xml_ranges : List (ℕ × ℕ)
xml_ranges = (9, 10) ∷ (13, 13) ∷ (32, 55295) ∷ (57344, 65533) ∷ (65536, 1114111) ∷ []

abbrev in_ranges : List (ℕ × ℕ) → ℕ → Bool
in_ranges [] v = false
in_ranges ((first, last) ∷ rs) v = (leb first v && leb v last) || in_ranges rs v

-- `&lt;`, `&gt;`, `&quot;`, `&apos;` and `&amp;`
abbrev pub names : List (ℕ × List ℕ)
names =
    (60, 38 ∷ 108 ∷ 116 ∷ 59 ∷ [])
    ∷ (62, 38 ∷ 103 ∷ 116 ∷ 59 ∷ [])
    ∷ (34, 38 ∷ 113 ∷ 117 ∷ 111 ∷ 116 ∷ 59 ∷ [])
    ∷ (39, 38 ∷ 97 ∷ 112 ∷ 111 ∷ 115 ∷ 59 ∷ [])
    ∷ (38, 38 ∷ 97 ∷ 109 ∷ 112 ∷ 59 ∷ [])
    ∷ []

-- The name of a code point, or else the code point in UTF-8.
abbrev pub named_in : List (ℕ × List ℕ) → ℕ → List ℕ
named_in [] v = utf8 v
named_in ((special, name) ∷ ns) v = if v == special then name else named_in ns v

-- A special character by its name, another character of XML in UTF-8, and U+FFFD for the rest.
unfoldable pub written : ℕ → List ℕ
written v = if in_ranges xml_ranges v then named_in names v else utf8 0xfffd

-- The text so written.
unfoldable pub escaped : List ℕ → List ℕ
unfolding written
escaped [] = []
escaped (v ∷ vs) = written v ++ escaped vs

-- Code points of at most 21 bits, none of them 0.
abbrev pub AllPoints : List ℕ → Type 0
AllPoints [] = Unit
AllPoints (v ∷ vs) = ((1 ≤ v) × (v < 2097152)) × AllPoints vs

is_char-in_ranges : (v : ℕ) → is_char v ≡ in_ranges xml_ranges v
unfolding is_char
is_char-in_ranges v = elim (Bool-cases (in_ranges xml_ranges v)) [
  | inl e ↦ ground (arith, e)
  | inr e ↦ ground (arith, e)
]

pub named-entity : (v : ℕ) → v < 0x80 → entity v ≡ named_in names v
unfolding entity utf8
named-entity v h = ground (arith, h)

pub named-utf8 : (v : ℕ) → 0x80 ≤ v → named_in names v ≡ utf8 v
named-utf8 v h = ground (arith, h)

pub written-char : (v : ℕ) → is_char v ≡ true → written v ≡ named_in names v
unfolding written
written-char v e = (let c = sym (is_char-in_ranges v) ∙ e in rw c refl)

pub written-replaced : (v : ℕ) → is_char v ≡ false → written v ≡ 0xef ∷ 0xbf ∷ 0xbd ∷ []
unfolding written utf8
written-replaced v e = (let c = sym (is_char-in_ranges v) ∙ e in rw c refl)

-- ===== src/Common/Escape/Tests.antt =====
-- The text `<é&` with more characters and a surrogate behind, and a string with a byte that starts no character.
use bitstream.Base.{arith, ℕ, ◌≡◌, refl, ◌+◌, some, List, [], ◌∷◌, ◌++◌, length}
use bitstream.Common.Escape.{xml_escape, escape_loop, skip, decode, peek, escape_step, chosen}
use bitstream.Common.Escape.Utf8.{text}
use bitstream.Common.Escape.Written.{AllPoints, escaped}
use bitstream.Common.Escape.Text.{xml_escape-text}
use bitstream.Common.Escape.Clean.{NoNul, AllClean, xml_escape-AllClean}

abbrev sample : List ℕ
sample = b'<' ∷ 0xe9 ∷ b'&' ∷ 0xfffd ∷ 0x1f600 ∷ 0xd800 ∷ []

sample-AllPoints : AllPoints sample
sample-AllPoints = (
  (omega arith, omega arith),
  (
    (omega arith, omega arith),
    (
      (omega arith, omega arith),
      ((omega arith, omega arith), ((omega arith, omega arith), ((omega arith, omega arith), tt))),
    ),
  ),
)

xml_escape-text_example :
    xml_escape (text sample) ≡ (1 + length (escaped sample), some (escaped sample ++ 0 ∷ []))
xml_escape-text_example = xml_escape-text sample sample-AllPoints

abbrev broken : List ℕ
broken = b'"' ∷ 0xff ∷ 0xe2 ∷ b'>' ∷ []

-- The two bytes that a lenient reader takes for `<`.
overlong_kept : xml_escape (0xc0 ∷ 0xbc ∷ []) ≡ (3, some (0xc0 ∷ 0xbc ∷ 0 ∷ []))
unfolding xml_escape escape_loop skip decode peek escape_step chosen
overlong_kept = refl

broken_nul : NoNul broken
broken_nul = (
  λ e. absurd (ground (arith, e)),
  (
    λ e. absurd (ground (arith, e)),
    (λ e. absurd (ground (arith, e)), (λ e. absurd (ground (arith, e)), tt)),
  ),
)

xml_escape-AllClean_example :
    (w : List ℕ) × (xml_escape broken ≡ (length w + 1, some (w ++ 0 ∷ []))) × AllClean w
xml_escape-AllClean_example = xml_escape-AllClean broken broken_nul

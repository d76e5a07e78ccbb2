-- ===== src/Common/Escape.antt =====
-- common.h: the escaping of text for XML. A C string is the list of its bytes without the NUL at its
-- end, which `peek` shows.
pub mod Utf8
pub mod Written
pub mod Rounds
pub mod Text
pub mod Clean
mod Tests
use bitstream.Base.{
  ℕ, zero, suc, ◌+◌, bit_and, bit_or, Bool, true, false, ◌&&◌, ◌||◌, not, Option, none, some, List,
  [], ◌∷◌, ◌++◌, length, ◌<<◌, ◌==◌, ltb, leb, if◌then◌else◌,
}

-- `str[i]`
unfoldable pub peek : List ℕ → ℕ → ℕ
peek [] i = 0
peek (c ∷ s) zero = c
peek (c ∷ s) (suc i) = peek s i

-- `str += n`
unfoldable pub skip : ℕ → List ℕ → List ℕ
skip zero s = s
skip (suc n) [] = []
skip (suc n) (c ∷ s) = skip n s

-- `(c & 0xC0) == 0x80`
unfoldable pub continues : ℕ → Bool
continues c = bit_and c 0xc0 == 0x80

-- The entities of the `switch`, and any other character below 0x80 itself.
unfoldable pub entity : ℕ → List ℕ
entity c =
    if c == b'<'
    then b'&' ∷ b'l' ∷ b't' ∷ b';' ∷ []
    else if c == b'>'
    then b'&' ∷ b'g' ∷ b't' ∷ b';' ∷ []
    else if c == b'"'
    then b'&' ∷ b'q' ∷ b'u' ∷ b'o' ∷ b't' ∷ b';' ∷ []
    else if c == b'\''
    then b'&' ∷ b'a' ∷ b'p' ∷ b'o' ∷ b's' ∷ b';' ∷ []
    else if c == b'&'
    then b'&' ∷ b'a' ∷ b'm' ∷ b'p' ∷ b';' ∷ []
    else c ∷ []

-- The variables of a round: the code point, the `size` bytes at `p`, and how far `str` has moved
-- behind `c`.
pub record Round : Type 0 where
  pub codepoint : ℕ
  pub piece : List ℕ
  pub moved : ℕ

-- The branches on the first byte `c`; `str` is behind it.
unfoldable pub decode : ℕ → List ℕ → Round
unfolding entity continues
decode c str =
    let d = peek str 0 in
    let e = peek str 1 in
    let f = peek str 2 in
    let plain : Round = record { codepoint = 0xfffd; piece = c ∷ []; moved = 0 } in
    if ltb c 0x80
    then record { codepoint = c; piece = entity c; moved = 0 }
    else if bit_and c 0xe0 == 0xc0
    then (if continues d
        then record {
          codepoint = bit_or (bit_and c 0x1f << 6) (bit_and d 0x3f);
          piece = c ∷ d ∷ [];
          moved = 1;
        }
        else plain)
    else if bit_and c 0xf0 == 0xe0
    then (if continues d && continues e
        then record {
          codepoint = bit_or (bit_or (bit_and c 0x0f << 12) (bit_and d 0x3f << 6)) (bit_and e 0x3f);
          piece = c ∷ d ∷ e ∷ [];
          moved = 2;
        }
        else plain)
    else if bit_and c 0xf8 == 0xf0
    then (if continues d && (continues e && continues f)
        then record {
          codepoint =
              bit_or
                (bit_or (bit_or (bit_and c 0x07 << 18) (bit_and d 0x3f << 12))
                  (bit_and e 0x3f << 6))
                (bit_and f 0x3f);
          piece = c ∷ d ∷ e ∷ f ∷ [];
          moved = 3;
        }
        else plain)
    else plain

-- The characters of XML 1.0, as the test behind the branches lists them.
unfoldable pub is_char : ℕ → Bool
is_char v =
    v == 0x9
    || (v == 0xa
        || (v == 0xd
            || ((leb 0x20 v && leb v 0xd7ff)
                || ((leb 0xe000 v && leb v 0xfffd) || (leb 0x10000 v && leb v 0x10ffff)))))

-- `"\uFFFD"` in UTF-8
abbrev pub replacement : List ℕ
replacement = 0xef ∷ 0xbf ∷ 0xbd ∷ []

-- What the round copies.
unfoldable pub chosen : Round → List ℕ
unfolding is_char
chosen r = if r.codepoint == 0xfffd || not (is_char (r.codepoint)) then replacement else r.piece

-- What is written so far, or no buffer, and `len`.
pub record Escaped : Type 0 where
  pub out : Option (List ℕ)
  pub len : ℕ

-- `if (out) { memcpy(out, p, size); out += size; }`
unfoldable pub append : Option (List ℕ) → List ℕ → Option (List ℕ)
append none piece = none
append (some w) piece = some (w ++ piece)

unfoldable pub escape_step : ℕ → List ℕ → Escaped → Escaped
unfolding append
escape_step c str s =
    let piece = chosen (decode c str) in
    record { out = append (s.out) piece; len = s.len + length piece }

-- `while (*str)`: a round takes one byte at least, so the bytes of the string are enough rounds.
unfoldable pub escape_loop : ℕ → List ℕ → Escaped → Escaped
escape_loop zero str s = s
escape_loop (suc fuel) [] s = s
escape_loop (suc fuel) (c ∷ str) s =
    escape_loop fuel (skip ((decode c str).moved) str) (escape_step c str s)

-- `out` is NULL or the buffer; the result has the bytes put there and the returned length.
unfoldable pub xml_escape_chars : List ℕ → Bool → Escaped
unfolding append
xml_escape_chars str has_out =
    let start : Escaped = record { out = if has_out then some [] else none; len = 1 } in
    let s = escape_loop (length str) str start in
    record { out = append (s.out) (0 ∷ []); len = s.len }

-- The size that is allocated, and what is written there. `malloc` is taken to succeed.
unfoldable pub xml_escape : List ℕ → ℕ × Option (List ℕ)
unfolding xml_escape_chars
xml_escape str = ((xml_escape_chars str false).len, (xml_escape_chars str true).out)

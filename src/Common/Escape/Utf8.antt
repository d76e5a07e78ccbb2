-- ===== src/Common/Escape/Utf8.antt =====
-- The escaping of well-formed UTF-8 text.
use bitstream.Base.{
  ℕ, ◌+◌, ◌*◌, ◌/◌, ◌%◌, ◌<◌, ◌≡◌, refl, true, false, List, [], ◌∷◌, ◌++◌, ltb, ◌==◌, ◌<<◌, bit_and,
  bit_or, if◌then◌else◌, arith,
}
use bitstream.Base.Bits.{masks, bit_or_disjoint, and_0xe0, and_0xc0, and_0xf0, and_0xf8}
use bitstream.Common.Escape.{decode, peek, entity, continues}

-- The code point in UTF-8.
unfoldable pub utf8 : ℕ → List ℕ
utf8 v =
    if ltb v 0x80
    then v ∷ []
    else if ltb v 0x800
    then (0xc0 + v / 64) ∷ (0x80 + v % 64) ∷ []
    else if ltb v 0x10000
    then (0xe0 + v / 4096) ∷ (0x80 + v / 64 % 64) ∷ (0x80 + v % 64) ∷ []
    else (0xf0 + v / 262144) ∷ (0x80 + v / 4096 % 64) ∷ (0x80 + v / 64 % 64) ∷ (0x80 + v % 64) ∷ []

-- A text of code points in UTF-8.
unfoldable pub text : List ℕ → List ℕ
unfolding utf8
text [] = []
text (v ∷ vs) = utf8 v ++ text vs

pub one :
    (v : ℕ) (rest : List ℕ)
    → v < 0x80
    → decode v rest ≡ record { codepoint = v; piece = entity v; moved = 0 }
unfolding decode
one v rest h = (let low : ltb v 0x80 ≡ true = ground (arith, h) in rw low refl)

pub two :
    (q r : ℕ) (rest : List ℕ)
    → q < 32
    → r < 64
    → decode (0xc0 + q) ((0x80 + r) ∷ rest)
      ≡ record { codepoint = q * 64 + r; piece = (0xc0 + q) ∷ (0x80 + r) ∷ []; moved = 1 }
unfolding decode continues peek
two q r rest h k =
    let high : ltb (0xc0 + q) 0x80 ≡ false = ground arith in
    let lead : (bit_and (0xc0 + q) 0xe0 == 0xc0) ≡ true = ground (arith, and_0xe0 (0xc0 + q)) in
    let next : (bit_and (0x80 + r) 0xc0 == 0x80) ≡ true = ground (arith, and_0xc0 (0x80 + r)) in
    let value : bit_or (bit_and (0xc0 + q) 0x1f << 6) (bit_and (0x80 + r) 0x3f) ≡ q * 64 + r =
      omega (masks, h, k, bit_or_disjoint 6) in
    rw (high, lead, next, value) refl

pub three :
    (q r t : ℕ) (rest : List ℕ)
    → q < 16
    → r < 64
    → t < 64
    → decode (0xe0 + q) ((0x80 + r) ∷ (0x80 + t) ∷ rest) ≡ record {
      codepoint = q * 4096 + r * 64 + t;
      piece = (0xe0 + q) ∷ (0x80 + r) ∷ (0x80 + t) ∷ [];
      moved = 2;
    }
unfolding decode continues peek
three q r t rest h k l =
    let high : ltb (0xe0 + q) 0x80 ≡ false = ground arith in
    let not_two : (bit_and (0xe0 + q) 0xe0 == 0xc0) ≡ false = ground (arith, and_0xe0 (0xe0 + q)) in
    let lead : (bit_and (0xe0 + q) 0xf0 == 0xe0) ≡ true = ground (arith, and_0xf0 (0xe0 + q)) in
    let next : (bit_and (0x80 + r) 0xc0 == 0x80) ≡ true = ground (arith, and_0xc0 (0x80 + r)) in
    let last : (bit_and (0x80 + t) 0xc0 == 0x80) ≡ true = ground (arith, and_0xc0 (0x80 + t)) in
    let value : bit_or (bit_or (bit_and (0xe0 + q) 0x0f << 12) (bit_and (0x80 + r) 0x3f << 6))
          (bit_and (0x80 + t) 0x3f)
        ≡ q * 4096 + r * 64 + t =
      omega (masks, h, k, l, bit_or_disjoint 12, bit_or_disjoint 6) in
    rw (high, not_two, lead, next, last, value) refl

pub four :
    (q r t u : ℕ) (rest : List ℕ)
    → q < 8
    → r < 64
    → t < 64
    → u < 64
    → decode (0xf0 + q) ((0x80 + r) ∷ (0x80 + t) ∷ (0x80 + u) ∷ rest) ≡ record {
      codepoint = q * 262144 + r * 4096 + t * 64 + u;
      piece = (0xf0 + q) ∷ (0x80 + r) ∷ (0x80 + t) ∷ (0x80 + u) ∷ [];
      moved = 3;
    }
unfolding decode continues peek
four q r t u rest h k l m =
    let high : ltb (0xf0 + q) 0x80 ≡ false = ground arith in
    let not_two : (bit_and (0xf0 + q) 0xe0 == 0xc0) ≡ false = ground (arith, and_0xe0 (0xf0 + q)) in
    let not_three : (bit_and (0xf0 + q) 0xf0 == 0xe0) ≡ false =
      ground (arith, and_0xf0 (0xf0 + q)) in
    let lead : (bit_and (0xf0 + q) 0xf8 == 0xf0) ≡ true = ground (arith, and_0xf8 (0xf0 + q)) in
    let second : (bit_and (0x80 + r) 0xc0 == 0x80) ≡ true = ground (arith, and_0xc0 (0x80 + r)) in
    let third : (bit_and (0x80 + t) 0xc0 == 0x80) ≡ true = ground (arith, and_0xc0 (0x80 + t)) in
    let last : (bit_and (0x80 + u) 0xc0 == 0x80) ≡ true = ground (arith, and_0xc0 (0x80 + u)) in
    let value : bit_or
          (bit_or (bit_or (bit_and (0xf0 + q) 0x07 << 18) (bit_and (0x80 + r) 0x3f << 12))
            (bit_and (0x80 + t) 0x3f << 6))
          (bit_and (0x80 + u) 0x3f)
        ≡ q * 262144 + r * 4096 + t * 64 + u =
      omega (masks, h, k, l, m, bit_or_disjoint 18, bit_or_disjoint 12, bit_or_disjoint 6) in
    rw (high, not_two, not_three, lead, second, third, last, value) refl

-- ===== src/Common/Escape/Clean.antt =====
-- What any string is escaped to: it fits the buffer, and it has no markup of its own.
use bitstream.Base.{
  ℕ, zero, suc, ◌+◌, ◌≤◌, ◌≡◌, ◌≢◌, refl, ap₂, ◌∙◌, Bool, true, false, Option, none, some, List, [],
  ◌∷◌, ◌++◌, length, length-append, ltb, ◌==◌, ◌!=◌, ◌&&◌, if◌then◌else◌, bit_and, arith,
}
use bitstream.Base.Bits.{and_0xc0}
use bitstream.Common.Escape.{
  Round, peek, continues, decode, chosen, entity, replacement, skip, escape_step, escape_loop,
  Escaped, append, xml_escape_chars, xml_escape,
}

-- Not a NUL, and none of the characters that start or end a tag or a value.
abbrev pub clean : ℕ → Bool
clean c = c != 0 && (c != b'<' && (c != b'>' && (c != b'"' && c != b'\'')))

abbrev pub AllClean : List ℕ → Type 0
AllClean [] = Unit
AllClean (c ∷ w) = (clean c ≡ true) × AllClean w

append-AllClean : (w x : List ℕ) → AllClean w → AllClean x → AllClean (w ++ x)
append-AllClean [] x a b = b
append-AllClean (c ∷ w) x a b = (a.0, append-AllClean w x (a.1) b)

continues_high : (d : ℕ) → continues d ≡ true → 0x80 ≤ d
unfolding continues
continues_high d h = ground (arith, h, and_0xc0 d)

high_clean : (d : ℕ) → 0x80 ≤ d → clean d ≡ true
high_clean d h = ground (arith, h)

if-AllClean :
    (b : Bool) (w x : List ℕ)
    → (b ≡ true → AllClean w)
    → (b ≡ false → AllClean x)
    → AllClean (if b then w else x)
if-AllClean true w x f g = f refl
if-AllClean false w x f g = g refl

entity-AllClean : (c : ℕ) → c ≢ 0 → AllClean (entity c)
unfolding entity
entity-AllClean c h =
    if-AllClean (c == b'<') _ _ (λ _. (refl, (refl, (refl, (refl, tt)))))
      (λ a.
        if-AllClean (c == b'>') _ _ (λ _. (refl, (refl, (refl, (refl, tt)))))
          (λ b.
            if-AllClean (c == b'"') _ _ (λ _. (refl, (refl, (refl, (refl, (refl, (refl, tt)))))))
              (λ d.
                if-AllClean (c == b'\'') _ _
                  (λ _. (refl, (refl, (refl, (refl, (refl, (refl, tt)))))))
                  (λ e.
                    if-AllClean (c == b'&') _ _ (λ _. (refl, (refl, (refl, (refl, (refl, tt))))))
                      (λ f. (ground (arith, h, a, b, d, e), tt))))))

if-Round :
    (P : Round → Type 0) (b : Bool) (r s : Round)
    → (b ≡ true → P r)
    → (b ≡ false → P s)
    → P (if b then r else s)
if-Round P true r s f g = f refl
if-Round P false r s f g = g refl

abbrev IsCleanRound : Round → Type 0
IsCleanRound r = AllClean (r.piece)

and_true : (a b : Bool) → (a && b) ≡ true → (a ≡ true) × (b ≡ true)
and_true a b h = (ground (arith, h), ground (arith, h))

decode-IsClean : (c : ℕ) (str : List ℕ) → c ≢ 0 → IsCleanRound (decode c str)
unfolding decode
decode-IsClean c str h =
    if-Round IsCleanRound (ltb c 0x80) _ _ (λ _. entity-AllClean c h)
      (λ a.
        let first = high_clean c (ground (arith, a)) in
        if-Round IsCleanRound (bit_and c 0xe0 == 0xc0) _ _
          (λ _.
            if-Round IsCleanRound (continues (peek str 0)) _ _ (λ d. (first, (byte 0 d, tt)))
              (λ _. (first, tt)))
          (λ _.
            if-Round IsCleanRound (bit_and c 0xf0 == 0xe0) _ _
              (λ _.
                if-Round IsCleanRound (continues (peek str 0) && continues (peek str 1)) _ _
                  (λ d. (first, (byte 0 ((and_true _ _ d).0), (byte 1 ((and_true _ _ d).1), tt))))
                  (λ _. (first, tt)))
              (λ _.
                if-Round IsCleanRound (bit_and c 0xf8 == 0xf0) _ _
                  (λ _.
                    if-Round IsCleanRound
                      (continues (peek str 0) && (continues (peek str 1) && continues (peek str 2)))
                      _ _
                      (λ d.
                        let e = and_true _ _ ((and_true _ _ d).1) in
                        (first, (byte 0 ((and_true _ _ d).0), (byte 1 (e.0), (byte 2 (e.1), tt)))))
                      (λ _. (first, tt)))
                  (λ _. (first, tt)))))
  where
    byte : (i : ℕ) → continues (peek str i) ≡ true → clean (peek str i) ≡ true
    byte i d = high_clean (peek str i) (continues_high (peek str i) d)

chosen-AllClean : (c : ℕ) (str : List ℕ) → c ≢ 0 → AllClean (chosen (decode c str))
unfolding chosen
chosen-AllClean c str h =
    if-AllClean _ replacement _ (λ _. (refl, (refl, (refl, tt)))) (λ _. decode-IsClean c str h)

abbrev pub NoNul : List ℕ → Type 0
NoNul [] = Unit
NoNul (c ∷ str) = (c ≢ 0) × NoNul str

skip-NoNul : (n : ℕ) (str : List ℕ) → NoNul str → NoNul (skip n str)
unfolding skip
skip-NoNul zero str h = h
skip-NoNul (suc n) [] h = tt
skip-NoNul (suc n) (c ∷ str) h = skip-NoNul n str (h.1)

-- The passes without and with a buffer.
pub record Passes (str w : List ℕ) (n : ℕ) (a b : Escaped) : Type 0 where
  pub nothing : a.out ≡ none
  pub written : List ℕ
  pub something : b.out ≡ some written
  pub is_clean : NoNul str → AllClean w → AllClean written
  pub counted : length written + n ≡ length w + b.len
  pub same_len : a.len ≡ b.len

no_round :
    (str w : List ℕ) (n : ℕ)
    → Passes str w n (record { out = none; len = n }) (record { out = some w; len = n })
no_round str w n = record {
  nothing = refl;
  written = w;
  something = refl;
  is_clean = λ _ h. h;
  counted = refl;
  same_len = refl;
}

pub loop-Passes :
    (fuel n : ℕ) (str w : List ℕ)
    → Passes str w n
        (escape_loop fuel str (record { out = none; len = n }))
        (escape_loop fuel str (record { out = some w; len = n }))
unfolding escape_loop escape_step append
loop-Passes zero n str w = no_round str w n
loop-Passes (suc fuel) n [] w = no_round [] w n
loop-Passes (suc fuel) n (c ∷ str) w =
    let x = chosen (decode c str) in
    let rest = loop-Passes fuel (n + length x) (skip ((decode c str).moved) str) (w ++ x) in
    record {
      nothing = rest.nothing;
      written = rest.written;
      something = rest.something;
      is_clean = λ h a.
          rest.is_clean (skip-NoNul _ str (h.1))
            (append-AllClean w x a (chosen-AllClean c str (h.0)));
      counted = omega (arith, rest.counted, length-append w x);
      same_len = rest.same_len;
    }

-- Of every string without a NUL, `bitstream_xml_escape` allocates exactly the bytes that it writes,
-- and what it writes is a NUL behind bytes none of which is a NUL, an angle bracket or a quote.
pub xml_escape-AllClean :
    (str : List ℕ)
    → NoNul str
    → (w : List ℕ) × (xml_escape str ≡ (length w + 1, some (w ++ 0 ∷ []))) × AllClean w
unfolding xml_escape xml_escape_chars append
xml_escape-AllClean str h =
    let p = loop-Passes (length str) 1 str [] in
    (
      p.written,
      ap₂ (λ (k : ℕ) (o : Option (List ℕ)). (k, append o (0 ∷ [])))
          (p.same_len ∙ omega (arith, p.counted)) (p.something),
      p.is_clean h tt,
    )

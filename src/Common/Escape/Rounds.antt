-- ===== src/Common/Escape/Rounds.antt =====
-- One round of the loop at the start of a code point in UTF-8.
use native.Mathlib.Decide.{dec_lt}
use bitstream.Base.{
  ==_iff, ℕ, ◌+◌, ◌/◌, ◌%◌, ◌≤◌, ◌<◌, ◌≡◌, refl, sym, ap, ◌∙◌, true, false, List, [], ◌∷◌, ◌++◌,
  length, ltb, ◌==◌, Bool-cases, inl, inr, arith,
}
use bitstream.Common.Escape.{Round, decode, is_char, chosen, replacement, skip}
use bitstream.Common.Escape.Written.{
  written, names, named_in, named-entity, named-utf8, written-char, written-replaced,
}
use bitstream.Common.Escape.Utf8.{utf8, one, two, three, four}

-- One round at the start of a code point.
pub record Rounds (v : ℕ) (rest : List ℕ) : Type 0 where
  pub c : ℕ
  pub str : List ℕ
  pub starts : utf8 v ++ rest ≡ c ∷ str
  pub copies : chosen (decode c str) ≡ written v
  pub ends : skip ((decode c str).moved) str ≡ rest
  pub shorter : length rest ≤ length str

chosen_lem :
    (v moved : ℕ) (piece : List ℕ)
    → piece ≡ named_in names v
    → (v ≡ 0xfffd → piece ≡ replacement)
    → chosen (record { codepoint = v; piece = piece; moved = moved }) ≡ written v
unfolding chosen
chosen_lem v moved piece h k = elim (Bool-cases (is_char v)) [
  | inr e ↦ sym (written-replaced v e ∙ ground (arith, e))
  | inl e ↦ elim (Bool-cases (v == 0xfffd)) [
    | inl f ↦ rw f (sym (k ((==_iff v _).0 f)) ∙ h ∙ sym (written-char v e))
    | inr f ↦ rw (f, e) (h ∙ sym (written-char v e))
  ]
]

chosen-decode :
    (v moved : ℕ) (c : ℕ) (str piece : List ℕ)
    → decode c str ≡ record { codepoint = v; piece = piece; moved = moved }
    → piece ≡ named_in names v
    → (v ≡ 0xfffd → piece ≡ replacement)
    → chosen (decode c str) ≡ written v
chosen-decode v moved c str piece e h k = ap chosen e ∙ chosen_lem v moved piece h k

skip-decode :
    (c n : ℕ) (str rest : List ℕ) (r : Round)
    → decode c str ≡ r
    → r.moved ≡ n
    → skip n str ≡ rest
    → skip ((decode c str).moved) str ≡ rest
skip-decode c n str rest r e m h =
    ap (λ (k : ℕ). skip k str) (ap (λ (x : Round). x.moved) e ∙ m) ∙ h

round_two : (v : ℕ) (rest : List ℕ) → 0x80 ≤ v → v < 0x800 → Rounds v rest
unfolding utf8 skip
round_two v rest low high =
    let decoded : decode (0xc0 + v / 64) ((0x80 + v % 64) ∷ rest)
        ≡ record { codepoint = v; piece = (0xc0 + v / 64) ∷ (0x80 + v % 64) ∷ []; moved = 1 } =
      two (v / 64) (v % 64) rest (omega (arith, high)) (omega arith)
      ∙ ap
          (λ (x : ℕ). record {
            codepoint = x;
            piece = (0xc0 + v / 64) ∷ (0x80 + v % 64) ∷ [];
            moved = 1;
          })
          (omega arith) in
    let not_one : ltb v 0x80 ≡ false = ground (arith, low) in
    let is_two : ltb v 0x800 ≡ true = ground (arith, high) in
    record {
      c = 0xc0 + v / 64;
      str = (0x80 + v % 64) ∷ rest;
      starts = rw (not_one, is_two) refl;
      copies =
          chosen-decode v 1 _ _ _ decoded
            (let whole : utf8 v ≡ (0xc0 + v / 64) ∷ (0x80 + v % 64) ∷ [] =
                rw (not_one, is_two) refl in
              sym (named-utf8 v low ∙ whole))
            (λ e. absurd (omega (arith, e, high)));
      ends = skip-decode _ 1 _ rest _ decoded refl refl;
      shorter = omega arith;
    }

round_three : (v : ℕ) (rest : List ℕ) → 0x800 ≤ v → v < 0x10000 → Rounds v rest
unfolding utf8 skip
round_three v rest low high =
    let bytes : List ℕ = (0xe0 + v / 4096) ∷ (0x80 + v / 64 % 64) ∷ (0x80 + v % 64) ∷ [] in
    let decoded : decode (0xe0 + v / 4096) ((0x80 + v / 64 % 64) ∷ (0x80 + v % 64) ∷ rest)
        ≡ record { codepoint = v; piece = bytes; moved = 2 } =
      three (v / 4096) (v / 64 % 64) (v % 64) rest (omega (arith, high)) (omega arith) (omega arith)
      ∙ ap (λ (x : ℕ). record { codepoint = x; piece = bytes; moved = 2 }) (omega arith) in
    let not_one : ltb v 0x80 ≡ false = ground (arith, low) in
    let not_two : ltb v 0x800 ≡ false = ground (arith, low) in
    let is_three : ltb v 0x10000 ≡ true = ground (arith, high) in
    record {
      c = 0xe0 + v / 4096;
      str = (0x80 + v / 64 % 64) ∷ (0x80 + v % 64) ∷ rest;
      starts = rw (not_one, not_two, is_three) refl;
      copies =
          chosen-decode v 2 _ _ _ decoded
            (let whole : utf8 v ≡ bytes = rw (not_one, not_two, is_three) refl in
              sym (named-utf8 v (omega (arith, low)) ∙ whole))
            (λ e. replaced e);
      ends = skip-decode _ 2 _ rest _ decoded refl refl;
      shorter = omega arith;
    }
  where
    replaced :
        v ≡ 0xfffd → (0xe0 + v / 4096) ∷ (0x80 + v / 64 % 64) ∷ (0x80 + v % 64) ∷ [] ≡ replacement
    replaced e = ap (λ (x : ℕ). (0xe0 + x / 4096) ∷ (0x80 + x / 64 % 64) ∷ (0x80 + x % 64) ∷ []) e

round_four : (v : ℕ) (rest : List ℕ) → 0x10000 ≤ v → v < 0x200000 → Rounds v rest
unfolding utf8 skip
round_four v rest low high =
    let bytes : List ℕ =
      (0xf0 + v / 262144) ∷ (0x80 + v / 4096 % 64) ∷ (0x80 + v / 64 % 64) ∷ (0x80 + v % 64) ∷ [] in
    let decoded : decode (0xf0 + v / 262144)
          ((0x80 + v / 4096 % 64) ∷ (0x80 + v / 64 % 64) ∷ (0x80 + v % 64) ∷ rest)
        ≡ record { codepoint = v; piece = bytes; moved = 3 } =
      four (v / 262144) (v / 4096 % 64) (v / 64 % 64) (v % 64) rest (omega (arith, high))
        (omega arith) (omega arith) (omega arith)
      ∙ ap (λ (x : ℕ). record { codepoint = x; piece = bytes; moved = 3 }) (omega arith) in
    let not_one : ltb v 0x80 ≡ false = ground (arith, low) in
    let not_two : ltb v 0x800 ≡ false = ground (arith, low) in
    let not_three : ltb v 0x10000 ≡ false = ground (arith, low) in
    record {
      c = 0xf0 + v / 262144;
      str = (0x80 + v / 4096 % 64) ∷ (0x80 + v / 64 % 64) ∷ (0x80 + v % 64) ∷ rest;
      starts = rw (not_one, not_two, not_three) refl;
      copies =
          chosen-decode v 3 _ _ _ decoded
            (let whole : utf8 v ≡ bytes = rw (not_one, not_two, not_three) refl in
              sym (named-utf8 v (omega (arith, low)) ∙ whole))
            (λ e. absurd (omega (arith, e, low)));
      ends = skip-decode _ 3 _ rest _ decoded refl refl;
      shorter = omega arith;
    }

round_one : (v : ℕ) (rest : List ℕ) → v < 0x80 → Rounds v rest
unfolding utf8 skip
round_one v rest high =
    let is_one : ltb v 0x80 ≡ true = ground (arith, high) in
    record {
      c = v;
      str = rest;
      starts = rw is_one refl;
      copies =
          chosen-decode v 0 _ _ _ (one v rest high) (named-entity v high)
            (λ e. absurd (omega (arith, e, high)));
      ends = skip-decode _ 0 _ rest _ (one v rest high) refl refl;
      shorter = omega arith;
    }

pub round_lem : (v : ℕ) (rest : List ℕ) → v < 0x200000 → Rounds v rest
round_lem v rest h = elim (dec_lt v 0x80) [
  | yes a ↦ round_one v rest a
  | no a ↦ elim (dec_lt v 0x800) [
    | yes b ↦ round_two v rest (omega (arith, a)) b
    | no b ↦ elim (dec_lt v 0x10000) [
      | yes c ↦ round_three v rest (omega (arith, b)) c
      | no c ↦ round_four v rest (omega (arith, c)) h
    ]
  ]
]

-- ===== src/Common/Escape/Text.antt =====
-- The escaping of a text of code points in UTF-8 as a whole.
use mathlib.Core.List.{append_assoc, append-nil}
use bitstream.Base.{
  ℕ, zero, suc, ◌+◌, ◌≤◌, ◌≡◌, refl, sym, ap, ap₂, ◌∙◌, Option, some, List, [], ◌∷◌, ◌++◌, length,
  length-append, arith,
}
use bitstream.Common.Escape.{
  decode, chosen, skip, escape_step, escape_loop, Escaped, append, xml_escape_chars, xml_escape,
}
use bitstream.Common.Escape.Utf8.{text}
use bitstream.Common.Escape.Written.{written, escaped, AllPoints}
use bitstream.Common.Escape.Clean.{loop-Passes}
use bitstream.Common.Escape.Rounds.{round_lem}

loop-nil : (fuel : ℕ) (s : Escaped) → escape_loop fuel [] s ≡ s
unfolding escape_loop
loop-nil zero s = refl
loop-nil (suc fuel) s = refl

step_is :
    (c n : ℕ) (str w x : List ℕ)
    → chosen (decode c str) ≡ x
    → escape_step c str (record { out = some w; len = n })
      ≡ record { out = some (w ++ x); len = n + length x }
unfolding escape_step append
step_is c n str w x e = rw e refl

loop_round :
    (fuel c : ℕ) (str : List ℕ) (s : Escaped)
    → escape_loop (suc fuel) (c ∷ str) s
      ≡ escape_loop fuel (skip ((decode c str).moved) str) (escape_step c str s)
unfolding escape_loop
loop_round fuel c str s = refl

loop_text :
    (fuel n : ℕ) (vs w : List ℕ)
    → AllPoints vs
    → length (text vs) ≤ fuel
    → escape_loop fuel (text vs) (record { out = some w; len = n })
      ≡ record { out = some (w ++ escaped vs); len = n + length (escaped vs) }
unfolding text escaped
loop_text fuel n [] w a h =
    loop-nil fuel _
    ∙ ap (λ (l : List ℕ). record { out = some l; len = n }) (sym (append-nil w))
    ∙ ap (λ (k : ℕ). record { out = some (w ++ []); len = k }) (omega arith)
loop_text zero n (v ∷ vs) w a h =
    let r = round_lem v (text vs) (a.0.1) in
    absurd (omega (arith, h, ap (λ (l : List ℕ). length l) (r.starts)))
loop_text (suc fuel) n (v ∷ vs) w a h =
    let r = round_lem v (text vs) (a.0.1) in
    let x : List ℕ = written v in
    let counted : length (text vs) ≤ fuel =
      omega (arith, h, r.shorter, ap (λ (l : List ℕ). length l) (r.starts)) in
    ap (λ (l : List ℕ). escape_loop (suc fuel) l (record { out = some w; len = n })) (r.starts)
    ∙ loop_round fuel (r.c) (r.str) (record { out = some w; len = n })
    ∙ ap₂ (λ (l : List ℕ) (s : Escaped). escape_loop fuel l s) (r.ends)
        (step_is (r.c) n (r.str) w x (r.copies))
    ∙ loop_text fuel (n + length x) vs (w ++ x) (a.1) counted
    ∙ ap₂ (λ (l : List ℕ) (k : ℕ). record { out = some l; len = k }) (append_assoc w x (escaped vs))
        (omega (arith, length-append x (escaped vs)))

-- From a text of code points in UTF-8, of at most 21 bits and none of them 0, `bitstream_xml_escape`
-- makes the text with the five special characters as entities, every other character of XML 1.0 as it
-- is and every other code point as U+FFFD, and a NUL behind it, in a buffer of just that size.
pub xml_escape-text :
    (vs : List ℕ)
    → AllPoints vs
    → xml_escape (text vs) ≡ (1 + length (escaped vs), some (escaped vs ++ 0 ∷ []))
unfolding xml_escape xml_escape_chars append
xml_escape-text vs a =
    let fits : length (text vs) ≤ length (text vs) = omega arith in
    let p = loop-Passes (length (text vs)) 1 (text vs) [] in
    let done = loop_text (length (text vs)) 1 vs [] a fits in
    ap₂ (λ (k : ℕ) (o : Option (List ℕ)). (k, append o (0 ∷ [])))
      (p.same_len ∙ ap (λ (s : Escaped). s.len) done) (ap (λ (s : Escaped). s.out) done)

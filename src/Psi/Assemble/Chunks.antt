-- ===== src/Psi/Assemble/Chunks.antt =====
-- A section that arrives in any number of pieces, and one that is too long.
use native.Mathlib.Decide.{dec_lt}
use bitstream.Base.{
  ℕ, ◌+◌, ◌≤◌, ◌<◌, ◌≡◌, ◌≢◌, ◌⊎◌, inl, inr, refl, ap, ◌∙◌, subst, Option, none, some, List, [],
  ◌∷◌, Bytes, IsBytes, at, arith, ◌==◌, ==_iff, Bool-cases,
}
use bitstream.Psi
use bitstream.Psi.Assemble
use bitstream.Psi.Assemble.{Assembly, Fed}
use bitstream.Psi.Assemble.Step.{Agree, Holds, into_more, into_done, into_too_long}

-- The caller's loop: one call for each chunk of the stream `s`, until a section comes out.
unfoldable pub feed : Bytes → Assembly → Bytes → ℕ → List ℕ → Option Bytes
feed fresh st s o [] = none
feed fresh st s o (c ∷ cs) =
    let r = Assemble.assemble_payload fresh st (at s o) c in
    let rest = feed fresh (r.assembly) s (o + c) cs in
    elim (r.section) [ none ↦ rest | some t ↦ some t ]

-- The two cases of a call, with the result of the call as a value of its own.
feed_step :
    (fresh : Bytes) (st : Assembly) (s : Bytes) (o c : ℕ) (cs : List ℕ) (r : Fed)
    → Assemble.assemble_payload fresh st (at s o) c ≡ r
    → (r.section ≡ none → feed fresh st s o (c ∷ cs) ≡ feed fresh (r.assembly) s (o + c) cs)
      × ((t : Bytes) → r.section ≡ some t → feed fresh st s o (c ∷ cs) ≡ some t)
feed_step fresh st s o c cs r e =
    subst
      (λ (x : Fed).
        (x.section ≡ none → feed fresh st s o (c ∷ cs) ≡ feed fresh (x.assembly) s (o + c) cs)
        × ((t : Bytes) → x.section ≡ some t → feed fresh st s o (c ∷ cs) ≡ some t))
      e (λ k. unfold feed in rw (k, feed), λ t k. unfold feed in rw (k, feed))

abbrev pub sum : List ℕ → ℕ
sum [] = 0
sum (c ∷ cs) = c + sum cs

abbrev pub AllShort : List ℕ → Type 0
AllShort [] = Unit
AllShort (c ∷ cs) = (c < 256) × AllShort cs

-- The assembly holds the first `n` bytes of the section; before the first call nothing is allocated.
abbrev pub Has : Bytes → ℕ → ℕ → Assembly → Type 0
Has s size n st =
    ((st ≡ Assemble.assemble_init) × (n ≡ 0))
    ⊎ ((b : Bytes) × (st ≡ record { buffer = some b; used = n }) × Holds s size b n)

module _ (fresh s : Bytes) (size : ℕ) (whole : size ≡ Psi.get_length s + 3) (fits : size ≤ 4093)
    (no_padding : s 0 ≢ 0xff) where
  payload_start :
      (p : Bytes) (c : ℕ)
      → p 0 ≢ 0xff
      → Assemble.assemble_payload fresh Assemble.assemble_init p c
        ≡ Assemble.assemble_into fresh 0 p c
  unfolding Assemble.assemble_payload
  payload_start p c first = elim (Bool-cases (p 0 == 0xff)) [
    | inl e ↦ absurd (first ((==_iff _ _).0 e))
    | inr e ↦ rw e
  ]

  -- The call is the copy into the buffer, allocated first where there is none.
  pub payload_into :
      (n c : ℕ) (st : Assembly) (p : Bytes)
      → Has s size n st
      → (n ≡ 0 → p 0 ≢ 0xff)
      → (b : Bytes) × Holds s size b n
        × (Assemble.assemble_payload fresh st p c ≡ Assemble.assemble_into b n p c)
  unfolding Assemble.assemble_payload
  payload_into n c st p (inl (e, z)) first = (
    fresh,
    record { partial = omega arith; same = λ i h. absurd (omega arith) },
    rw (e, z) (payload_start p c (first z)),
  )
  payload_into n c st p (inr (b, e, h)) first = (b, h, rw e refl)

  pub Has-lt : (n : ℕ) (st : Assembly) → Has s size n st → n < size
  Has-lt n st (inl (e, z)) = omega arith
  Has-lt n st (inr (b, e, h)) = h.partial

  feed_lem :
      (cs : List ℕ) (n : ℕ) (st : Assembly)
      → AllShort cs
      → Has s size n st
      → (size ≤ n + sum cs → (t : Bytes) × (feed fresh st s n cs ≡ some t) × Agree size t s)
        × (n + sum cs < size → feed fresh st s n cs ≡ none)
  feed_lem [] n st a h = (λ k. absurd (omega (arith, Has-lt n st h)), λ k. unfold feed in refl)
  feed_lem (c ∷ cs) n st (a, b) h =
      let (buffer, held, call) =
        payload_into n c st (at s n) h (λ z e. no_padding (ap s (omega (arith, z)) ∙ e)) in
      elim (dec_lt (n + c) size) [
        | yes more ↦
            let (b', held', e) =
              into_more s size whole fits buffer n held (at s n) c a (λ i _ _. refl) more in
            let next : Assembly = record { buffer = some b'; used = n + c } in
            let (there, missing) = feed_lem cs (n + c) next b (inr (b', refl, held')) in
            rw ((feed_step fresh st s n c cs _ (call ∙ e)).0 refl)
              (λ k. there (omega arith), λ k. missing (omega arith))
        | no last ↦
            let (b', same, e) =
              into_done s size whole fits buffer n held (at s n) c a (λ i _ _. refl)
                (omega arith) in
            let out = (feed_step fresh st s n c cs _ (call ∙ e)).1 b' refl in
            (λ k. (b', out, same), λ k. absurd (omega arith))
      ]

  -- A section of at most 4093 bytes in all, as its length field says, that does not start with 0xff
  -- comes out of the calls of `psi_assemble_payload` exactly when enough bytes went in, however they
  -- are cut into chunks of fewer than 256 bytes, and its bytes are those that were sent.
  pub feed-Agree :
      (cs : List ℕ)
      → AllShort cs
      → ((size ≤ sum cs)
          × ((t : Bytes) × (feed fresh Assemble.assemble_init s 0 cs ≡ some t) × Agree size t s))
        ⊎ ((sum cs < size) × (feed fresh Assemble.assemble_init s 0 cs ≡ none))
  feed-Agree cs a =
      let (there, missing) = feed_lem cs 0 Assemble.assemble_init a (inl (refl, refl)) in
      elim (dec_lt (sum cs) size) [
        | yes short ↦ inr (short, missing (omega arith))
        | no enough ↦ inl (omega arith, there (omega arith))
      ]

-- From the empty assembly, a call with at least the three header bytes of a section that does not
-- start with 0xff and whose length field is above 4090, at 4093 too, drops the section and the rest
-- of the payload.
pub assemble_payload_too_long :
    (fresh s : Bytes) (length : ℕ)
    → IsBytes s
    → s 0 ≢ 0xff
    → 4090 < Psi.get_length s
    → 3 ≤ length
    → length < 256
    → Assemble.assemble_payload fresh Assemble.assemble_init s length
      ≡ record { assembly = Assemble.assemble_init; advance = 0; length = 0; section = none }
unfolding Assemble.assemble_payload
assemble_payload_too_long fresh s length b first long least short =
    elim (Bool-cases (s 0 == 0xff)) [
      | inl e ↦ absurd (first ((==_iff _ _).0 e))
      | inr e ↦ rw e (into_too_long fresh s length b long least short)
    ]

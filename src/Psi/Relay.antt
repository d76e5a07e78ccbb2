-- ===== src/Psi/Relay.antt =====
-- A section on its way from `psi_split_section` to `psi_assemble_payload`, one packet at a time.
use native.Mathlib.Decide.{dec_lt}
use bitstream.Base.{
  ℕ, zero, suc, ◌+◌, ◌-◌, ◌*◌, ◌≤◌, ◌<◌, ◌≡◌, ◌≢◌, ◌⊎◌, inl, inr, refl, sym, ap, ◌∙◌, subst, Option,
  none, some, Bytes, IsBytes, at, arith,
}
use bitstream.Psi
use bitstream.Psi.Split
use bitstream.Psi.Split.{Split}
use bitstream.Psi.Assemble
use bitstream.Psi.Assemble.{Assembly, Fed}
use bitstream.Psi.Assemble.Chunks.{Has, Has-lt, payload_into}
use bitstream.Psi.Assemble.Step.{Agree, Holds, into_more, into_done}
use bitstream.Psi.Split.Sent.{start_of, split_section-IsSent}

-- The sender cuts the section, from the offset `from`, into packets of its own; the receiver takes the
-- payload of each, to the end of the packet.
unfoldable pub relay : ℕ → Bytes → Bytes → Assembly → Bytes → ℕ → Option Bytes
relay zero ts fresh st section from = none
relay (suc fuel) ts fresh st section from =
    let r = Split.split_section ts 0 section from in
    let o = start_of (r.packet) in
    let f = Assemble.assemble_payload fresh st (at (r.packet) o) (188 - o) in
    let rest = relay fuel ts fresh (f.assembly) section (r.section_offset) in
    elim (f.section) [ none ↦ rest | some t ↦ some t ]

-- The two cases of a packet, with the result of the receiver's call as a value of its own.
relay_step :
    (fuel : ℕ) (ts fresh : Bytes) (st : Assembly) (section : Bytes) (from : ℕ) (f : Fed)
    → Assemble.assemble_payload fresh st
        (at
          ((Split.split_section ts 0 section from).packet)
          (start_of ((Split.split_section ts 0 section from).packet)))
        (188 - start_of ((Split.split_section ts 0 section from).packet))
      ≡ f
    → (f.section ≡ none
        → relay (suc fuel) ts fresh st section from
          ≡ relay fuel ts fresh
              (f.assembly)
              section
              ((Split.split_section ts 0 section from).section_offset))
      × ((t : Bytes) → f.section ≡ some t → relay (suc fuel) ts fresh st section from ≡ some t)
relay_step fuel ts fresh st section from f e =
    subst
      (λ (x : Fed).
        (x.section ≡ none
          → relay (suc fuel) ts fresh st section from
            ≡ relay fuel ts fresh (x.assembly) section
                ((Split.split_section ts 0 section from).section_offset))
        × ((t : Bytes) → x.section ≡ some t → relay (suc fuel) ts fresh st section from ≡ some t))
      e (λ k. unfold relay in rw (k, relay), λ t k. unfold relay in rw (k, relay))

module _ (ts fresh s : Bytes) (b : IsBytes s) (fits : Psi.get_length s + 3 ≤ 4093)
    (no_padding : s 0 ≢ 0xff) where
  abbrev whole : ℕ
  whole = Psi.get_length s + 3

  -- The receiver's call on the packet that starts at the offset `n` of the section.
  call : ℕ → Assembly → Fed
  call n st =
      Assemble.assemble_payload fresh st
        (at ((Split.split_section ts 0 s n).packet)
          (start_of ((Split.split_section ts 0 s n).packet)))
        (188 - start_of ((Split.split_section ts 0 s n).packet))

  -- It takes `c` bytes and wants more, or it has the whole section.
  Taken : ℕ → Assembly → Type 0
  unfolding call
  Taken n st =
      ((c : ℕ) × (183 ≤ c)
        × (n + c < whole)
        × ((Split.split_section ts 0 s n).section_offset ≡ n + c)
        × ((b' : Bytes) × Holds s whole b' (n + c)
            × (call n st ≡ record {
              assembly = record { buffer = some b'; used = n + c };
              advance = c;
              length = 0;
              section = none;
            })))
      ⊎ ((b' : Bytes) × Agree whole b' s × ((f : Fed) × (call n st ≡ f) × (f.section ≡ some b')))

  taken : (n : ℕ) (st : Assembly) → Has s whole n st → Taken n st
  unfolding Taken
  taken n st h =
      let partial = Has-lt fresh s whole refl fits no_padding n st h in
      let sent = split_section-IsSent ts s b n (omega (arith, partial)) in
      let r = Split.split_section ts 0 s n in
      let o : ℕ = sent.start in
      let c : ℕ = 188 - o in
      let payload : Bytes = at (r.packet) o in
      let continues : (i : ℕ) → i < c → n + i < whole → payload i ≡ s (n + i) =
        (λ i x y. sent.copied i (omega (arith, x, y, sent.ends, sent.bounds))) in
      let first : n ≡ 0 → payload 0 ≢ 0xff = (λ z e. no_padding (
        ap s (omega (arith, z))
        ∙ sym (continues 0 (omega (arith, sent.one_of)) (omega (arith, partial)))
        ∙ e)) in
      let (buffer, held, into) =
        payload_into fresh s whole refl fits no_padding n c st payload h first in
      let called : call n st ≡ Assemble.assemble_into buffer n payload c =
        ap (λ (j : ℕ). Assemble.assemble_payload fresh st (at (r.packet) j) (188 - j))
          (sent.start_is)
        ∙ into in
      elim (dec_lt (n + c) whole) [
        | yes more ↦
            let (b', held', e) =
              into_more s whole refl fits buffer n held payload c (omega arith) continues more in
            inl (
              c,
              omega (arith, sent.one_of),
              more,
              omega (arith, sent.ends, more),
              (b', held', called ∙ e),
            )
        | no last ↦
            let (b', same, e) =
              into_done s whole refl fits buffer n held payload c (omega arith) continues
                (omega (arith, last)) in
            inr (b', same, (_, called ∙ e, refl))
      ]

  relay_lem :
      (fuel n : ℕ) (st : Assembly)
      → Has s whole n st
      → whole ≤ n + 183 * fuel
      → (t : Bytes) × (relay fuel ts fresh st s n ≡ some t) × Agree whole t s
  unfolding Taken
  relay_lem zero n st h k =
      absurd (omega (arith, k, Has-lt fresh s whole refl fits no_padding n st h))
  relay_lem (suc fuel) n st h k = elim (taken n st h) [
    | inl (c, long, more, moved, (b', held, e)) ↦
        let next : Assembly = record { buffer = some b'; used = n + c } in
        let (t, out, same) =
          relay_lem fuel (n + c) next (inr (b', refl, held)) (omega (arith, k, long)) in
        (
          t,
          (relay_step fuel ts fresh st s n _ e).0 refl
              ∙ ap (λ (m : ℕ). relay fuel ts fresh next s m) moved
              ∙ out,
          same,
        )
    | inr (b', same, (f, e, done)) ↦ (b', (relay_step fuel ts fresh st s n f e).1 b' done, same)
  ]

  -- A section of at most 4093 bytes in all, as its length field says, that does not start with 0xff,
  -- cut by `psi_split_section` into packets of its own and taken from their payloads by
  -- `psi_assemble_payload`, comes out byte for byte, from as few packets as have room for it at 183
  -- bytes each.
  pub relay-Agree :
      (packets : ℕ)
      → whole ≤ 183 * packets
      → (t : Bytes) × (relay packets ts fresh Assemble.assemble_init s 0 ≡ some t) × Agree whole t s
  relay-Agree packets h =
      relay_lem packets 0 Assemble.assemble_init (inl (refl, refl)) (omega (arith, h))

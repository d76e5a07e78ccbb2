-- ===== src/Psi/Split/Chunk.antt =====
-- One call of `psi_split_section`: how far it gets, and what it puts into the packet.
use bitstream.Base.{
  ℕ, ◌+◌, ◌-◌, ◌^◌, ◌≤◌, ◌<◌, ◌≡◌, ◌⊎◌, inl, inr, refl, Bytes, IsBytes, u16, ltb, ◌==◌, ==_iff,
  Bool-cases, arith, if◌then◌else◌,
}
use bitstream.Ts
use bitstream.Psi
use bitstream.Psi.Crc.RoundTrip.{get_length-lt}
use bitstream.Psi.Split
use bitstream.Psi.Split.{Split}

-- From the offset `from` of a section of `size` bytes the call got on to `r.section_offset`: what
-- lies between is the last that is in the packet, and the section or the packet came to its end.
pub record IsChunk (section : Bytes) (size from : ℕ) (r : Split) : Type 0 where
  pub in_packet : r.ts_offset ≤ 188
  pub in_section : (from ≤ r.section_offset) × (r.section_offset ≤ size)
  pub behind_header : r.section_offset - from ≤ r.ts_offset
  pub copied :
      (i : ℕ)
      → i < r.section_offset - from
      → r.packet (r.ts_offset - (r.section_offset - from) + i) ≡ section (from + i)
  pub ends : (r.ts_offset ≡ 188) ⊎ (r.section_offset ≡ size)

copy_lem :
    (ts section : Bytes) (offset from left size : ℕ)
    → offset ≤ 188
    → size ≡ from + left
    → size < 4099
    → IsChunk section size from (Split.split_copy (ts, offset) section from left)
unfolding Split.split_copy
copy_lem ts section offset from left size h e k = record {
  in_packet = ground arith;
  in_section = (ground arith, ground arith);
  behind_header = ground arith;
  copied = λ i g. ground arith;
  ends = ground arith;
}

init_payload : (ts : Bytes) → Ts.payload (Ts.set_payload (Ts.init ts)) ≡ 4
unfolding Ts.payload Ts.set_payload Ts.init
init_payload ts = refl

init_lem : (ts : Bytes) (offset : ℕ) → offset ≤ 188 → (Split.split_init ts offset).1 ≤ 188
unfolding Split.split_init
init_lem ts offset h = ground (arith, init_payload ts)

pointer_lem : (ts : Bytes) (offset : ℕ) → offset + 2 ≤ 188 → (Split.split_pointer ts offset).1 ≤ 188
unfolding Split.split_pointer
pointer_lem ts offset h = ground arith

no_room :
    (ts section : Bytes) (offset from size : ℕ)
    → offset ≤ 188
    → from ≡ 0
    → IsChunk section size from (record {
      packet = (Split.split_end ts offset).0;
      ts_offset = (Split.split_end ts offset).1;
      section_offset = 0;
    })
unfolding Split.split_end
no_room ts section offset from size h e = record {
  in_packet = ground arith;
  in_section = (omega (arith, e), omega (arith, e));
  behind_header = omega (arith, e);
  copied = λ i g. absurd (omega (arith, g, e));
  ends = inl (ground arith);
}

module _ (ts section : Bytes) (ts_offset from : ℕ) (b : IsBytes section) (inside : ts_offset ≤ 188)
    (within : from ≤ Psi.get_length section + 3) where
  abbrev size : ℕ
  size = Psi.get_length section + 3

  abbrev left : ℕ
  left = u16 (size + 2 ^ 16 - from)

  left_lem : (size ≡ from + left) × (size < 4099)
  left_lem = (omega (arith, get_length-lt section b), omega (arith, get_length-lt section b))

  copy_here :
      (start : Bytes × ℕ)
      → start.1 ≤ 188
      → IsChunk section size from (Split.split_copy start section from left)
  copy_here (packet, offset) h =
      copy_lem packet section offset from left size h (left_lem.0) (left_lem.1)

  -- The first part of a section, behind the packet's header or what the packet holds.
  start_lem :
      (offset : ℕ) (packet : Bytes)
      → offset ≤ 188
      → from ≡ 0
      → IsChunk section size from (
          if ltb 188 (offset + 2)
          then record {
            packet = (Split.split_end packet offset).0;
            ts_offset = (Split.split_end packet offset).1;
            section_offset = 0;
          }
          else Split.split_copy (Split.split_pointer packet offset) section from left)
  start_lem offset packet h e = elim (Bool-cases (ltb 188 (offset + 2))) [
    | inl full ↦ rw full (no_room packet section offset from size h e)
    | inr room ↦ rw room (
        copy_here (Split.split_pointer packet offset)
          (pointer_lem packet offset (ground (arith, room))))
  ]

  -- A call of `psi_split_section`, at an offset in the packet of at most 188 and one in the section
  -- of at most its size, puts the bytes of the section that follow into the packet, at the end of
  -- what it then holds, and it fills the packet or ends the section.
  pub split_section-IsChunk :
      IsChunk section
        (Psi.get_length section + 3)
        from
        (Split.split_section ts ts_offset section from)
  unfolding Split.split_section
  split_section-IsChunk = elim (Bool-cases (from == 0)) [
    | inl e ↦ rw e (
        start_lem ((Split.split_init ts ts_offset).1) ((Split.split_init ts ts_offset).0)
          (init_lem ts ts_offset inside) ((==_iff _ _).0 e))
    | inr e ↦ rw e (copy_here (Split.split_init ts ts_offset) (init_lem ts ts_offset inside))
  ]

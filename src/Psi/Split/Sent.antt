-- ===== src/Psi/Split/Sent.antt =====
-- A packet of its own, made by `psi_split_section`, and where its payload is.
use bitstream.Base.{
  ℕ, ◌+◌, ◌-◌, ◌≤◌, ◌<◌, ◌≡◌, ◌≢◌, ◌⊎◌, inl, inr, refl, subst, Bytes, IsBytes, ◌==◌, false,
  Bool-cases, if◌then◌else◌, arith,
}
use bitstream.Ts
use bitstream.Psi
use bitstream.Psi.Crc.RoundTrip.{get_length-lt}
use bitstream.Psi.Split
use bitstream.Psi.Split.{Split}

-- Where a receiver finds the bytes of the section: behind the pointer field where a unit starts.
abbrev pub start_of : Bytes → ℕ
start_of packet = if Ts.get_unitstart packet then Ts.next_section packet else Ts.section packet

-- One packet of its own.
pub record IsSent (section : Bytes) (size from : ℕ) (r : Split) : Type 0 where
  pub start : ℕ
  pub start_is : start_of (r.packet) ≡ start
  pub one_of : (start ≡ 5) ⊎ (start ≡ 4)
  pub bounds : (from ≤ r.section_offset) × (r.section_offset ≤ size)
  pub ends :
      (r.section_offset ≡ size) × (size ≤ from + (188 - start))
      ⊎ (r.section_offset ≡ from + (188 - start))
  pub copied : (i : ℕ) → i < r.section_offset - from → r.packet (start + i) ≡ section (from + i)

module _ (ts section : Bytes) (b : IsBytes section) where
  abbrev size : ℕ
  size = Psi.get_length section + 3

  first-IsSent : IsSent section size 0 (Split.split_section ts 0 section 0)
  unfolding Split.split_section Split.split_init Split.split_pointer Split.split_copy
      Split.split_end Ts.next_section Ts.section Ts.payload Ts.set_payload Ts.init Ts.set_unitstart
  first-IsSent = record {
    start = 5;
    start_is = refl;
    one_of = inl refl;
    bounds = (omega arith, ground (arith, get_length-lt section b));
    ends = ground (arith, get_length-lt section b);
    copied = λ i h. ground (arith, h);
  }

  other-IsSent :
      (from : ℕ)
      → from ≢ 0
      → from ≤ size
      → IsSent section size from (Split.split_section ts 0 section from)
  unfolding Split.split_section Split.split_init Split.split_copy Ts.next_section Ts.section
      Ts.payload Ts.set_payload Ts.init
  other-IsSent from differs within =
      let later : (from == 0) ≡ false = ground (arith, differs) in
      rw later (record {
        start = 4;
        start_is = refl;
        one_of = inr refl;
        bounds = (
          ground (arith, within, get_length-lt section b),
          ground (arith, within, get_length-lt section b),
        );
        ends = ground (arith, within, get_length-lt section b);
        copied = λ i h. ground (arith, h);
      })

  pub split_section-IsSent :
      (from : ℕ) → from ≤ size → IsSent section size from (Split.split_section ts 0 section from)
  split_section-IsSent from within = elim (Bool-cases (from == 0)) [
    | inl e ↦
        let none : 0 ≡ from = ground (arith, e) in
        subst (λ (n : ℕ). IsSent section size n (Split.split_section ts 0 section n)) none
          first-IsSent
    | inr e ↦ other-IsSent from (λ z. absurd (ground (arith, e, z))) within
  ]

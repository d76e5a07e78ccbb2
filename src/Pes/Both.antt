-- ===== src/Pes/Both.antt =====
-- What the setters of time stamps establish, alone and together.
use bitstream.Base.{
  ℕ, ◌+◌, ◌*◌, ◌/◌, ◌%◌, ◌^◌, ◌≤◌, ◌<◌, ◌≡◌, refl, ◌∙◌, bit_and, Bool, true, false, Bytes, ◌==◌,
  ◌&&◌, flag_set, arith, all_below, all_below_at, ==_iff, if◌then◌else◌,
}
use bitstream.Base.Bits.{masks, and_0x01, and_0x10, bit_or_under, bit_or_bit}
use bitstream.Pes
use bitstream.Pes.Stamps.{
  IsStamp, pts_flags, pts_bytes, dts_flags, dts_bytes, get_pts_lem, get_dts_lem,
}

pub record CarriesPts (q : Bytes) (t : ℕ) : Type 0 where
  pub flagged : Pes.has_pts q ≡ true
  pub value : Pes.get_pts q ≡ t
  pub marked : Pes.validate_pts q ≡ true
  pub room : 5 ≤ Pes.get_headerlength q

pub record CarriesDts (q : Bytes) (t : ℕ) : Type 0 where
  pub flagged : Pes.has_dts q ≡ true
  pub value : Pes.get_dts q ≡ t
  pub marked : Pes.validate_dts q ≡ true
  pub room : 10 ≤ Pes.get_headerlength q

first_byte_table :
    all_below 8 (λ x.
      (bit_and (0x21 + x * 2) 0xe1 == 0x21)
      && ((bit_and (0x31 + x * 2) 0xe1 == 0x21) && (bit_and (0x11 + x * 2) 0xf1 == 0x11)))
    ≡ true
unfolding all_below
first_byte_table = refl

module _ (x : ℕ) (h : x < 8) where
  first_byte :
      ((bit_and (0x21 + x * 2) 0xe1 == 0x21)
        && ((bit_and (0x31 + x * 2) 0xe1 == 0x21) && (bit_and (0x11 + x * 2) 0xf1 == 0x11)))
      ≡ true
  first_byte = all_below_at 8 _ x first_byte_table h

-- A stamp behind either marker passes the check, and the flag and the length make it present.
CarriesPts-of :
    (q : Bytes) (t : ℕ) (both : Bool)
    → t < 2 ^ 33
    → IsStamp q 9 (if both then 0x31 else 0x21) t
    → q 7 / 128 % 2 ≡ 1
    → 5 ≤ q 8
    → CarriesPts q t
unfolding Pes.has_pts Pes.validate_pts Pes.get_headerlength
CarriesPts-of q t true h s f r = record {
  flagged = flag_set _ (omega masks);
  value = get_pts_lem q t 0x31 h (omega arith) s;
  marked = ground (arith, s, first_byte (t / 2 ^ 30), and_0x01 (q 11), and_0x01 (q 13));
  room = r;
}
CarriesPts-of q t false h s f r = record {
  flagged = flag_set _ (omega masks);
  value = get_pts_lem q t 0x21 h (omega arith) s;
  marked = ground (arith, s, first_byte (t / 2 ^ 30), and_0x01 (q 11), and_0x01 (q 13));
  room = r;
}

CarriesDts-of :
    (q : Bytes) (t : ℕ)
    → t < 2 ^ 33
    → IsStamp q 14 0x11 t
    → q 7 / 64 % 4 ≡ 3
    → q 9 / 16 % 2 ≡ 1
    → 10 ≤ q 8
    → CarriesDts q t
unfolding Pes.has_dts Pes.validate_dts Pes.get_headerlength
CarriesDts-of q t h s f m r = record {
  flagged = (==_iff _ _).1 (omega masks);
  value = get_dts_lem q t 0x11 h (omega arith) s;
  marked =
      ground (arith, s, first_byte (t / 2 ^ 30), and_0x10 (q 9), and_0x01 (q 16), and_0x01 (q 18));
  room = r;
}

-- `pes_set_pts` makes any packet carry the 33-bit stamp: it is flagged, it fits the header length,
-- its marker bits are in place, and `pes_get_pts` reads it back.
pub set_pts-CarriesPts : (p : Bytes) (t : ℕ) → t < 2 ^ 33 → CarriesPts (Pes.set_pts p t) t
set_pts-CarriesPts p t h =
    let (flags, length, _, _) = pts_flags p t h in
    CarriesPts-of (Pes.set_pts p t) t (Pes.has_dts (Pes.set_pts p t)) h (pts_bytes p t h)
      (omega (arith, bit_or_bit 7 (p 7), flags)) (ground (arith, length))

module _ (p : Bytes) (t d : ℕ) (ht : t < 2 ^ 33) (hd : d < 2 ^ 33) where
  abbrev pub pts_then_dts : Bytes
  pts_then_dts = Pes.set_dts (Pes.set_pts p t) d

  pub both_flags : (pts_then_dts 7 / 64 % 4 ≡ 3) × (10 ≤ pts_then_dts 8)
  both_flags =
      let (f, l, _, _) = pts_flags p t ht in
      let (g, m, _, _, _, _) = dts_flags (Pes.set_pts p t) d hd in
      (
        omega (arith, f, g, bit_or_bit 7 (p 7), bit_or_bit 6 (Pes.set_pts p t 7)),
        ground (arith, l, m),
      )

  -- The second marker bit joins the first stamp.
  marker_joined :
      (c : Bool)
      → Pes.set_pts p t 9 ≡ (if c then 0x31 else 0x21) + t / 2 ^ 30 * 2
      → pts_then_dts 9 ≡ 0x31 + t / 2 ^ 30 * 2
  marker_joined true e =
      let (_, _, f, _, _, _) = dts_flags (Pes.set_pts p t) d hd in omega (masks, f, bit_or_under 4)
  marker_joined false e =
      let (_, _, f, _, _, _) = dts_flags (Pes.set_pts p t) d hd in omega (masks, f, bit_or_under 4)

  pub pts_kept : IsStamp pts_then_dts 9 0x31 t
  pts_kept =
      let (a, b, c, e, f) = pts_bytes p t ht in
      let (_, _, _, between, _, _) = dts_flags (Pes.set_pts p t) d hd in
      (
        marker_joined (Pes.has_dts (Pes.set_pts p t)) a,
        between 10 (omega arith) (omega arith) ∙ b,
        between 11 (omega arith) (omega arith) ∙ c,
        between 12 (omega arith) (omega arith) ∙ e,
        between 13 (omega arith) (omega arith) ∙ f,
      )

  -- A packet that `pes_set_pts` and then `pes_set_dts` have written carries both 33-bit stamps, the
  -- marker of the first one changed to fit.
  pub set_dts-set_pts : CarriesPts pts_then_dts t × CarriesDts pts_then_dts d
  set_dts-set_pts =
      let (flags, length) = both_flags in
      (
        CarriesPts-of pts_then_dts t true ht pts_kept (omega (arith, flags))
            (omega (arith, length)),
        CarriesDts-of pts_then_dts d hd (dts_bytes (Pes.set_pts p t) d hd) flags
            (omega (arith, pts_kept)) length,
      )

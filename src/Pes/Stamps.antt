-- ===== src/Pes/Stamps.antt =====
-- Writing and reading the time stamps of a packet.
use bitstream.Base.{
  ℕ, ◌+◌, ◌*◌, ◌/◌, ◌%◌, ◌^◌, ◌<◌, ◌≡◌, refl, ap, bit_and, bit_or, true, Bytes, ◌==◌, arith,
  all_below, all_below_at, ==_iff, if◌then◌else◌, ltb,
}
use bitstream.Base.Bits.{masks, bit_or_disjoint, bit_or_under}
use bitstream.Pes

-- The first byte of a stamp: three bits of it between the marker bits.
marker_table : all_below 8 (λ x. bit_or 0x21 (x * 2) == 0x21 + x * 2) ≡ true
unfolding all_below
marker_table = refl

marker_both_table : all_below 8 (λ x. bit_or 0x31 (x * 2) == 0x31 + x * 2) ≡ true
unfolding all_below
marker_both_table = refl

marker_dts_table : all_below 8 (λ x. bit_or 0x11 (x * 2) == 0x11 + x * 2) ≡ true
unfolding all_below
marker_dts_table = refl

module _ (x : ℕ) (h : x < 8) where
  or_marker : bit_or 0x21 (x * 2) ≡ 0x21 + x * 2
  or_marker = (==_iff _ _).0 (all_below_at 8 _ x marker_table h)

  or_marker_both : bit_or 0x31 (x * 2) ≡ 0x31 + x * 2
  or_marker_both = (==_iff _ _).0 (all_below_at 8 _ x marker_both_table h)

  or_marker_dts : bit_or 0x11 (x * 2) ≡ 0x11 + x * 2
  or_marker_dts = (==_iff _ _).0 (all_below_at 8 _ x marker_dts_table h)

-- The top three bits of a 33-bit stamp.
top_bits : (v : ℕ) → v < 2 ^ 33 → bit_and (v / 2 ^ 29) 0xe ≡ v / 2 ^ 30 * 2
top_bits v h = omega masks

-- The five bytes of a stamp from `i` on, with the first byte's marker.
abbrev pub IsStamp : Bytes → ℕ → ℕ → ℕ → Type 0
IsStamp q i marker v =
    (q i ≡ marker + v / 2 ^ 30 * 2)
    × (q (i + 1) ≡ v / 2 ^ 22 % 256)
    × (q (i + 2) ≡ v / 2 ^ 15 % 128 * 2 + 1)
    × (q (i + 3) ≡ v / 2 ^ 7 % 256)
    × (q (i + 4) ≡ v % 128 * 2 + 1)

module _ (p : Bytes) (v : ℕ) (h : v < 2 ^ 33) where
  pub pts_flags :
      (Pes.set_pts p v 7 ≡ bit_or (p 7) 0x80 % 256)
      × (Pes.set_pts p v 8 ≡ (if ltb (p 8) 5 then 5 else p 8))
      × ((i : ℕ) → 13 < i → Pes.set_pts p v i ≡ p i)
      × ((i : ℕ) → i < 7 → Pes.set_pts p v i ≡ p i)
  unfolding Pes.set_pts
  pts_flags = (ground arith, ground arith, λ i k. ground arith, λ i k. ground arith)

  pts_first :
      Pes.set_pts p v 9 ≡ (if Pes.has_dts (Pes.set_pts p v) then 0x31 else 0x21) + v / 2 ^ 30 * 2
  unfolding Pes.set_pts
  pts_first = ground (
    arith,
    ap (bit_or 0x21) (top_bits v h),
    ap (bit_or 0x31) (top_bits v h),
    or_marker (v / 2 ^ 30),
    or_marker_both (v / 2 ^ 30),
  )

  pub pts_bytes :
      IsStamp (Pes.set_pts p v) 9 (if Pes.has_dts (Pes.set_pts p v) then 0x31 else 0x21) v
  pts_bytes = (
    pts_first,
    unfold Pes.set_pts in (omega masks),
    unfold Pes.set_pts in (omega (masks, bit_or_under 1)),
    unfold Pes.set_pts in (omega masks),
    unfold Pes.set_pts in (omega (masks, bit_or_under 1)),
  )

  pub dts_flags :
      (Pes.set_dts p v 7 ≡ bit_or (p 7) 0x40 % 256)
      × (Pes.set_dts p v 8 ≡ (if ltb (p 8) 10 then 10 else p 8))
      × (Pes.set_dts p v 9 ≡ bit_or (bit_and (p 9) 0x0f % 256) 0x30 % 256)
      × ((i : ℕ) → 9 < i → i < 14 → Pes.set_dts p v i ≡ p i)
      × ((i : ℕ) → i < 7 → Pes.set_dts p v i ≡ p i)
      × ((i : ℕ) → 18 < i → Pes.set_dts p v i ≡ p i)
  unfolding Pes.set_dts
  dts_flags = (
    ground arith,
    ground arith,
    ground arith,
    λ i k m. ground arith,
    λ i k. ground arith,
    λ i k. ground arith,
  )

  pub dts_bytes : IsStamp (Pes.set_dts p v) 14 0x11 v
  unfolding Pes.set_dts
  dts_bytes = (
    omega (arith, ap (bit_or 0x11) (top_bits v h), or_marker_dts (v / 2 ^ 30) (omega arith)),
    omega masks,
    omega (masks, bit_or_under 1),
    omega masks,
    omega (masks, bit_or_under 1),
  )

-- Reading five such bytes gives the stamp back.
pub get_pts_lem :
    (q : Bytes) (v marker : ℕ)
    → v < 2 ^ 33
    → marker % 16 ≡ 1
    → IsStamp q 9 marker v
    → Pes.get_pts q ≡ v
unfolding Pes.get_pts
get_pts_lem q v marker h m (a, b, c, d, e) =
    omega (masks, bit_or_disjoint 30, bit_or_disjoint 22, bit_or_disjoint 15, bit_or_disjoint 7)

pub get_dts_lem :
    (q : Bytes) (v marker : ℕ)
    → v < 2 ^ 33
    → marker % 16 ≡ 1
    → IsStamp q 14 marker v
    → Pes.get_dts q ≡ v
unfolding Pes.get_dts
get_dts_lem q v marker h m (a, b, c, d, e) =
    omega (masks, bit_or_disjoint 30, bit_or_disjoint 22, bit_or_disjoint 15, bit_or_disjoint 7)

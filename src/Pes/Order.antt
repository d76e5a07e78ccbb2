-- ===== src/Pes/Order.antt =====
-- The two time stamp setters in either order.
use native.Mathlib.Decide.{dec_lt, ℕ_discrete}
use bitstream.Base.{
  ℕ, zero, suc, ◌+◌, ◌^◌, ◌≤◌, ◌<◌, ◌≡◌, sym, subst, ◌∙◌, true, Bytes, arith, ==_iff,
}
use bitstream.Base.Bits.{masks, bit_or_bit}
use bitstream.Pes
use bitstream.Pes.Stamps.{pts_flags, pts_bytes, dts_flags, dts_bytes}
use bitstream.Pes.Both.{pts_then_dts, both_flags, pts_kept}

-- The `n` bytes from `k` on are equal, one by one.
abbrev SameFrom : Bytes → Bytes → ℕ → ℕ → Type 0
SameFrom f g k zero = Unit {0}
SameFrom f g k (suc n) = (f k ≡ g k) × SameFrom f g (k + 1) n

same_at : (f g : Bytes) (n k i : ℕ) → SameFrom f g k n → k ≤ i → i < k + n → f i ≡ g i
same_at f g zero k i s lo hi = absurd (omega arith)
same_at f g (suc n) k i (e, s) lo hi = elim (ℕ_discrete k i) [
  | yes here ↦ subst (λ (j : ℕ). f j ≡ g j) here e
  | no later ↦ same_at f g n (k + 1) i s (omega arith) (omega arith)
]

module _ (p : Bytes) (t d : ℕ) (ht : t < 2 ^ 33) (hd : d < 2 ^ 33) where
  abbrev f : Bytes
  f = Pes.set_pts (Pes.set_dts p d) t

  abbrev g : Bytes
  g = pts_then_dts p t d ht hd

  flags_and_length : (f 7 ≡ g 7) × (f 8 ≡ g 8)
  flags_and_length =
      let (f7, f8, _, _) = pts_flags (Pes.set_dts p d) t ht in
      let (d7, d8, _, _, _, _) = dts_flags p d hd in
      let (p7, p8, _, _) = pts_flags p t ht in
      let (g7, g8, _, _, _, _) = dts_flags (Pes.set_pts p t) d hd in
      (
        omega (
          arith,
          f7,
          d7,
          p7,
          g7,
          bit_or_bit 7 (p 7),
          bit_or_bit 6 (Pes.set_pts p t 7),
          bit_or_bit 6 (p 7),
          bit_or_bit 7 (Pes.set_dts p d 7),
        ),
        ground (arith, f8, d8, p8, g8),
      )

  both_present : Pes.has_dts f ≡ true
  unfolding Pes.has_dts
  both_present = (==_iff _ _).1 (omega (masks, both_flags p t d ht hd, flags_and_length))

  first_stamp : SameFrom f g 9 5
  first_stamp =
      let (a, b, c, x, y) = pts_bytes (Pes.set_dts p d) t ht in
      let (a', b', c', x', y') = pts_kept p t d ht hd in
      (rw both_present at a ∙ sym a', (b ∙ sym b', (c ∙ sym c', (x ∙ sym x', (y ∙ sym y', tt)))))

  second_stamp : SameFrom f g 14 5
  second_stamp =
      let (_, _, high, _) = pts_flags (Pes.set_dts p d) t ht in
      let (a, b, c, x, y) = dts_bytes p d hd in
      let (a', b', c', x', y') = dts_bytes (Pes.set_pts p t) d hd in
      (
        high 14 (omega arith) ∙ a ∙ sym a',
        (
          high 15 (omega arith) ∙ b ∙ sym b',
          (
            high 16 (omega arith) ∙ c ∙ sym c',
            (high 17 (omega arith) ∙ x ∙ sym x', (high 18 (omega arith) ∙ y ∙ sym y', tt)),
          ),
        ),
      )

  in_front : (i : ℕ) → i < 7 → f i ≡ g i
  in_front i h =
      (pts_flags (Pes.set_dts p d) t ht).3 i h
      ∙ (dts_flags p d hd).4 i h
      ∙ sym ((dts_flags (Pes.set_pts p t) d hd).4 i h ∙ (pts_flags p t ht).3 i h)

  behind : (i : ℕ) → 18 < i → f i ≡ g i
  behind i h =
      (pts_flags (Pes.set_dts p d) t ht).2 i (omega arith)
      ∙ (dts_flags p d hd).5 i h
      ∙ sym ((dts_flags (Pes.set_pts p t) d hd).5 i h ∙ (pts_flags p t ht).2 i (omega arith))

  -- Writing the decoding stamp and then the presentation stamp, of 33 bits each, leaves the same
  -- bytes as writing them in the other order.
  pub set_pts-set_dts : (i : ℕ) → f i ≡ g i
  set_pts-set_dts i = elim (dec_lt i 7) [
    | yes low ↦ in_front i low
    | no a ↦ elim (dec_lt i 9) [
      | yes b ↦
          same_at f g 2 7 i (flags_and_length.0, (flags_and_length.1, tt)) (omega arith)
            (omega arith)
      | no b ↦ elim (dec_lt i 14) [
        | yes c ↦ same_at f g 5 9 i first_stamp (omega arith) (omega arith)
        | no c ↦ elim (dec_lt i 19) [
          | yes e ↦ same_at f g 5 14 i second_stamp (omega arith) (omega arith)
          | no e ↦ behind i (omega arith)
        ]
      ]
    ]
  ]

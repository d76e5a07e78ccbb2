-- ===== src/Smpte/Checksum.antt =====
-- The parity of words of ancillary data and the checksum of packets.
use native.Mathlib.Decide.{dec_lt}
use bitstream.Base.{
  ℕ, zero, suc, ◌+◌, ◌-◌, ◌*◌, ◌/◌, ◌%◌, ◌≤◌, ◌<◌, bit_and, bit_or, ◌≡◌, refl, sym, ap, ap₂, subst,
  ◌∙◌, ◌≢◌, inl, inr, true, false, arith, ◌==◌, ==_iff, Bool-cases, all_below, all_below_at, u16,
}
use bitstream.Base.Bits.{masks, bit_or_under, bit_and_field}
use bitstream.Smpte
use bitstream.Smpte.{Words, put_word}

-- How many of the lowest bits are set.
abbrev pub count_bits : ℕ → ℕ → ℕ
count_bits zero x = 0
count_bits (suc n) x = x % 2 + count_bits n (x / 2)

-- The value and its two parity bits: bit 8 makes the number of bits even, bit 9 is its complement.
abbrev pub protected : ℕ → ℕ
protected x = x + count_bits 8 x % 2 * 256 + (1 - count_bits 8 x % 2) * 512

protected_below : all_below 256 (λ x. bit_or x (Smpte.parity x) == protected x) ≡ true
unfolding all_below Smpte.parity
protected_below = refl

protected_at : (x : ℕ) → x < 256 → bit_or x (Smpte.parity x) ≡ protected x
protected_at x h =
    (==_iff _ _).0
      (all_below_at 256 (λ y. bit_or y (Smpte.parity y) == protected y) x protected_below h)

-- The sum of the words, nine bits of each.
abbrev sum : ℕ → Words → ℕ → ℕ
sum zero p i = 0
sum (suc left) p i = p i % 512 + sum left p (i + 1)

and_nine : (x : ℕ) → bit_and x 0x1ff ≡ x % 512
and_nine x = omega (arith, bit_and_field 0 9 x)

cs_loop-sum :
    (left : ℕ) (p : Words) (i cs : ℕ)
    → cs < 512
    → Smpte.cs_loop left p i cs ≡ (cs + sum left p i) % 512
unfolding Smpte.cs_loop
cs_loop-sum zero p i cs h = omega arith
cs_loop-sum (suc left) p i cs h =
    let step = bit_and (u16 (cs + bit_and (p i) 0x1ff)) 0x1ff in
    let value : step ≡ (cs + p i % 512) % 512 =
      omega (arith, and_nine (p i), and_nine (u16 (cs + bit_and (p i) 0x1ff))) in
    cs_loop-sum left p (i + 1) step (omega arith) ∙ omega arith

-- The nine bits of a sum, and the complement of the last of them.
abbrev completed : ℕ → ℕ
completed s = s % 512 + (1 - s / 256 % 2) * 512

compute_cs_lem : (p : Words) → Smpte.compute_cs p ≡ completed (sum (Smpte.get_dc p + 3) p 3)
unfolding Smpte.compute_cs
compute_cs_lem p =
    let dc = Smpte.get_dc p in
    let s = sum (dc + 3) p 3 in
    let zero_add : 0 + s ≡ s = omega arith in
    let rounds : dc + 6 - 3 ≡ dc + 3 = omega arith in
    let value : Smpte.cs_loop (dc + 6 - 3) p 3 0 ≡ s % 512 =
      ap (λ (n : ℕ). Smpte.cs_loop n p 3 0) rounds
      ∙ cs_loop-sum (dc + 3) p 3 0 (omega arith)
      ∙ ap (λ (x : ℕ). x % 512) zero_add in
    rw value (
      omega (
        arith,
        bit_or_under 9 (s % 512) (bit_and (65535 - s % 512) 256 * 2),
        bit_and_field 8 1 (65535 - s % 512),
      ))

sum_congr :
    (left : ℕ) (p q : Words) (i : ℕ)
    → ((j : ℕ) → i ≤ j → j < i + left → q j ≡ p j)
    → sum left q i ≡ sum left p i
sum_congr zero p q i h = refl
sum_congr (suc left) p q i h =
    ap₂ (λ (x y : ℕ). x % 512 + y) (h i (omega arith) (omega arith))
      (sum_congr left p q (i + 1) (λ j g k. h j (omega arith) (omega arith)))

completed-lt : (s : ℕ) → completed s < 65536
completed-lt s = omega arith

-- `s291_check_cs` accepts every packet that `s291_set_cs` has completed.
pub check_cs-set_cs : (p : Words) → Smpte.check_cs (Smpte.set_cs p) ≡ true
unfolding Smpte.check_cs
check_cs-set_cs p = (==_iff _ _).1 (stored ∙ sym (compute_cs_lem q ∙ rw (dc, same) refl))
  where
    q : Words
    q = Smpte.set_cs p

    kept : (i : ℕ) → i < 6 + Smpte.get_dc p → Smpte.set_cs p i ≡ p i
    kept i h = unfold Smpte.set_cs in ground arith

    dc : Smpte.get_dc (Smpte.set_cs p) ≡ Smpte.get_dc p
    dc = unfold Smpte.get_dc in ap (λ (x : ℕ). bit_and x 0xff) (kept 5 (omega arith))

    same : sum (Smpte.get_dc p + 3) (Smpte.set_cs p) 3 ≡ sum (Smpte.get_dc p + 3) p 3
    same = sum_congr (Smpte.get_dc p + 3) p (Smpte.set_cs p) 3 (λ j g h. kept j (omega arith))

    written : Smpte.set_cs p (6 + Smpte.get_dc p) ≡ Smpte.compute_cs p
    written =
        let small = completed-lt (sum (Smpte.get_dc p + 3) p 3) in
        let value = compute_cs_lem p in unfold Smpte.set_cs in ground arith

    stored :
        Smpte.set_cs p (6 + Smpte.get_dc (Smpte.set_cs p))
        ≡ completed (sum (Smpte.get_dc p + 3) p 3)
    stored = ap (λ (n : ℕ). Smpte.set_cs p (6 + n)) dc ∙ written ∙ compute_cs_lem p

sum_wrong :
    (left : ℕ) (p q : Words) (i k : ℕ)
    → i ≤ k
    → k < i + left
    → ((j : ℕ) → j ≢ k → q j ≡ p j)
    → sum left q i + p k % 512 ≡ sum left p i + q k % 512
sum_wrong zero p q i k g h same = absurd (omega arith)
sum_wrong (suc left) p q i k g h same = elim (dec_lt i k) [
  | yes before ↦
      omega
        (arith, same i (omega arith), sum_wrong left p q (i + 1) k (omega arith) (omega arith) same)
  | no here ↦
      let at_k : i ≡ k = omega arith in
      let rest = sum_congr left p q (i + 1) (λ j a b. same j (omega arith)) in
      subst
        (λ m.
          (q m % 512 + sum left q (i + 1)) + p k % 512
          ≡ (p m % 512 + sum left p (i + 1)) + q k % 512)
        (sym at_k) (omega arith)
]

completed_injective : (s t : ℕ) → completed s ≡ completed t → s % 512 ≡ t % 512
completed_injective s t h = omega arith

-- Of two packets that differ in exactly one word, from word 3 up to the checksum, in its nine lowest
-- bits and not in the word that holds the count, `s291_check_cs` rejects at least one.
pub check_cs_wrong_word :
    (p q : Words) (k : ℕ)
    → 3 ≤ k
    → k < 6 + Smpte.get_dc p
    → k ≢ 5
    → ((i : ℕ) → i ≢ k → q i ≡ p i)
    → q k % 512 ≢ p k % 512
    → Smpte.check_cs p ≡ true
    → Smpte.check_cs q ≡ false
unfolding Smpte.check_cs
check_cs_wrong_word p q k g h ne same wrong ok =
    elim (Bool-cases (q (6 + Smpte.get_dc q) == Smpte.compute_cs q)) [
      | inr refused ↦ refused
      | inl agrees ↦
          let dc : Smpte.get_dc q ≡ Smpte.get_dc p =
            unfold Smpte.get_dc in ap (λ (x : ℕ). bit_and x 0xff) (same 5 (omega arith)) in
          let left = Smpte.get_dc p + 3 in
          let sum_q : Smpte.compute_cs q ≡ completed (sum left q 3) =
            compute_cs_lem q ∙ ap (λ (n : ℕ). completed (sum (n + 3) q 3)) dc in
          let stored =
            sym ((==_iff (p (6 + Smpte.get_dc p)) _).0 ok ∙ compute_cs_lem p)
            ∙ sym (same (6 + Smpte.get_dc p) (omega arith))
            ∙ ap (λ (n : ℕ). q (6 + n)) (sym dc)
            ∙ (==_iff (q (6 + Smpte.get_dc q)) _).0 agrees
            ∙ sum_q in
          let equal = completed_injective (sum left p 3) (sum left q 3) stored in
          absurd (wrong (omega (arith, sum_wrong left p q 3 k g (omega arith) same)))
    ]

-- A byte that is set as an identifier or as the count reads back, in a word whose bit 8 makes the
-- number of ones in it and the byte even, and whose bit 9 is the complement of bit 8.
pub set_fields-protected :
    (p : Words) (x : ℕ)
    → x < 256
    → ((Smpte.get_did (Smpte.set_did p x) ≡ x) × (Smpte.set_did p x 3 ≡ protected x))
      × ((Smpte.get_sdid (Smpte.set_sdid p x) ≡ x) × (Smpte.set_sdid p x 4 ≡ protected x))
      × ((Smpte.get_dc (Smpte.set_dc p x) ≡ x) × (Smpte.set_dc p x 5 ≡ protected x))
unfolding Smpte.get_did Smpte.set_did Smpte.get_sdid Smpte.set_sdid Smpte.get_dc Smpte.set_dc
set_fields-protected p x h =
    let word : bit_or x (Smpte.parity x) % 65536 ≡ protected x = omega (arith, protected_at x h) in
    let read : bit_and (bit_or x (Smpte.parity x) % 65536) 0xff ≡ x = rw word (omega masks) in
    ((read, word), (read, word), (read, word))

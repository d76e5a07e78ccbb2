-- ===== src/Srt/Reports/Losses.antt =====
-- Loss reports and drop requests: the sequence numbers that the getters read.
use bitstream.Base.{
  ℕ, ◌+◌, ◌-◌, ◌*◌, ◌/◌, ◌%◌, ◌^◌, ◌≤◌, ◌<◌, bit_and, ◌≡◌, refl, sym, ap, ◌∙◌, ◌↔◌, inl, inr, true,
  false, some, arith, ltb, Bool-cases, flag, u32, Bytes, IsBytes,
}
use bitstream.Base.Bits.{masks, bit_or_disjoint, bit_or_word, bit_and_field}
use bitstream.Srt.Reports
use bitstream.Srt.Reports.{NakRange}

-- A packet that was lost, or the first and the last of a range; numbers have 31 bits.
pub data Loss : Type 0 where
  single : ℕ → Loss
  range : ℕ → ℕ → Loss

-- The word at `o`, the most significant byte first.
abbrev pub word : Bytes → ℕ → ℕ
word p o = p o * 16777216 + p (o + 1) * 65536 + p (o + 2) * 256 + p (o + 3)

-- The `size` bytes at `p` start with this loss. The first bit of a word says that a range follows.
abbrev pub Starts : Bytes → ℕ → Loss → Type 0
Starts p size (single s) = (4 ≤ size) × (word p 0 ≡ s) × (s < 2 ^ 31)
Starts p size (range first last) =
    (8 ≤ size)
    × (word p 0 ≡ 2 ^ 31 + first)
    × (first < 2 ^ 31)
    × (word p 4 ≡ last)
    × (last < 2 ^ 31)

-- Numbers follow one another modulo 2 ^ 31.
abbrev pub answer : ℕ → Loss → NakRange
answer size (single s) = record { moved = 4; cif_size = size - 4; start_seq = s; packets = 1 }
answer size (range first last) = record {
  moved = 8;
  cif_size = size - 8;
  start_seq = first;
  packets = (last + 2 ^ 31 - first + 1) % 2 ^ 31;
}

seq_at-word : (p : Bytes) (o : ℕ) → IsBytes p → Reports.seq_at p o ≡ word p o
seq_at-word p o h = omega (
  arith,
  bit_or_word (p o) (p (o + 1)) (p (o + 2)) (p (o + 3)) (h o) (h (o + 1)) (h (o + 2)) (h (o + 3)),
  h o,
  h (o + 1),
  h (o + 2),
  h (o + 3),
)

top_bit : (x : ℕ) → bit_and x 0x80000000 ≡ x / 2147483648 % 2 * 2147483648
top_bit = bit_and_field 31 1

low_bits : (x : ℕ) → bit_and x 0x7fffffff ≡ x % 2147483648
low_bits x = omega (arith, bit_and_field 0 31 x)

-- The first word of a range.
marked : (first : ℕ) → first < 2 ^ 31 → flag (bit_and (2 ^ 31 + first) 0x80000000) ≡ true
marked first h = let bit = top_bit (2 ^ 31 + first) in ground arith

unmarked : (s : ℕ) → s < 2 ^ 31 → flag (bit_and s 0x80000000) ≡ false
unmarked s h = let bit = top_bit s in ground arith

start_lem : (first : ℕ) → first < 2 ^ 31 → bit_and (2 ^ 31 + first) 0x7fffffff ≡ first
start_lem first h = omega (arith, low_bits (2 ^ 31 + first))

count_lem :
    (first last : ℕ)
    → first < 2 ^ 31
    → last < 2 ^ 31
    → bit_and (u32 (last + 2 ^ 32 - first + 1)) 0x7fffffff ≡ (last + 2 ^ 31 - first + 1) % 2 ^ 31
count_lem first last h g = omega (arith, low_bits (u32 (last + 2 ^ 32 - first + 1)))

-- `srt_get_nak_range` on a loss that the bytes start with.
get_nak_range-answer :
    (p : Bytes) (size : ℕ) (loss : Loss)
    → IsBytes p
    → Starts p size loss
    → Reports.get_nak_range p size ≡ some (answer size loss)
unfolding Reports.get_nak_range
get_nak_range-answer p size (single s) h (fits, at_0, small) =
    let long : ltb size 4 ≡ false = ground arith in
    rw (long, seq_at-word p 0 h, at_0, unmarked s small) refl
get_nak_range-answer p size (range first last) h (fits, at_0, small, at_4, small') =
    let long : ltb size 4 ≡ false = ground arith in
    let longer : ltb size 8 ≡ false = ground arith in
    rw
      (
        long,
        longer,
        seq_at-word p 0 h,
        seq_at-word p 4 h,
        at_0,
        at_4,
        marked first small,
        unmarked last small',
        start_lem first small,
        count_lem first last small small',
      )
      refl

word_small : (p : Bytes) (o : ℕ) → IsBytes p → word p o < 2 ^ 32
word_small p o h = omega (arith, h o, h (o + 1), h (o + 2), h (o + 3))

-- Nothing else is accepted.
get_nak_range-Starts :
    (p : Bytes) (size : ℕ) {r : NakRange}
    → IsBytes p
    → Reports.get_nak_range p size ≡ some r
    → (loss : Loss) × Starts p size loss
unfolding Reports.get_nak_range
get_nak_range-Starts p size h e =
    let w0 = seq_at-word p 0 h in
    let w4 = seq_at-word p 4 h in
    let bit0 = top_bit (Reports.seq_at p 0) in
    let bit4 = top_bit (Reports.seq_at p 4) in
    let small0 = word_small p 0 h in
    let small4 = word_small p 4 h in
    elim (Bool-cases (flag (bit_and (Reports.seq_at p 0) 0x80000000))) [
      | inl more ↦ (
        range (word p 0 - 2 ^ 31) (word p 4),
        (ground arith, ground arith, ground arith, refl, ground arith),
      )
      | inr one ↦ (single (word p 0), (ground arith, refl, ground arith))
    ]

-- On bytes, `srt_get_nak_range` returns true exactly where they start with a loss, a packet of a
-- number of 31 bits or a first and a last one, and then returns its first number, how many there are
-- modulo 2 ^ 31, and the bytes behind it.
pub get_nak_range-Loss :
    (p : Bytes) (size : ℕ) (r : NakRange)
    → IsBytes p
    → (Reports.get_nak_range p size ≡ some r)
      ↔ ((loss : Loss) × Starts p size loss × (r ≡ answer size loss))
get_nak_range-Loss p size r h = (
  λ e.
      let (loss, starts) = get_nak_range-Starts p size h e in
      (loss, starts, some_inj (sym e ∙ get_nak_range-answer p size loss h starts)),
  λ (loss, starts, same). get_nak_range-answer p size loss h starts ∙ ap some (sym same),
)
  where
    some_inj : {a b : NakRange} → some a ≡ some b → a ≡ b
    some_inj e = cc

-- The packets of a range are the numbers from the first to the last, modulo 2 ^ 31.
pub answer_last :
    (size first last : ℕ)
    → first < 2 ^ 31
    → last < 2 ^ 31
    → ((answer size (range first last)).start_seq + (answer size (range first last)).packets)
        % 2 ^ 31
      ≡ (last + 1) % 2 ^ 31
answer_last size first last h g = omega arith

-- A sequence number of 31 bits that a drop request is given reads back, as the first or the last,
-- without its seven most significant bits.
pub dropreq_loses_bits :
    (p : Bytes) (seq : ℕ)
    → seq < 2 ^ 31
    → (Reports.get_dropreq_first_seq (Reports.set_dropreq_first_seq p seq) ≡ seq % 2 ^ 24)
      × (Reports.get_dropreq_last_seq (Reports.set_dropreq_last_seq p seq) ≡ seq % 2 ^ 24)
unfolding Reports.get_dropreq_first_seq Reports.set_dropreq_first_seq Reports.get_dropreq_last_seq
    Reports.set_dropreq_last_seq
dropreq_loses_bits p seq h = (
  omega (masks, bit_or_disjoint 24, bit_or_disjoint 16, bit_or_disjoint 8),
  omega (masks, bit_or_disjoint 24, bit_or_disjoint 16, bit_or_disjoint 8),
)

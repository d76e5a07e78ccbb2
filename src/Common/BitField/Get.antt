-- ===== src/Common/BitField/Get.antt =====
-- What `bitstream_get_` reads.
use native.Mathlib.Nat.{mul-div_cancel, one-le-pow, pow-succ'}
use native.Mathlib.Decide.{dec_lt}
use bitstream.Base.{
  ℕ, zero, suc, ◌+◌, ◌-◌, ◌*◌, ◌/◌, ◌%◌, ◌^◌, ◌≤◌, ◌<◌, ◌≡◌, refl, sym, ap, ap₂, ◌∙◌, true, false,
  ◌==◌, ltb, ◌||◌, bit_and, bit_or, ◌>>◌, ◌<<◌, Bytes, all_below, all_below_at, arith,
}
use bitstream.Base.Bits.{bit_and_field, bit_or_shifted}
use bitstream.Common.BitField.{chunk, get_mask, get_loop, bitstream_get}
use bitstream.Common.BitField.Digits.{digit, mod-mul, mod-lift, div-div-pow}

-- The bit at a position: the highest of the first byte is at 0.
abbrev pub bit : Bytes → ℕ → ℕ
bit p i = digit (p (i / 8)) (7 - i % 8)

-- The number that `n` bits from `q` on write, the highest first.
abbrev pub value : Bytes → ℕ → ℕ → ℕ
value p q zero = 0
value p q (suc n) = value p q n * 2 + bit p (q + n)

-- The mask selects `size` of the `nbits` bits that are left in the byte, from the highest.
mask_table :
    all_below 9 (λ size.
      all_below 9
        (λ nbits. ltb nbits size || get_mask size nbits == (2 ^ size - 1) * 2 ^ (nbits - size)))
    ≡ true
unfolding all_below get_mask
mask_table = refl

get_mask_is :
    (size nbits : ℕ)
    → size ≤ nbits
    → nbits < 9
    → get_mask size nbits ≡ (2 ^ size - 1) * 2 ^ (nbits - size)
get_mask_is size nbits h k =
    let row = all_below_at 9 _ size mask_table (omega (arith, h, k)) in
    let entry = all_below_at 9 _ nbits row k in ground (arith, entry, h)

selected :
    (b size nbits : ℕ)
    → size ≤ nbits
    → nbits < 9
    → bit_and b (get_mask size nbits) >> (nbits - size) ≡ b / 2 ^ (nbits - size) % 2 ^ size
selected b size nbits h k =
    ap (λ (m : ℕ). bit_and b m >> (nbits - size)) (get_mask_is size nbits h k)
    ∙ ap (λ (x : ℕ). x >> (nbits - size)) (bit_and_field (nbits - size) size b)
    ∙ mul-div_cancel _ (omega (arith, one-le-pow (nbits - size) 2))

-- The bits of one byte continue a value.
value-byte :
    (p : Bytes) (q k s : ℕ)
    → s ≤ 8 - (q + k) % 8
    → value p q (k + s) ≡ value p q k * 2 ^ s + p ((q + k) / 8) / 2 ^ (8 - (q + k) % 8 - s) % 2 ^ s
value-byte p q k zero h =
    let same : k + 0 ≡ k = omega arith in ap (λ (n : ℕ). value p q n) same ∙ omega arith
value-byte p q k (suc s) h =
    let e = 8 - (q + k) % 8 - suc s in
    let b = p ((q + k) / 8) in
    let next : k + suc s ≡ suc (k + s) = omega arith in
    let byte : (q + (k + s)) / 8 ≡ (q + k) / 8 = omega (arith, h) in
    let place : 7 - (q + (k + s)) % 8 ≡ e = omega (arith, h) in
    let before : 8 - (q + k) % 8 - s ≡ e + 1 = omega (arith, h) in
    let halved : b / 2 ^ (8 - (q + k) % 8 - s) ≡ b / 2 ^ e / 2 =
      ap (λ (t : ℕ). b / 2 ^ t) before ∙ sym (div-div-pow b e 1) in
    ap (λ (n : ℕ). value p q n) next
    ∙ grind (
      arith,
      value-byte p q k s (omega (arith, h)),
      ap₂ (λ (i j : ℕ). digit (p i) j) byte place,
      ap (λ (t : ℕ). t % 2 ^ s) halved,
      mod-mul (b / 2 ^ e) 2 (2 ^ s),
      pow-succ' 2 s,
    )

get_loop_done : (fuel width : ℕ) (p : Bytes) (i nbits v : ℕ) → get_loop fuel width p i 0 nbits v ≡ v
unfolding get_loop
get_loop_done zero width p i nbits v = refl
get_loop_done (suc fuel) width p i nbits v = refl

-- One round takes in the bits that it selects.
round_lem :
    (width : ℕ) (p : Bytes) (q k s : ℕ)
    → s ≤ 8 - (q + k) % 8
    → bit_or
          ((value p q k % 2 ^ width) << s)
          (bit_and (p ((q + k) / 8)) (get_mask s (8 - (q + k) % 8)) >> (8 - (q + k) % 8 - s))
        % 2 ^ width
      ≡ value p q (k + s) % 2 ^ width
round_lem width p q k s h =
    let nbits = 8 - (q + k) % 8 in
    let x = p ((q + k) / 8) / 2 ^ (nbits - s) % 2 ^ s in
    let v = value p q k % 2 ^ width in
    ap (λ (t : ℕ). bit_or (v << s) t % 2 ^ width)
      (selected (p ((q + k) / 8)) s nbits h (omega arith))
    ∙ ap (λ (t : ℕ). t % 2 ^ width) (bit_or_shifted s v x (omega (arith, one-le-pow s 2)))
    ∙ mod-lift (value p q k) (2 ^ width) (2 ^ s) x
    ∙ ap (λ (t : ℕ). t % 2 ^ width) (sym (value-byte p q k s h))

whole : (bits nbits : ℕ) → nbits ≤ bits → chunk bits nbits ≡ nbits
unfolding chunk
whole bits nbits h = ground (arith, h)

part : (bits nbits : ℕ) → bits ≤ nbits → chunk bits nbits ≡ bits
unfolding chunk
part bits nbits h = ground (arith, h)

loop_round :
    (fuel width : ℕ) (p : Bytes) (q k bits s : ℕ)
    → chunk (suc bits) (8 - (q + k) % 8) ≡ s
    → s ≤ 8 - (q + k) % 8
    → get_loop
        (suc fuel)
        width
        p
        ((q + k) / 8)
        (suc bits)
        (8 - (q + k) % 8)
        (value p q k % 2 ^ width)
      ≡ get_loop fuel width p
          ((q + k) / 8 + 1)
          (suc bits - (8 - (q + k) % 8))
          8
          (value p q (k + s) % 2 ^ width)
unfolding get_loop
loop_round fuel width p q k bits s e h =
    let runs : (suc bits == 0) ≡ false = ground arith in
    rw runs (
      ap
        (λ (x : ℕ). get_loop fuel width p ((q + k) / 8 + 1) (suc bits - (8 - (q + k) % 8)) 8 (
          bit_or ((value p q k % 2 ^ width) << x)
            (bit_and (p ((q + k) / 8)) (get_mask x (8 - (q + k) % 8)) >> (8 - (q + k) % 8 - x))
          % 2 ^ width))
        e
      ∙ ap (λ (v : ℕ). get_loop fuel width p ((q + k) / 8 + 1) (suc bits - (8 - (q + k) % 8)) 8 v)
          (round_lem width p q k s h))

get_loop_lem :
    (fuel width : ℕ) (p : Bytes) (q k bits : ℕ)
    → bits ≤ fuel
    → get_loop fuel width p ((q + k) / 8) bits (8 - (q + k) % 8) (value p q k % 2 ^ width)
      ≡ value p q (k + bits) % 2 ^ width
get_loop_lem fuel width p q k zero h =
    let same : k + 0 ≡ k = omega arith in
    get_loop_done fuel width p _ _ _ ∙ ap (λ (n : ℕ). value p q n % 2 ^ width) (sym same)
get_loop_lem zero width p q k (suc bits) h = absurd (omega (arith, h))
get_loop_lem (suc fuel) width p q k (suc bits) h = elim (dec_lt (8 - (q + k) % 8) (suc bits)) [
  | yes more ↦
      let nbits = 8 - (q + k) % 8 in
      let size : chunk (suc bits) nbits ≡ nbits = whole (suc bits) nbits (omega (arith, more)) in
      let i : (q + k) / 8 + 1 ≡ (q + (k + nbits)) / 8 = omega arith in
      let eight : 8 ≡ 8 - (q + (k + nbits)) % 8 = omega arith in
      let whole_value : k + nbits + (suc bits - nbits) ≡ k + suc bits = omega (arith, more) in
      loop_round fuel width p q k bits nbits size (omega arith)
      ∙ ap₂
          (λ (j n : ℕ).
            get_loop fuel width p j (suc bits - nbits) n (value p q (k + nbits) % 2 ^ width))
          i eight
      ∙ get_loop_lem fuel width p q (k + nbits) (suc bits - nbits) (omega (arith, h))
      ∙ ap (λ (n : ℕ). value p q n % 2 ^ width) whole_value
  | no last ↦
      let nbits = 8 - (q + k) % 8 in
      let size : chunk (suc bits) nbits ≡ suc bits = part (suc bits) nbits (omega (arith, last)) in
      let none_left : suc bits - nbits ≡ 0 = omega (arith, last) in
      loop_round fuel width p q k bits (suc bits) size (omega (arith, last))
      ∙ ap
          (λ (b : ℕ).
            get_loop fuel width p ((q + k) / 8 + 1) b 8 (value p q (k + suc bits) % 2 ^ width))
          none_left
      ∙ get_loop_done fuel width p _ _ _
]

-- `bitstream_get_` reads the number that the bits write, the highest first, as far as it fits its
-- width.
pub bitstream_get-value :
    (width : ℕ) (p : Bytes) (position nb_bits : ℕ)
    → bitstream_get width p position nb_bits ≡ value p position nb_bits % 2 ^ width
unfolding bitstream_get
bitstream_get-value width p position nb_bits =
    let here : position ≡ position + 0 = omega arith in
    let all : 0 + nb_bits ≡ nb_bits = omega arith in
    let empty : 0 ≡ 0 % 2 ^ width = omega (arith, one-le-pow width 2) in
    ap₂ (λ (q v : ℕ). get_loop nb_bits width p (q / 8) nb_bits (8 - q % 8) v) here empty
    ∙ get_loop_lem nb_bits width p position 0 nb_bits (omega arith)
    ∙ ap (λ (n : ℕ). value p position n % 2 ^ width) all

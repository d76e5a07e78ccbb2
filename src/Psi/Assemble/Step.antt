-- ===== src/Psi/Assemble/Step.antt =====
-- One call of `psi_assemble_payload`: bounds, progress, and what it does to a section that is
-- partly there.
use bitstream.Base.{
  ◌⊎◌, ℕ, ◌+◌, ◌-◌, ◌≤◌, ◌<◌, ◌≡◌, ap, ap₂, bit_and, bit_or, none, some, ◌⊎◌, Bytes, IsBytes,
  memcpy, u16, ◌<<◌, arith,
}
use bitstream.Psi
use bitstream.Psi.Crc.RoundTrip.{get_length-lt}
use bitstream.Psi.Assemble
use bitstream.Psi.Assemble.{Assembly, Fed}

-- The first `n` bytes of two buffers are the same.
abbrev pub Agree : ℕ → Bytes → Bytes → Type 0
Agree n p q = (i : ℕ) → i < n → p i ≡ q i

-- The length is in the first three bytes.
pub get_length-Agree :
    (n : ℕ) (p q : Bytes) → 3 ≤ n → Agree n p q → Psi.get_length p ≡ Psi.get_length q
unfolding Psi.get_length
get_length-Agree n p q h a =
    ap₂ (λ (x y : ℕ). bit_or (bit_and x 0xf << 8) y) (a 1 (omega arith)) (a 2 (omega arith))

-- `used` bytes of the section `s` have arrived, and not all.
pub record Holds (s : Bytes) (size : ℕ) (b : Bytes) (used : ℕ) : Type 0 where
  pub partial : used < size
  pub same : Agree used b s

pub copy_size_lem :
    (used length : ℕ)
    → used < 4096
    → (Assemble.copy_size used length ≤ length)
      × (used + Assemble.copy_size used length ≤ 4096)
      × ((Assemble.copy_size used length ≡ length) ⊎ (used + Assemble.copy_size used length ≡ 4096))
unfolding Assemble.copy_size
copy_size_lem used length h = ground arith

tail_more :
    (b : Bytes) (used copied length size : ℕ)
    → (3 ≤ used → Psi.get_length b + 3 ≡ size)
    → used < size
    → size ≤ 4093
    → copied ≤ length
    → length < 256
    → Assemble.assemble_tail b used copied length ≡ record {
      assembly = record { buffer = some b; used = used };
      advance = copied;
      length = length - copied;
      section = none;
    }
unfolding Assemble.assemble_tail
tail_more b used copied length size e h k c l = ground arith

tail_done :
    (b : Bytes) (used copied length size : ℕ)
    → Psi.get_length b + 3 ≡ size
    → size ≤ used
    → size ≤ 4093
    → used < size + copied
    → copied ≤ length
    → length < 256
    → Assemble.assemble_tail b used copied length ≡ record {
      assembly = Assemble.assemble_init;
      advance = copied - (used - size);
      length = length - (copied - (used - size));
      section = some b;
    }
unfolding Assemble.assemble_tail
tail_done b used copied length size e h k c l m = ground arith

zero_add : (n : ℕ) → 0 + n ≡ n
zero_add n = omega arith

sub_back : (i used : ℕ) → used ≤ i → used + (i - used) ≡ i
sub_back i used h = omega arith

module _ (s : Bytes) (size : ℕ) (whole : size ≡ Psi.get_length s + 3) (fits : size ≤ 4093)
    (b : Bytes) (used : ℕ) (held : Holds s size b used) (payload : Bytes) (length : ℕ)
    (short : length < 256)
    (continues : (i : ℕ) → i < length → used + i < size → payload i ≡ s (used + i)) where
  abbrev copied : ℕ
  copied = Assemble.copy_size used length

  abbrev copy : Bytes
  copy = memcpy b used payload 0 copied

  -- The buffer after the copy agrees with the section as far as both go.
  copy-Agree : (n : ℕ) → n ≤ used + copied → n ≤ size → Agree n copy s
  copy-Agree n h g i k = ground (
    arith,
    held.same i,
    copy_size_lem used length,
    held.partial,
    continues (i - used),
    ap payload (zero_add (i - used)),
    sub_back i used,
  )

  -- The rest of the section is still to come.
  pub into_more :
      used + length < size
      → (b' : Bytes) × Holds s size b' (used + length)
        × (Assemble.assemble_into b used payload length ≡ record {
          assembly = record { buffer = some b'; used = used + length };
          advance = length;
          length = 0;
          section = none;
        })
  unfolding Assemble.assemble_into
  into_more h =
      let (least, room, full) = copy_size_lem used length (omega (arith, held.partial)) in
      let same = copy-Agree (used + length) (omega arith) (omega arith) in
      (
        copy,
        record { partial = h; same = same },
        ground (
          arith,
          tail_more copy (u16 (used + copied)) copied length size
              (λ k.
                omega (arith, whole, get_length-Agree (used + length) copy s (omega arith) same))
              (omega arith) fits (omega arith) short,
        ),
      )

  -- The section is complete, and the bytes behind it stay in the payload.
  pub into_done :
      size ≤ used + length
      → (b' : Bytes) × Agree size b' s
        × (Assemble.assemble_into b used payload length ≡ record {
          assembly = Assemble.assemble_init;
          advance = size - used;
          length = used + length - size;
          section = some b';
        })
  unfolding Assemble.assemble_into
  into_done h =
      let (least, room, full) = copy_size_lem used length (omega (arith, held.partial)) in
      let same = copy-Agree size (omega arith) (omega arith) in
      (
        copy,
        same,
        ground (
          arith,
          tail_done copy (u16 (used + copied)) copied length size
              (omega (arith, whole, get_length-Agree size copy s (omega arith) same)) (omega arith)
              fits (omega (arith, held.partial)) least short,
        ),
      )

tail_too_long :
    (b : Bytes) (used copied length : ℕ)
    → 3 ≤ used
    → 4090 < Psi.get_length b
    → Psi.get_length b < 4096
    → Assemble.assemble_tail b used copied length
      ≡ record { assembly = Assemble.assemble_init; advance = 0; length = 0; section = none }
unfolding Assemble.assemble_tail
tail_too_long b used copied length h g k = ground arith

pub into_too_long :
    (b payload : Bytes) (length : ℕ)
    → IsBytes payload
    → 4090 < Psi.get_length payload
    → 3 ≤ length
    → length < 256
    → Assemble.assemble_into b 0 payload length
      ≡ record { assembly = Assemble.assemble_init; advance = 0; length = 0; section = none }
unfolding Assemble.assemble_into
into_too_long b payload length bytes long least short =
    let (below, room, full) = copy_size_lem 0 length (omega arith) in
    let copied : ℕ = Assemble.copy_size 0 length in
    let all : Assemble.copy_size 0 length ≡ length = omega (arith, full) in
    let same =
      get_length-Agree 3 (memcpy b 0 payload 0 copied) payload (omega arith)
        (λ i h. ground (arith, all, zero_add (i - 0), sub_back i 0)) in
    tail_too_long (memcpy b 0 payload 0 copied) (u16 (0 + copied)) copied length
      (omega (arith, all)) (omega (arith, same)) (omega (arith, same, get_length-lt payload bytes))

-- ===== src/Base/Bits/Words.antt =====
-- Words of four bytes, the most significant first.
use Prim.Native.Nat.{ℕ, ◌+◌, ◌*◌, ◌<◌, bit_or}
use mathlib.Core.Path.{◌≡◌}
use bitstream.Base.Bits.Fields.{bit_or_disjoint}
use bitstream.Base.Bits.Masks.{masks}

pub bit_or_word :
    (a b c d : ℕ)
    → a < 256
    → b < 256
    → c < 256
    → d < 256
    → bit_or (bit_or (bit_or (a * 16777216) (b * 65536)) (c * 256)) d
      ≡ a * 16777216 + b * 65536 + c * 256 + d
bit_or_word a b c d ha hb hc hd =
    omega (masks, bit_or_disjoint 24, bit_or_disjoint 16, bit_or_disjoint 8)

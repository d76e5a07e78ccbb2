-- ===== src/Id3/Synchsafe.antt =====
-- Integers of 28 bits, seven to a byte.
use bitstream.Base.{◌/◌, ℕ, ◌%◌, ◌^◌, ◌<◌, ◌≡◌, Bytes, arith}
use bitstream.Base.Bits.{masks, and_0x7f}
use bitstream.Id3

-- `id3v2_unsynchsafe` reads back the low 28 bits of what `id3v2_synchsafe` wrote, and none of the
-- four bytes has its top bit.
pub unsynchsafe-synchsafe :
    (p : Bytes) (v : ℕ)
    → (Id3.unsynchsafe (Id3.synchsafe p v) ≡ v % 2 ^ 28)
      × ((i : ℕ) → i < 4 → Id3.synchsafe p v i < 128)
unfolding Id3.unsynchsafe Id3.synchsafe
unsynchsafe-synchsafe p v = (
  omega masks,
  λ i h. ground (
    arith,
    and_0x7f (v / 2 ^ 21),
    and_0x7f (v / 2 ^ 14),
    and_0x7f (v / 2 ^ 7),
    and_0x7f (v / 2 ^ 0),
    h,
  ),
)

-- ===== src/Net/Rtp/Payload.antt =====
-- Where the payload of a packet is, and how long.
use bitstream.Base.{ℕ, ◌+◌, ◌-◌, ◌*◌, ◌≤◌, ◌^◌, ◌<◌, ◌≡◌, true, false, Bytes, at, arith}
use bitstream.Net.Rtp

-- The parts that a packet of `size` bytes is made of: the fixed header with its sources, the
-- extension, the payload, and the padding that its last byte counts.
pub record Parts (p : Bytes) (size extension padding : ℕ) : Type 0 where
  pub extended :
      Rtp.check_extension p ≡ true
      → extension ≡ 4 + 4 * Rtp.get_extension_length (at p (Rtp.extension p))
  pub not_extended : Rtp.check_extension p ≡ false → extension ≡ 0
  pub padded : Rtp.check_padding p ≡ true → padding ≡ p (size - 1)
  pub not_padded : Rtp.check_padding p ≡ false → padding ≡ 0
  pub room : 12 + 4 * Rtp.get_cc p + extension + padding ≤ size

-- Where a packet below 2 ^ 64 bytes has room for its parts, `rtp_payload` points behind the header,
-- the sources and the extension, and `rtp_payload_size` is what they and the padding leave.
pub payload_size_lem :
    (p : Bytes) (size extension padding : ℕ)
    → size < 2 ^ 64
    → Parts p size extension padding
    → (Rtp.payload p ≡ 12 + 4 * Rtp.get_cc p + extension)
      × (Rtp.payload p + Rtp.payload_size p size + padding ≡ size)
unfolding Rtp.payload Rtp.payload_size
payload_size_lem p size extension padding h parts =
    ground
      (arith, h, parts.extended, parts.not_extended, parts.padded, parts.not_padded, parts.room)

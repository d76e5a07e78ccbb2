-- ===== src/Net/Udp/Header.antt =====
-- The header of a datagram as one record, read by the getters of ietf/udp.h.
use bitstream.Base.{ℕ, ◌<◌, ◌≡◌, Bytes, IsBytes, ◌^◌}
use bitstream.Base.Bits.{masks, bit_or_disjoint}
use bitstream.Net.Udp

pub record Header : Type 0 where
  pub srcport : ℕ
  pub dstport : ℕ
  pub len : ℕ
  pub cksum : ℕ

unfoldable pub header : Bytes → Header
unfolding Udp.get_srcport Udp.get_dstport Udp.get_len Udp.get_cksum
header p = record {
  srcport = Udp.get_srcport p;
  dstport = Udp.get_dstport p;
  len = Udp.get_len p;
  cksum = Udp.get_cksum p;
}

pub Header_ext :
    {a b : Header}
    → a.srcport ≡ b.srcport
    → a.dstport ≡ b.dstport
    → a.len ≡ b.len
    → a.cksum ≡ b.cksum
    → a ≡ b
Header_ext e0 e1 e2 e3 = λ i. record { srcport = e0 i; dstport = e1 i; len = e2 i; cksum = e3 i }

pub set_srcport-header :
    (p : Bytes) (srcport : ℕ)
    → IsBytes p
    → srcport < 2 ^ 16
    → header (Udp.set_srcport p srcport) ≡ record (header p) { srcport = srcport }
unfolding header Udp.set_srcport
set_srcport-header p srcport h b =
    Header_ext (omega (masks, bit_or_disjoint 8, h)) (omega (masks, bit_or_disjoint 8, h))
      (omega (masks, bit_or_disjoint 8, h)) (omega (masks, bit_or_disjoint 8, h))

pub set_dstport-header :
    (p : Bytes) (dstport : ℕ)
    → IsBytes p
    → dstport < 2 ^ 16
    → header (Udp.set_dstport p dstport) ≡ record (header p) { dstport = dstport }
unfolding header Udp.set_dstport
set_dstport-header p dstport h b =
    Header_ext (omega (masks, bit_or_disjoint 8, h)) (omega (masks, bit_or_disjoint 8, h))
      (omega (masks, bit_or_disjoint 8, h)) (omega (masks, bit_or_disjoint 8, h))

pub set_len-header :
    (p : Bytes) (len : ℕ)
    → IsBytes p
    → len < 2 ^ 16
    → header (Udp.set_len p len) ≡ record (header p) { len = len }
unfolding header Udp.set_len
set_len-header p len h b =
    Header_ext (omega (masks, bit_or_disjoint 8, h)) (omega (masks, bit_or_disjoint 8, h))
      (omega (masks, bit_or_disjoint 8, h)) (omega (masks, bit_or_disjoint 8, h))

pub set_cksum-header :
    (p : Bytes) (cksum : ℕ)
    → IsBytes p
    → cksum < 2 ^ 16
    → header (Udp.set_cksum p cksum) ≡ record (header p) { cksum = cksum }
unfolding header Udp.set_cksum
set_cksum-header p cksum h b =
    Header_ext (omega (masks, bit_or_disjoint 8, h)) (omega (masks, bit_or_disjoint 8, h))
      (omega (masks, bit_or_disjoint 8, h)) (omega (masks, bit_or_disjoint 8, h))

-- What the setters are to do to one object, as equations on its fields.
pub record HeaderLaws (p : Bytes) (srcport : ℕ) (dstport : ℕ) (len : ℕ) (cksum : ℕ) : Type 0 where
  pub set_srcport : header (Udp.set_srcport p srcport) ≡ record (header p) { srcport = srcport }
  pub set_dstport : header (Udp.set_dstport p dstport) ≡ record (header p) { dstport = dstport }
  pub set_len : header (Udp.set_len p len) ≡ record (header p) { len = len }
  pub set_cksum : header (Udp.set_cksum p cksum) ≡ record (header p) { cksum = cksum }

-- On any datagram each setter changes its own 16-bit field, as the getters read it, and no other.
pub udp_setters :
    (p : Bytes) (srcport : ℕ) (dstport : ℕ) (len : ℕ) (cksum : ℕ)
    → IsBytes p
    → srcport < 2 ^ 16
    → dstport < 2 ^ 16
    → len < 2 ^ 16
    → cksum < 2 ^ 16
    → HeaderLaws p srcport dstport len cksum
udp_setters p srcport dstport len cksum h b0 b1 b2 b3 = record {
  set_srcport = set_srcport-header p srcport h b0;
  set_dstport = set_dstport-header p dstport h b1;
  set_len = set_len-header p len h b2;
  set_cksum = set_cksum-header p cksum h b3;
}

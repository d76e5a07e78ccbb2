-- ===== src/Net/Ip/Header.antt =====
-- The header of a datagram as one record, read by the getters of ietf/ip.h.
use bitstream.Base.{ℕ, ◌+◌, ◌*◌, ◌%◌, ◌<◌, ◌≡◌, refl, Bytes, IsBytes, ◌^◌}
use bitstream.Base.Bits.{masks, bit_or_disjoint, bit_or_under, bit_or_mid}
use bitstream.Net.Ip

pub record Header : Type 0 where
  pub version : ℕ
  pub ihl : ℕ
  pub tos : ℕ
  pub len : ℕ
  pub id : ℕ
  pub flag_reserved : ℕ
  pub flag_df : ℕ
  pub flag_mf : ℕ
  pub frag_offset : ℕ
  -- The 13 bits of the offset, which the getter does not read all.
  pub frag_bits : ℕ
  pub ttl : ℕ
  pub proto : ℕ
  pub cksum : ℕ
  pub srcaddr : ℕ
  pub dstaddr : ℕ

unfoldable pub header : Bytes → Header
unfolding Ip.get_version Ip.get_ihl Ip.get_tos Ip.get_len Ip.get_id Ip.get_flag_reservered
    Ip.get_flag_df Ip.get_flag_mf Ip.get_frag_offset Ip.get_ttl Ip.get_proto Ip.get_cksum
    Ip.get_srcaddr Ip.get_dstaddr
header p = record {
  version = Ip.get_version p;
  ihl = Ip.get_ihl p;
  tos = Ip.get_tos p;
  len = Ip.get_len p;
  id = Ip.get_id p;
  flag_reserved = Ip.get_flag_reservered p;
  flag_df = Ip.get_flag_df p;
  flag_mf = Ip.get_flag_mf p;
  frag_offset = Ip.get_frag_offset p;
  frag_bits = p 6 % 32 * 256 + p 7;
  ttl = Ip.get_ttl p;
  proto = Ip.get_proto p;
  cksum = Ip.get_cksum p;
  srcaddr = Ip.get_srcaddr p;
  dstaddr = Ip.get_dstaddr p;
}

pub Header_ext :
    {a b : Header}
    → a.version ≡ b.version
    → a.ihl ≡ b.ihl
    → a.tos ≡ b.tos
    → a.len ≡ b.len
    → a.id ≡ b.id
    → a.flag_reserved ≡ b.flag_reserved
    → a.flag_df ≡ b.flag_df
    → a.flag_mf ≡ b.flag_mf
    → a.frag_offset ≡ b.frag_offset
    → a.frag_bits ≡ b.frag_bits
    → a.ttl ≡ b.ttl
    → a.proto ≡ b.proto
    → a.cksum ≡ b.cksum
    → a.srcaddr ≡ b.srcaddr
    → a.dstaddr ≡ b.dstaddr
    → a ≡ b
Header_ext e0 e1 e2 e3 e4 e5 e6 e7 e8 e9 e10 e11 e12 e13 e14 = λ i. record {
  version = e0 i;
  ihl = e1 i;
  tos = e2 i;
  len = e3 i;
  id = e4 i;
  flag_reserved = e5 i;
  flag_df = e6 i;
  flag_mf = e7 i;
  frag_offset = e8 i;
  frag_bits = e9 i;
  ttl = e10 i;
  proto = e11 i;
  cksum = e12 i;
  srcaddr = e13 i;
  dstaddr = e14 i;
}

pub set_version-header :
    (p : Bytes) (version : ℕ)
    → IsBytes p
    → version < 16
    → header (Ip.set_version p version) ≡ record (header p) { version = version }
unfolding header Ip.set_version
set_version-header p version h b =
    Header_ext (omega (masks, bit_or_under 4, h)) (omega (masks, bit_or_under 4, h)) refl refl refl
      refl refl refl refl refl refl refl refl refl refl

pub set_ihl-header :
    (p : Bytes) (ihl : ℕ)
    → IsBytes p
    → ihl < 16
    → header (Ip.set_ihl p ihl) ≡ record (header p) { ihl = ihl }
unfolding header Ip.set_ihl
set_ihl-header p ihl h b =
    Header_ext (omega (masks, bit_or_disjoint 4, h)) (omega (masks, bit_or_disjoint 4, h)) refl refl
      refl refl refl refl refl refl refl refl refl refl refl

pub set_tos-header :
    (p : Bytes) (tos : ℕ)
    → IsBytes p
    → tos < 256
    → header (Ip.set_tos p tos) ≡ record (header p) { tos = tos }
unfolding header Ip.set_tos
set_tos-header p tos h b =
    Header_ext refl refl (omega (masks, h)) refl refl refl refl refl refl refl refl refl refl refl
      refl

pub set_len-header :
    (p : Bytes) (len : ℕ)
    → IsBytes p
    → len < 2 ^ 16
    → header (Ip.set_len p len) ≡ record (header p) { len = len }
unfolding header Ip.set_len
set_len-header p len h b =
    Header_ext refl refl refl (omega (masks, bit_or_disjoint 8, h)) refl refl refl refl refl refl
      refl refl refl refl refl

pub set_id-header :
    (p : Bytes) (id : ℕ)
    → IsBytes p
    → id < 2 ^ 16
    → header (Ip.set_id p id) ≡ record (header p) { id = id }
unfolding header Ip.set_id
set_id-header p id h b =
    Header_ext refl refl refl refl (omega (masks, bit_or_disjoint 8, h)) refl refl refl refl refl
      refl refl refl refl refl

pub set_flag_reserved-header :
    (p : Bytes) (flag_reserved : ℕ)
    → IsBytes p
    → flag_reserved < 2
    → header (Ip.set_flag_reserved p flag_reserved)
      ≡ record (header p) { flag_reserved = flag_reserved * 128 }
unfolding header Ip.set_flag_reserved
set_flag_reserved-header p flag_reserved h b =
    Header_ext refl refl refl refl refl (omega (masks, bit_or_under 7, bit_or_disjoint 8, h))
      (omega (masks, bit_or_under 7, bit_or_disjoint 8, h))
      (omega (masks, bit_or_under 7, bit_or_disjoint 8, h))
      (omega (masks, bit_or_under 7, bit_or_disjoint 8, h))
      (omega (masks, bit_or_under 7, bit_or_disjoint 8, h)) refl refl refl refl refl

pub set_flag_df-header :
    (p : Bytes) (flag_df : ℕ)
    → IsBytes p
    → flag_df < 2
    → header (Ip.set_flag_df p flag_df) ≡ record (header p) { flag_df = flag_df * 64 }
unfolding header Ip.set_flag_df
set_flag_df-header p flag_df h b =
    Header_ext refl refl refl refl refl (omega (masks, bit_or_mid 6 1, bit_or_disjoint 8, h))
      (omega (masks, bit_or_mid 6 1, bit_or_disjoint 8, h))
      (omega (masks, bit_or_mid 6 1, bit_or_disjoint 8, h))
      (omega (masks, bit_or_mid 6 1, bit_or_disjoint 8, h))
      (omega (masks, bit_or_mid 6 1, bit_or_disjoint 8, h)) refl refl refl refl refl

pub set_flag_mf-header :
    (p : Bytes) (flag_mf : ℕ)
    → IsBytes p
    → flag_mf < 2
    → header (Ip.set_flag_mf p flag_mf) ≡ record (header p) { flag_mf = flag_mf * 32 }
unfolding header Ip.set_flag_mf
set_flag_mf-header p flag_mf h b =
    Header_ext refl refl refl refl refl (omega (masks, bit_or_mid 5 1, bit_or_disjoint 8, h))
      (omega (masks, bit_or_mid 5 1, bit_or_disjoint 8, h))
      (omega (masks, bit_or_mid 5 1, bit_or_disjoint 8, h))
      (omega (masks, bit_or_mid 5 1, bit_or_disjoint 8, h))
      (omega (masks, bit_or_mid 5 1, bit_or_disjoint 8, h)) refl refl refl refl refl

pub set_frag_offset-header :
    (p : Bytes) (frag_offset : ℕ)
    → IsBytes p
    → frag_offset < 2 ^ 13
    → header (Ip.set_frag_offset p frag_offset)
      ≡ record (header p) { frag_offset = frag_offset % 256; frag_bits = frag_offset }
unfolding header Ip.set_frag_offset
set_frag_offset-header p frag_offset h b =
    Header_ext refl refl refl refl refl (omega (masks, bit_or_disjoint 5, bit_or_disjoint 8, h))
      (omega (masks, bit_or_disjoint 5, bit_or_disjoint 8, h))
      (omega (masks, bit_or_disjoint 5, bit_or_disjoint 8, h))
      (omega (masks, bit_or_disjoint 5, bit_or_disjoint 8, h))
      (omega (masks, bit_or_disjoint 5, bit_or_disjoint 8, h)) refl refl refl refl refl

pub set_ttl-header :
    (p : Bytes) (ttl : ℕ)
    → IsBytes p
    → ttl < 256
    → header (Ip.set_ttl p ttl) ≡ record (header p) { ttl = ttl }
unfolding header Ip.set_ttl
set_ttl-header p ttl h b =
    Header_ext refl refl refl refl refl refl refl refl refl refl (omega (masks, h)) refl refl refl
      refl

pub set_proto-header :
    (p : Bytes) (proto : ℕ)
    → IsBytes p
    → proto < 256
    → header (Ip.set_proto p proto) ≡ record (header p) { proto = proto }
unfolding header Ip.set_proto
set_proto-header p proto h b =
    Header_ext refl refl refl refl refl refl refl refl refl refl refl (omega (masks, h)) refl refl
      refl

pub set_cksum-header :
    (p : Bytes) (cksum : ℕ)
    → IsBytes p
    → cksum < 2 ^ 16
    → header (Ip.set_cksum p cksum) ≡ record (header p) { cksum = cksum }
unfolding header Ip.set_cksum
set_cksum-header p cksum h b =
    Header_ext refl refl refl refl refl refl refl refl refl refl refl refl
      (omega (masks, bit_or_disjoint 8, h)) refl refl

pub set_srcaddr-header :
    (p : Bytes) (srcaddr : ℕ)
    → IsBytes p
    → srcaddr < 2 ^ 32
    → header (Ip.set_srcaddr p srcaddr) ≡ record (header p) { srcaddr = srcaddr }
unfolding header Ip.set_srcaddr
set_srcaddr-header p srcaddr h b =
    Header_ext refl refl refl refl refl refl refl refl refl refl refl refl refl
      (omega (masks, bit_or_disjoint 24, bit_or_disjoint 16, bit_or_disjoint 8, h)) refl

pub set_dstaddr-header :
    (p : Bytes) (dstaddr : ℕ)
    → IsBytes p
    → dstaddr < 2 ^ 32
    → header (Ip.set_dstaddr p dstaddr) ≡ record (header p) { dstaddr = dstaddr }
unfolding header Ip.set_dstaddr
set_dstaddr-header p dstaddr h b =
    Header_ext refl refl refl refl refl refl refl refl refl refl refl refl refl refl
      (omega (masks, bit_or_disjoint 24, bit_or_disjoint 16, bit_or_disjoint 8, h))

-- What the setters are to do to one object, as equations on its fields.
pub record HeaderLaws (p : Bytes) (version : ℕ) (ihl : ℕ) (tos : ℕ) (len : ℕ) (id : ℕ)
    (flag_reserved : ℕ) (flag_df : ℕ) (flag_mf : ℕ) (frag_offset : ℕ) (ttl : ℕ) (proto : ℕ)
    (cksum : ℕ) (srcaddr : ℕ) (dstaddr : ℕ) : Type 0 where
  pub set_version : header (Ip.set_version p version) ≡ record (header p) { version = version }
  pub set_ihl : header (Ip.set_ihl p ihl) ≡ record (header p) { ihl = ihl }
  pub set_tos : header (Ip.set_tos p tos) ≡ record (header p) { tos = tos }
  pub set_len : header (Ip.set_len p len) ≡ record (header p) { len = len }
  pub set_id : header (Ip.set_id p id) ≡ record (header p) { id = id }
  pub set_flag_reserved :
      header (Ip.set_flag_reserved p flag_reserved)
      ≡ record (header p) { flag_reserved = flag_reserved * 128 }
  pub set_flag_df : header (Ip.set_flag_df p flag_df) ≡ record (header p) { flag_df = flag_df * 64 }
  pub set_flag_mf : header (Ip.set_flag_mf p flag_mf) ≡ record (header p) { flag_mf = flag_mf * 32 }
  pub set_frag_offset :
      header (Ip.set_frag_offset p frag_offset)
      ≡ record (header p) { frag_offset = frag_offset % 256; frag_bits = frag_offset }
  pub set_ttl : header (Ip.set_ttl p ttl) ≡ record (header p) { ttl = ttl }
  pub set_proto : header (Ip.set_proto p proto) ≡ record (header p) { proto = proto }
  pub set_cksum : header (Ip.set_cksum p cksum) ≡ record (header p) { cksum = cksum }
  pub set_srcaddr : header (Ip.set_srcaddr p srcaddr) ≡ record (header p) { srcaddr = srcaddr }
  pub set_dstaddr : header (Ip.set_dstaddr p dstaddr) ≡ record (header p) { dstaddr = dstaddr }

-- On any datagram each of the 14 setters, with a value that fits its field, changes that field as
-- the getters read it and no other; the three flags are read at their place in the byte, as 128, 64
-- and 32, and of the fragment offset, whose 13 bits are all stored, the getter reads the low 8.
pub ip_setters :
    (p : Bytes) (version : ℕ) (ihl : ℕ) (tos : ℕ) (len : ℕ) (id : ℕ) (flag_reserved : ℕ)
    (flag_df : ℕ) (flag_mf : ℕ) (frag_offset : ℕ) (ttl : ℕ) (proto : ℕ) (cksum : ℕ) (srcaddr : ℕ)
    (dstaddr : ℕ)
    → IsBytes p
    → version < 16
    → ihl < 16
    → tos < 256
    → len < 2 ^ 16
    → id < 2 ^ 16
    → flag_reserved < 2
    → flag_df < 2
    → flag_mf < 2
    → frag_offset < 2 ^ 13
    → ttl < 256
    → proto < 256
    → cksum < 2 ^ 16
    → srcaddr < 2 ^ 32
    → dstaddr < 2 ^ 32
    → HeaderLaws p version ihl tos len id flag_reserved flag_df flag_mf frag_offset ttl proto cksum
        srcaddr dstaddr
ip_setters p version ihl tos len id flag_reserved flag_df flag_mf frag_offset ttl proto cksum
      srcaddr dstaddr h b0 b1 b2 b3 b4 b5 b6 b7 b8 b9 b10 b11 b12 b13 =
    record {
      set_version = set_version-header p version h b0;
      set_ihl = set_ihl-header p ihl h b1;
      set_tos = set_tos-header p tos h b2;
      set_len = set_len-header p len h b3;
      set_id = set_id-header p id h b4;
      set_flag_reserved = set_flag_reserved-header p flag_reserved h b5;
      set_flag_df = set_flag_df-header p flag_df h b6;
      set_flag_mf = set_flag_mf-header p flag_mf h b7;
      set_frag_offset = set_frag_offset-header p frag_offset h b8;
      set_ttl = set_ttl-header p ttl h b9;
      set_proto = set_proto-header p proto h b10;
      set_cksum = set_cksum-header p cksum h b11;
      set_srcaddr = set_srcaddr-header p srcaddr h b12;
      set_dstaddr = set_dstaddr-header p dstaddr h b13;
    }

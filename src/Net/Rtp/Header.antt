-- ===== src/Net/Rtp/Header.antt =====
-- The header of a packet as one record, read by the getters of ietf/rtp.h.
use bitstream.Base.{
  ℕ, ◌<◌, ◌≡◌, refl, Bytes, IsBytes, ap, Bool, true, false, flag, flag_set, flag_clear, ◌^◌,
}
use bitstream.Base.Bits.{masks, bit_or_disjoint, bit_or_bit}
use bitstream.Net.Rtp

pub record Header : Type 0 where
  pub padding : Bool
  pub extension : Bool
  pub cc : ℕ
  pub marker : Bool
  pub type : ℕ
  pub seqnum : ℕ
  pub timestamp : ℕ
  pub ssrc : ℕ

unfoldable pub header : Bytes → Header
unfolding Rtp.check_padding Rtp.check_extension Rtp.get_cc Rtp.check_marker Rtp.get_type
    Rtp.get_seqnum Rtp.get_timestamp Rtp.get_int_ssrc
header p = record {
  padding = Rtp.check_padding p;
  extension = Rtp.check_extension p;
  cc = Rtp.get_cc p;
  marker = Rtp.check_marker p;
  type = Rtp.get_type p;
  seqnum = Rtp.get_seqnum p;
  timestamp = Rtp.get_timestamp p;
  ssrc = Rtp.get_int_ssrc p;
}

pub Header_ext :
    {a b : Header}
    → a.padding ≡ b.padding
    → a.extension ≡ b.extension
    → a.cc ≡ b.cc
    → a.marker ≡ b.marker
    → a.type ≡ b.type
    → a.seqnum ≡ b.seqnum
    → a.timestamp ≡ b.timestamp
    → a.ssrc ≡ b.ssrc
    → a ≡ b
Header_ext e0 e1 e2 e3 e4 e5 e6 e7 = λ i. record {
  padding = e0 i;
  extension = e1 i;
  cc = e2 i;
  marker = e3 i;
  type = e4 i;
  seqnum = e5 i;
  timestamp = e6 i;
  ssrc = e7 i;
}

pub set_padding-header :
    (p : Bytes) → IsBytes p → header (Rtp.set_padding p) ≡ record (header p) { padding = true }
unfolding header Rtp.set_padding
set_padding-header p h =
    Header_ext (flag_set _ (omega (masks, bit_or_bit 5, h)))
      (ap flag (omega (masks, bit_or_bit 5, h))) (omega (masks, bit_or_bit 5, h)) refl refl refl
      refl refl

pub set_extension-header :
    (p : Bytes) → IsBytes p → header (Rtp.set_extension p) ≡ record (header p) { extension = true }
unfolding header Rtp.set_extension
set_extension-header p h =
    Header_ext (ap flag (omega (masks, bit_or_bit 4, h)))
      (flag_set _ (omega (masks, bit_or_bit 4, h))) (omega (masks, bit_or_bit 4, h)) refl refl refl
      refl refl

pub set_cc-header :
    (p : Bytes) (cc : ℕ)
    → IsBytes p
    → cc < 16
    → header (Rtp.set_cc p cc) ≡ record (header p) { cc = cc }
unfolding header Rtp.set_cc
set_cc-header p cc h b =
    Header_ext (ap flag (omega (masks, bit_or_disjoint 4, h)))
      (ap flag (omega (masks, bit_or_disjoint 4, h))) (omega (masks, bit_or_disjoint 4, h)) refl
      refl refl refl refl

pub set_marker-header :
    (p : Bytes) → IsBytes p → header (Rtp.set_marker p) ≡ record (header p) { marker = true }
unfolding header Rtp.set_marker
set_marker-header p h =
    Header_ext refl refl refl (flag_set _ (omega (masks, bit_or_bit 7, h)))
      (omega (masks, bit_or_bit 7, h)) refl refl refl

pub clear_marker-header :
    (p : Bytes) → IsBytes p → header (Rtp.clear_marker p) ≡ record (header p) { marker = false }
unfolding header Rtp.clear_marker
clear_marker-header p h =
    Header_ext refl refl refl (flag_clear _ (omega (masks, h))) (omega (masks, h)) refl refl refl

pub set_type-header :
    (p : Bytes) (type : ℕ)
    → IsBytes p
    → type < 128
    → header (Rtp.set_type p type) ≡ record (header p) { type = type }
unfolding header Rtp.set_type
set_type-header p type h b =
    Header_ext refl refl refl (ap flag (omega (masks, bit_or_disjoint 7, h)))
      (omega (masks, bit_or_disjoint 7, h)) refl refl refl

pub set_seqnum-header :
    (p : Bytes) (seqnum : ℕ)
    → IsBytes p
    → seqnum < 2 ^ 16
    → header (Rtp.set_seqnum p seqnum) ≡ record (header p) { seqnum = seqnum }
unfolding header Rtp.set_seqnum
set_seqnum-header p seqnum h b =
    Header_ext refl refl refl refl refl (omega (masks, bit_or_disjoint 8, h)) refl refl

pub set_timestamp-header :
    (p : Bytes) (timestamp : ℕ)
    → IsBytes p
    → timestamp < 2 ^ 32
    → header (Rtp.set_timestamp p timestamp) ≡ record (header p) { timestamp = timestamp }
unfolding header Rtp.set_timestamp
set_timestamp-header p timestamp h b =
    Header_ext refl refl refl refl refl refl
      (omega (masks, bit_or_disjoint 24, bit_or_disjoint 16, bit_or_disjoint 8, h)) refl

pub set_int_ssrc-header :
    (p : Bytes) (ssrc : ℕ)
    → IsBytes p
    → ssrc < 2 ^ 32
    → header (Rtp.set_int_ssrc p ssrc) ≡ record (header p) { ssrc = ssrc }
unfolding header Rtp.set_int_ssrc
set_int_ssrc-header p ssrc h b =
    Header_ext refl refl refl refl refl refl refl
      (omega (masks, bit_or_disjoint 24, bit_or_disjoint 16, bit_or_disjoint 8, h))

-- What the setters are to do to one object, as equations on its fields.
pub record HeaderLaws (p : Bytes) (cc : ℕ) (type : ℕ) (seqnum : ℕ) (timestamp : ℕ) (ssrc : ℕ)
    : Type 0 where
  pub set_padding : header (Rtp.set_padding p) ≡ record (header p) { padding = true }
  pub set_extension : header (Rtp.set_extension p) ≡ record (header p) { extension = true }
  pub set_cc : header (Rtp.set_cc p cc) ≡ record (header p) { cc = cc }
  pub set_marker : header (Rtp.set_marker p) ≡ record (header p) { marker = true }
  pub clear_marker : header (Rtp.clear_marker p) ≡ record (header p) { marker = false }
  pub set_type : header (Rtp.set_type p type) ≡ record (header p) { type = type }
  pub set_seqnum : header (Rtp.set_seqnum p seqnum) ≡ record (header p) { seqnum = seqnum }
  pub set_timestamp :
      header (Rtp.set_timestamp p timestamp) ≡ record (header p) { timestamp = timestamp }
  pub set_int_ssrc : header (Rtp.set_int_ssrc p ssrc) ≡ record (header p) { ssrc = ssrc }

-- On any packet each setter of the header, with a value that fits its field, changes that field as
-- the getters read it and no other.
pub rtp_setters :
    (p : Bytes) (cc : ℕ) (type : ℕ) (seqnum : ℕ) (timestamp : ℕ) (ssrc : ℕ)
    → IsBytes p
    → cc < 16
    → type < 128
    → seqnum < 2 ^ 16
    → timestamp < 2 ^ 32
    → ssrc < 2 ^ 32
    → HeaderLaws p cc type seqnum timestamp ssrc
rtp_setters p cc type seqnum timestamp ssrc h b0 b1 b2 b3 b4 = record {
  set_padding = set_padding-header p h;
  set_extension = set_extension-header p h;
  set_cc = set_cc-header p cc h b0;
  set_marker = set_marker-header p h;
  clear_marker = clear_marker-header p h;
  set_type = set_type-header p type h b1;
  set_seqnum = set_seqnum-header p seqnum h b2;
  set_timestamp = set_timestamp-header p timestamp h b3;
  set_int_ssrc = set_int_ssrc-header p ssrc h b4;
}

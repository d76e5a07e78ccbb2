-- ===== src/Net/Rtcp/Report.antt =====
-- A sender report as one record, read by the getters of ietf/rtcp.h and ietf/rtcp_sr.h.
use bitstream.Base.{ℕ, ◌<◌, ◌≡◌, refl, Bytes, IsBytes, ◌^◌}
use bitstream.Base.Bits.{masks, bit_or_disjoint}
use bitstream.Net.Rtcp

pub record Report : Type 0 where
  pub pt : ℕ
  pub length : ℕ
  pub ntp_time_msw : ℕ
  pub ntp_time_lsw : ℕ
  pub rtp_time : ℕ
  pub packet_count : ℕ
  pub octet_count : ℕ

unfoldable pub report : Bytes → Report
unfolding Rtcp.get_pt Rtcp.get_length Rtcp.get_ntp_time_msw Rtcp.get_ntp_time_lsw Rtcp.get_rtp_time
    Rtcp.get_packet_count Rtcp.get_octet_count
report p = record {
  pt = Rtcp.get_pt p;
  length = Rtcp.get_length p;
  ntp_time_msw = Rtcp.get_ntp_time_msw p;
  ntp_time_lsw = Rtcp.get_ntp_time_lsw p;
  rtp_time = Rtcp.get_rtp_time p;
  packet_count = Rtcp.get_packet_count p;
  octet_count = Rtcp.get_octet_count p;
}

pub Report_ext :
    {a b : Report}
    → a.pt ≡ b.pt
    → a.length ≡ b.length
    → a.ntp_time_msw ≡ b.ntp_time_msw
    → a.ntp_time_lsw ≡ b.ntp_time_lsw
    → a.rtp_time ≡ b.rtp_time
    → a.packet_count ≡ b.packet_count
    → a.octet_count ≡ b.octet_count
    → a ≡ b
Report_ext e0 e1 e2 e3 e4 e5 e6 = λ i. record {
  pt = e0 i;
  length = e1 i;
  ntp_time_msw = e2 i;
  ntp_time_lsw = e3 i;
  rtp_time = e4 i;
  packet_count = e5 i;
  octet_count = e6 i;
}

pub set_pt-report :
    (p : Bytes) (pt : ℕ)
    → IsBytes p
    → pt < 256
    → report (Rtcp.set_pt p pt) ≡ record (report p) { pt = pt }
unfolding report Rtcp.set_pt
set_pt-report p pt h b = Report_ext (omega (masks, h)) refl refl refl refl refl refl

pub set_length-report :
    (p : Bytes) (length : ℕ)
    → IsBytes p
    → length < 2 ^ 16
    → report (Rtcp.set_length p length) ≡ record (report p) { length = length }
unfolding report Rtcp.set_length
set_length-report p length h b =
    Report_ext refl (omega (masks, bit_or_disjoint 8, h)) refl refl refl refl refl

pub set_ntp_time_msw-report :
    (p : Bytes) (ntp_time_msw : ℕ)
    → IsBytes p
    → ntp_time_msw < 2 ^ 32
    → report (Rtcp.set_ntp_time_msw p ntp_time_msw)
      ≡ record (report p) { ntp_time_msw = ntp_time_msw }
unfolding report Rtcp.set_ntp_time_msw
set_ntp_time_msw-report p ntp_time_msw h b =
    Report_ext refl refl
      (omega (masks, bit_or_disjoint 24, bit_or_disjoint 16, bit_or_disjoint 8, h)) refl refl refl
      refl

pub set_ntp_time_lsw-report :
    (p : Bytes) (ntp_time_lsw : ℕ)
    → IsBytes p
    → ntp_time_lsw < 2 ^ 32
    → report (Rtcp.set_ntp_time_lsw p ntp_time_lsw)
      ≡ record (report p) { ntp_time_lsw = ntp_time_lsw }
unfolding report Rtcp.set_ntp_time_lsw
set_ntp_time_lsw-report p ntp_time_lsw h b =
    Report_ext refl refl refl
      (omega (masks, bit_or_disjoint 24, bit_or_disjoint 16, bit_or_disjoint 8, h)) refl refl refl

pub set_rtp_time-report :
    (p : Bytes) (rtp_time : ℕ)
    → IsBytes p
    → rtp_time < 2 ^ 32
    → report (Rtcp.set_rtp_time p rtp_time) ≡ record (report p) { rtp_time = rtp_time }
unfolding report Rtcp.set_rtp_time
set_rtp_time-report p rtp_time h b =
    Report_ext refl refl refl refl
      (omega (masks, bit_or_disjoint 24, bit_or_disjoint 16, bit_or_disjoint 8, h)) refl refl

pub set_packet_count-report :
    (p : Bytes) (packet_count : ℕ)
    → IsBytes p
    → packet_count < 2 ^ 32
    → report (Rtcp.set_packet_count p packet_count)
      ≡ record (report p) { packet_count = packet_count }
unfolding report Rtcp.set_packet_count
set_packet_count-report p packet_count h b =
    Report_ext refl refl refl refl refl
      (omega (masks, bit_or_disjoint 24, bit_or_disjoint 16, bit_or_disjoint 8, h)) refl

pub set_octet_count-report :
    (p : Bytes) (octet_count : ℕ)
    → IsBytes p
    → octet_count < 2 ^ 32
    → report (Rtcp.set_octet_count p octet_count) ≡ record (report p) { octet_count = octet_count }
unfolding report Rtcp.set_octet_count
set_octet_count-report p octet_count h b =
    Report_ext refl refl refl refl refl refl
      (omega (masks, bit_or_disjoint 24, bit_or_disjoint 16, bit_or_disjoint 8, h))

-- What the setters are to do to one object, as equations on its fields.
pub record ReportLaws (p : Bytes) (pt : ℕ) (length : ℕ) (ntp_time_msw : ℕ) (ntp_time_lsw : ℕ)
    (rtp_time : ℕ) (packet_count : ℕ) (octet_count : ℕ) : Type 0 where
  pub set_pt : report (Rtcp.set_pt p pt) ≡ record (report p) { pt = pt }
  pub set_length : report (Rtcp.set_length p length) ≡ record (report p) { length = length }
  pub set_ntp_time_msw :
      report (Rtcp.set_ntp_time_msw p ntp_time_msw)
      ≡ record (report p) { ntp_time_msw = ntp_time_msw }
  pub set_ntp_time_lsw :
      report (Rtcp.set_ntp_time_lsw p ntp_time_lsw)
      ≡ record (report p) { ntp_time_lsw = ntp_time_lsw }
  pub set_rtp_time :
      report (Rtcp.set_rtp_time p rtp_time) ≡ record (report p) { rtp_time = rtp_time }
  pub set_packet_count :
      report (Rtcp.set_packet_count p packet_count)
      ≡ record (report p) { packet_count = packet_count }
  pub set_octet_count :
      report (Rtcp.set_octet_count p octet_count) ≡ record (report p) { octet_count = octet_count }

-- In any report each setter, with a value that fits its field, changes that field as the getters
-- read it and no other.
pub report_setters :
    (p : Bytes) (pt : ℕ) (length : ℕ) (ntp_time_msw : ℕ) (ntp_time_lsw : ℕ) (rtp_time : ℕ)
    (packet_count : ℕ) (octet_count : ℕ)
    → IsBytes p
    → pt < 256
    → length < 2 ^ 16
    → ntp_time_msw < 2 ^ 32
    → ntp_time_lsw < 2 ^ 32
    → rtp_time < 2 ^ 32
    → packet_count < 2 ^ 32
    → octet_count < 2 ^ 32
    → ReportLaws p pt length ntp_time_msw ntp_time_lsw rtp_time packet_count octet_count
report_setters p pt length ntp_time_msw ntp_time_lsw rtp_time packet_count octet_count h b0 b1 b2 b3
      b4 b5 b6 =
    record {
      set_pt = set_pt-report p pt h b0;
      set_length = set_length-report p length h b1;
      set_ntp_time_msw = set_ntp_time_msw-report p ntp_time_msw h b2;
      set_ntp_time_lsw = set_ntp_time_lsw-report p ntp_time_lsw h b3;
      set_rtp_time = set_rtp_time-report p rtp_time h b4;
      set_packet_count = set_packet_count-report p packet_count h b5;
      set_octet_count = set_octet_count-report p octet_count h b6;
    }

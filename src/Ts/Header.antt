-- ===== src/Ts/Header.antt =====
-- The four bytes of the packet header as one record of fields, read by the getters of mpeg/ts.h.
use bitstream.Base.{ℕ, ◌^◌, ◌<◌, ◌≡◌, refl, ap, Bool, true, Bytes, IsBytes, flag, flag_set}
use bitstream.Base.Bits.{masks, bit_or_disjoint, bit_or_under, bit_or_bit}
use bitstream.Ts

pub record Header : Type 0 where
  pub in_sync : Bool
  pub error : Bool
  pub unitstart : Bool
  pub priority : Bool
  pub pid : ℕ
  pub scrambling : ℕ
  pub adaptation : Bool
  pub payload : Bool
  pub cc : ℕ

unfoldable pub header : Bytes → Header
unfolding Ts.validate Ts.get_transporterror Ts.get_unitstart Ts.get_transportpriority Ts.get_pid
    Ts.get_scrambling Ts.has_adaptation Ts.has_payload Ts.get_cc
header p = record {
  in_sync = Ts.validate p;
  error = Ts.get_transporterror p;
  unitstart = Ts.get_unitstart p;
  priority = Ts.get_transportpriority p;
  pid = Ts.get_pid p;
  scrambling = Ts.get_scrambling p;
  adaptation = Ts.has_adaptation p;
  payload = Ts.has_payload p;
  cc = Ts.get_cc p;
}

pub Header_ext :
    {a b : Header}
    → a.in_sync ≡ b.in_sync
    → a.error ≡ b.error
    → a.unitstart ≡ b.unitstart
    → a.priority ≡ b.priority
    → a.pid ≡ b.pid
    → a.scrambling ≡ b.scrambling
    → a.adaptation ≡ b.adaptation
    → a.payload ≡ b.payload
    → a.cc ≡ b.cc
    → a ≡ b
Header_ext e0 e1 e2 e3 e4 e5 e6 e7 e8 = λ i. record {
  in_sync = e0 i;
  error = e1 i;
  unitstart = e2 i;
  priority = e3 i;
  pid = e4 i;
  scrambling = e5 i;
  adaptation = e6 i;
  payload = e7 i;
  cc = e8 i;
}

pub set_transporterror-header :
    (p : Bytes) → IsBytes p → header (Ts.set_transporterror p) ≡ record (header p) { error = true }
unfolding header Ts.set_transporterror
set_transporterror-header p h =
    Header_ext refl (flag_set _ (omega (masks, bit_or_bit 7, bit_or_disjoint 8, h)))
      (ap flag (omega (masks, bit_or_bit 7, bit_or_disjoint 8, h)))
      (ap flag (omega (masks, bit_or_bit 7, bit_or_disjoint 8, h)))
      (omega (masks, bit_or_bit 7, bit_or_disjoint 8, h)) refl refl refl refl

pub set_unitstart-header :
    (p : Bytes) → IsBytes p → header (Ts.set_unitstart p) ≡ record (header p) { unitstart = true }
unfolding header Ts.set_unitstart
set_unitstart-header p h =
    Header_ext refl (ap flag (omega (masks, bit_or_bit 6, bit_or_disjoint 8, h)))
      (flag_set _ (omega (masks, bit_or_bit 6, bit_or_disjoint 8, h)))
      (ap flag (omega (masks, bit_or_bit 6, bit_or_disjoint 8, h)))
      (omega (masks, bit_or_bit 6, bit_or_disjoint 8, h)) refl refl refl refl

pub set_transportpriority-header :
    (p : Bytes)
    → IsBytes p
    → header (Ts.set_transportpriority p) ≡ record (header p) { priority = true }
unfolding header Ts.set_transportpriority
set_transportpriority-header p h =
    Header_ext refl (ap flag (omega (masks, bit_or_bit 5, bit_or_disjoint 8, h)))
      (ap flag (omega (masks, bit_or_bit 5, bit_or_disjoint 8, h)))
      (flag_set _ (omega (masks, bit_or_bit 5, bit_or_disjoint 8, h)))
      (omega (masks, bit_or_bit 5, bit_or_disjoint 8, h)) refl refl refl refl

pub set_pid-header :
    (p : Bytes) (pid : ℕ)
    → IsBytes p
    → pid < 2 ^ 13
    → header (Ts.set_pid p pid) ≡ record (header p) { pid = pid }
unfolding header Ts.set_pid
set_pid-header p pid h b =
    Header_ext refl (ap flag (omega (masks, bit_or_disjoint 5, bit_or_disjoint 8, h)))
      (ap flag (omega (masks, bit_or_disjoint 5, bit_or_disjoint 8, h)))
      (ap flag (omega (masks, bit_or_disjoint 5, bit_or_disjoint 8, h)))
      (omega (masks, bit_or_disjoint 5, bit_or_disjoint 8, h)) refl refl refl refl

pub set_cc-header :
    (p : Bytes) (cc : ℕ)
    → IsBytes p
    → cc < 16
    → header (Ts.set_cc p cc) ≡ record (header p) { cc = cc }
unfolding header Ts.set_cc
set_cc-header p cc h b =
    Header_ext refl refl refl refl refl (omega (masks, bit_or_disjoint 4, h))
      (ap flag (omega (masks, bit_or_disjoint 4, h)))
      (ap flag (omega (masks, bit_or_disjoint 4, h))) (omega (masks, bit_or_disjoint 4, h))

pub set_payload-header :
    (p : Bytes) → IsBytes p → header (Ts.set_payload p) ≡ record (header p) { payload = true }
unfolding header Ts.set_payload
set_payload-header p h =
    Header_ext refl refl refl refl refl (omega (masks, bit_or_bit 4, h))
      (ap flag (omega (masks, bit_or_bit 4, h))) (flag_set _ (omega (masks, bit_or_bit 4, h)))
      (omega (masks, bit_or_bit 4, h))

pub set_scrambling-header :
    (p : Bytes) (scrambling : ℕ)
    → IsBytes p
    → scrambling < 4
    → header (Ts.set_scrambling p scrambling) ≡ record (header p) { scrambling = scrambling }
unfolding header Ts.set_scrambling
set_scrambling-header p scrambling h b =
    Header_ext refl refl refl refl refl (omega (masks, bit_or_under 6, h))
      (ap flag (omega (masks, bit_or_under 6, h))) (ap flag (omega (masks, bit_or_under 6, h)))
      (omega (masks, bit_or_under 6, h))

-- What the setters are to do to one object, as equations on its fields.
pub record HeaderLaws (p : Bytes) (pid : ℕ) (cc : ℕ) (scrambling : ℕ) : Type 0 where
  pub set_transporterror : header (Ts.set_transporterror p) ≡ record (header p) { error = true }
  pub set_unitstart : header (Ts.set_unitstart p) ≡ record (header p) { unitstart = true }
  pub set_transportpriority :
      header (Ts.set_transportpriority p) ≡ record (header p) { priority = true }
  pub set_pid : header (Ts.set_pid p pid) ≡ record (header p) { pid = pid }
  pub set_cc : header (Ts.set_cc p cc) ≡ record (header p) { cc = cc }
  pub set_payload : header (Ts.set_payload p) ≡ record (header p) { payload = true }
  pub set_scrambling :
      header (Ts.set_scrambling p scrambling) ≡ record (header p) { scrambling = scrambling }

-- On any packet each header setter, with a value that fits its field, changes that field of
-- the header as the getters read it, and no other.
pub packet_setters :
    (p : Bytes) (pid : ℕ) (cc : ℕ) (scrambling : ℕ)
    → IsBytes p
    → pid < 2 ^ 13
    → cc < 16
    → scrambling < 4
    → HeaderLaws p pid cc scrambling
packet_setters p pid cc scrambling h b0 b1 b2 = record {
  set_transporterror = set_transporterror-header p h;
  set_unitstart = set_unitstart-header p h;
  set_transportpriority = set_transportpriority-header p h;
  set_pid = set_pid-header p pid h b0;
  set_cc = set_cc-header p cc h b1;
  set_payload = set_payload-header p h;
  set_scrambling = set_scrambling-header p scrambling h b2;
}

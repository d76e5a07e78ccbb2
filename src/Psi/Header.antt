-- ===== src/Psi/Header.antt =====
-- The header of a section as one record of fields, read by the getters of mpeg/psi/psi.h.
use bitstream.Base.{
  ℕ, ◌^◌, ◌<◌, ◌≡◌, refl, ap, Bool, true, false, Bytes, IsBytes, flag, flag_set, flag_clear,
}
use bitstream.Base.Bits.{masks, bit_or_disjoint, bit_or_under, bit_or_bit}
use bitstream.Psi

pub record Header : Type 0 where
  pub tableid : ℕ
  pub syntax : Bool
  pub length : ℕ
  pub tableidext : ℕ
  pub version : ℕ
  pub current : Bool
  pub section : ℕ
  pub lastsection : ℕ

unfoldable pub header : Bytes → Header
unfolding Psi.get_tableid Psi.get_syntax Psi.get_length Psi.get_tableidext Psi.get_version
    Psi.get_current Psi.get_section Psi.get_lastsection
header p = record {
  tableid = Psi.get_tableid p;
  syntax = Psi.get_syntax p;
  length = Psi.get_length p;
  tableidext = Psi.get_tableidext p;
  version = Psi.get_version p;
  current = Psi.get_current p;
  section = Psi.get_section p;
  lastsection = Psi.get_lastsection p;
}

pub Header_ext :
    {a b : Header}
    → a.tableid ≡ b.tableid
    → a.syntax ≡ b.syntax
    → a.length ≡ b.length
    → a.tableidext ≡ b.tableidext
    → a.version ≡ b.version
    → a.current ≡ b.current
    → a.section ≡ b.section
    → a.lastsection ≡ b.lastsection
    → a ≡ b
Header_ext e0 e1 e2 e3 e4 e5 e6 e7 = λ i. record {
  tableid = e0 i;
  syntax = e1 i;
  length = e2 i;
  tableidext = e3 i;
  version = e4 i;
  current = e5 i;
  section = e6 i;
  lastsection = e7 i;
}

pub set_tableid-header :
    (p : Bytes) (table_id : ℕ)
    → IsBytes p
    → table_id < 256
    → header (Psi.set_tableid p table_id) ≡ record (header p) { tableid = table_id }
unfolding header Psi.set_tableid
set_tableid-header p table_id h b = Header_ext (omega (masks, h)) refl refl refl refl refl refl refl

pub set_syntax-header :
    (p : Bytes) → IsBytes p → header (Psi.set_syntax p) ≡ record (header p) { syntax = true }
unfolding header Psi.set_syntax
set_syntax-header p h =
    Header_ext refl (flag_set _ (omega (masks, bit_or_bit 7, bit_or_disjoint 8, h)))
      (omega (masks, bit_or_bit 7, bit_or_disjoint 8, h)) refl refl refl refl refl

pub set_length-header :
    (p : Bytes) (length : ℕ)
    → IsBytes p
    → length < 2 ^ 12
    → header (Psi.set_length p length) ≡ record (header p) { length = length }
unfolding header Psi.set_length
set_length-header p length h b =
    Header_ext refl (ap flag (omega (masks, bit_or_disjoint 4, bit_or_disjoint 8, h)))
      (omega (masks, bit_or_disjoint 4, bit_or_disjoint 8, h)) refl refl refl refl refl

pub set_tableidext-header :
    (p : Bytes) (table_id_ext : ℕ)
    → IsBytes p
    → table_id_ext < 2 ^ 16
    → header (Psi.set_tableidext p table_id_ext) ≡ record (header p) { tableidext = table_id_ext }
unfolding header Psi.set_tableidext
set_tableidext-header p table_id_ext h b =
    Header_ext refl refl refl (omega (masks, bit_or_disjoint 8, h)) refl refl refl refl

pub set_version-header :
    (p : Bytes) (version : ℕ)
    → IsBytes p
    → version < 32
    → header (Psi.set_version p version) ≡ record (header p) { version = version; current = false }
unfolding header Psi.set_version
set_version-header p version h b =
    Header_ext refl refl refl refl (omega (masks, bit_or_under 6, h))
      (flag_clear _ (omega (masks, bit_or_under 6, h))) refl refl

pub set_current-header :
    (p : Bytes) → IsBytes p → header (Psi.set_current p) ≡ record (header p) { current = true }
unfolding header Psi.set_current
set_current-header p h =
    Header_ext refl refl refl refl (omega (masks, bit_or_bit 0, h))
      (flag_set _ (omega (masks, bit_or_bit 0, h))) refl refl

pub set_section-header :
    (p : Bytes) (section : ℕ)
    → IsBytes p
    → section < 256
    → header (Psi.set_section p section) ≡ record (header p) { section = section }
unfolding header Psi.set_section
set_section-header p section h b = Header_ext refl refl refl refl refl refl (omega (masks, h)) refl

pub set_lastsection-header :
    (p : Bytes) (last_section : ℕ)
    → IsBytes p
    → last_section < 256
    → header (Psi.set_lastsection p last_section) ≡ record (header p) { lastsection = last_section }
unfolding header Psi.set_lastsection
set_lastsection-header p last_section h b =
    Header_ext refl refl refl refl refl refl refl (omega (masks, h))

-- What the setters are to do to one object, as equations on its fields.
pub record HeaderLaws (p : Bytes) (table_id : ℕ) (length : ℕ) (table_id_ext : ℕ) (version : ℕ)
    (section : ℕ) (last_section : ℕ) : Type 0 where
  pub set_tableid : header (Psi.set_tableid p table_id) ≡ record (header p) { tableid = table_id }
  pub set_syntax : header (Psi.set_syntax p) ≡ record (header p) { syntax = true }
  pub set_length : header (Psi.set_length p length) ≡ record (header p) { length = length }
  pub set_tableidext :
      header (Psi.set_tableidext p table_id_ext) ≡ record (header p) { tableidext = table_id_ext }
  pub set_version :
      header (Psi.set_version p version) ≡ record (header p) { version = version; current = false }
  pub set_current : header (Psi.set_current p) ≡ record (header p) { current = true }
  pub set_section : header (Psi.set_section p section) ≡ record (header p) { section = section }
  pub set_lastsection :
      header (Psi.set_lastsection p last_section) ≡ record (header p) { lastsection = last_section }

-- On any section each header setter, with a value that fits its field, changes that field as
-- the getters read it and no other, but `psi_set_version` clears the current flag.
pub header_setters :
    (p : Bytes) (table_id : ℕ) (length : ℕ) (table_id_ext : ℕ) (version : ℕ) (section : ℕ)
    (last_section : ℕ)
    → IsBytes p
    → table_id < 256
    → length < 2 ^ 12
    → table_id_ext < 2 ^ 16
    → version < 32
    → section < 256
    → last_section < 256
    → HeaderLaws p table_id length table_id_ext version section last_section
header_setters p table_id length table_id_ext version section last_section h b0 b1 b2 b3 b4 b5 =
    record {
      set_tableid = set_tableid-header p table_id h b0;
      set_syntax = set_syntax-header p h;
      set_length = set_length-header p length h b1;
      set_tableidext = set_tableidext-header p table_id_ext h b2;
      set_version = set_version-header p version h b3;
      set_current = set_current-header p h;
      set_section = set_section-header p section h b4;
      set_lastsection = set_lastsection-header p last_section h b5;
    }

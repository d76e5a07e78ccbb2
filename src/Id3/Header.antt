-- ===== src/Id3/Header.antt =====
-- The header of a tag as one record, read by the getters of id3/id3v2.h.
use bitstream.Base.{
  ℕ, ◌<◌, ◌≡◌, refl, Bytes, IsBytes, ap, Bool, true, false, flag, flag_set, flag_clear, ◌^◌,
}
use bitstream.Base.Bits.{masks, bit_or_bit}
use bitstream.Id3

pub record Header : Type 0 where
  pub version_major : ℕ
  pub version_rev : ℕ
  pub size : ℕ
  pub unsynchronisation : Bool
  pub extended_header : Bool
  pub experimental : Bool
  pub footer : Bool

unfoldable pub header : Bytes → Header
unfolding Id3.get_version_major Id3.get_version_rev Id3.get_size Id3.has_unsynchronisation
    Id3.has_extended_header Id3.has_experimental Id3.has_footer
header p = record {
  version_major = Id3.get_version_major p;
  version_rev = Id3.get_version_rev p;
  size = Id3.get_size p;
  unsynchronisation = Id3.has_unsynchronisation p;
  extended_header = Id3.has_extended_header p;
  experimental = Id3.has_experimental p;
  footer = Id3.has_footer p;
}

pub Header_ext :
    {a b : Header}
    → a.version_major ≡ b.version_major
    → a.version_rev ≡ b.version_rev
    → a.size ≡ b.size
    → a.unsynchronisation ≡ b.unsynchronisation
    → a.extended_header ≡ b.extended_header
    → a.experimental ≡ b.experimental
    → a.footer ≡ b.footer
    → a ≡ b
Header_ext e0 e1 e2 e3 e4 e5 e6 = λ i. record {
  version_major = e0 i;
  version_rev = e1 i;
  size = e2 i;
  unsynchronisation = e3 i;
  extended_header = e4 i;
  experimental = e5 i;
  footer = e6 i;
}

pub set_version_major-header :
    (p : Bytes) (major : ℕ)
    → IsBytes p
    → major < 256
    → header (Id3.set_version_major p major) ≡ record (header p) { version_major = major }
unfolding header Id3.set_version_major
set_version_major-header p major h b =
    Header_ext (omega (masks, h)) (omega (masks, h)) (omega (masks, h)) (ap flag (omega (masks, h)))
      (ap flag (omega (masks, h))) (ap flag (omega (masks, h))) (ap flag (omega (masks, h)))

pub set_version_rev-header :
    (p : Bytes) (rev : ℕ)
    → IsBytes p
    → rev < 256
    → header (Id3.set_version_rev p rev) ≡ record (header p) { version_rev = rev }
unfolding header Id3.set_version_rev
set_version_rev-header p rev h b =
    Header_ext (omega (masks, h)) (omega (masks, h)) (omega (masks, h)) (ap flag (omega (masks, h)))
      (ap flag (omega (masks, h))) (ap flag (omega (masks, h))) (ap flag (omega (masks, h)))

pub set_size-header :
    (p : Bytes) (size : ℕ)
    → IsBytes p
    → size < 2 ^ 28
    → header (Id3.set_size p size) ≡ record (header p) { size = size }
unfolding header Id3.set_size
set_size-header p size h b =
    Header_ext (omega (masks, h)) (omega (masks, h)) (omega (masks, h)) (ap flag (omega (masks, h)))
      (ap flag (omega (masks, h))) (ap flag (omega (masks, h))) (ap flag (omega (masks, h)))

pub init-header :
    (p : Bytes)
    → IsBytes p
    → header (Id3.init p) ≡ record (header p) {
      version_major = 4;
      version_rev = 0;
      size = 0;
      unsynchronisation = false;
      extended_header = false;
      experimental = false;
      footer = false;
    }
unfolding header Id3.init Id3.set_size Id3.unset_flags Id3.set_version_rev Id3.set_version_major
    Id3.synchsafe Id3.unsynchsafe Id3.get_size Id3.has_flag Id3.set_tag Id3.get_version_major
    Id3.get_version_rev Id3.has_unsynchronisation Id3.has_extended_header Id3.has_experimental
    Id3.has_footer
init-header p h = Header_ext refl refl refl refl refl refl refl

pub set_unsynchronisation-header :
    (p : Bytes)
    → IsBytes p
    → header (Id3.set_unsynchronisation p) ≡ record (header p) { unsynchronisation = true }
unfolding header Id3.set_unsynchronisation
set_unsynchronisation-header p h =
    Header_ext (omega (masks, bit_or_bit 7, h)) (omega (masks, bit_or_bit 7, h))
      (omega (masks, bit_or_bit 7, h)) (flag_set _ (omega (masks, bit_or_bit 7, h)))
      (ap flag (omega (masks, bit_or_bit 7, h))) (ap flag (omega (masks, bit_or_bit 7, h)))
      (ap flag (omega (masks, bit_or_bit 7, h)))

pub unset_unsynchronisation-header :
    (p : Bytes)
    → IsBytes p
    → header (Id3.unset_unsynchronisation p) ≡ record (header p) { unsynchronisation = false }
unfolding header Id3.unset_unsynchronisation
unset_unsynchronisation-header p h =
    Header_ext (omega (masks, h)) (omega (masks, h)) (omega (masks, h))
      (flag_clear _ (omega (masks, h))) (ap flag (omega (masks, h))) (ap flag (omega (masks, h)))
      (ap flag (omega (masks, h)))

pub set_extended_header-header :
    (p : Bytes)
    → IsBytes p
    → header (Id3.set_extended_header p) ≡ record (header p) { extended_header = true }
unfolding header Id3.set_extended_header
set_extended_header-header p h =
    Header_ext (omega (masks, bit_or_bit 6, h)) (omega (masks, bit_or_bit 6, h))
      (omega (masks, bit_or_bit 6, h)) (ap flag (omega (masks, bit_or_bit 6, h)))
      (flag_set _ (omega (masks, bit_or_bit 6, h))) (ap flag (omega (masks, bit_or_bit 6, h)))
      (ap flag (omega (masks, bit_or_bit 6, h)))

pub unset_extended_header-header :
    (p : Bytes)
    → IsBytes p
    → header (Id3.unset_extended_header p) ≡ record (header p) { extended_header = false }
unfolding header Id3.unset_extended_header
unset_extended_header-header p h =
    Header_ext (omega (masks, h)) (omega (masks, h)) (omega (masks, h)) (ap flag (omega (masks, h)))
      (flag_clear _ (omega (masks, h))) (ap flag (omega (masks, h))) (ap flag (omega (masks, h)))

pub set_experimental-header :
    (p : Bytes)
    → IsBytes p
    → header (Id3.set_experimental p) ≡ record (header p) { experimental = true }
unfolding header Id3.set_experimental
set_experimental-header p h =
    Header_ext (omega (masks, bit_or_bit 5, h)) (omega (masks, bit_or_bit 5, h))
      (omega (masks, bit_or_bit 5, h)) (ap flag (omega (masks, bit_or_bit 5, h)))
      (ap flag (omega (masks, bit_or_bit 5, h))) (flag_set _ (omega (masks, bit_or_bit 5, h)))
      (ap flag (omega (masks, bit_or_bit 5, h)))

pub unset_experimental-header :
    (p : Bytes)
    → IsBytes p
    → header (Id3.unset_experimental p) ≡ record (header p) { experimental = false }
unfolding header Id3.unset_experimental
unset_experimental-header p h =
    Header_ext (omega (masks, h)) (omega (masks, h)) (omega (masks, h)) (ap flag (omega (masks, h)))
      (ap flag (omega (masks, h))) (flag_clear _ (omega (masks, h))) (ap flag (omega (masks, h)))

pub set_footer-header :
    (p : Bytes) → IsBytes p → header (Id3.set_footer p) ≡ record (header p) { footer = true }
unfolding header Id3.set_footer
set_footer-header p h =
    Header_ext (omega (masks, bit_or_bit 4, h)) (omega (masks, bit_or_bit 4, h))
      (omega (masks, bit_or_bit 4, h)) (ap flag (omega (masks, bit_or_bit 4, h)))
      (ap flag (omega (masks, bit_or_bit 4, h))) (ap flag (omega (masks, bit_or_bit 4, h)))
      (flag_set _ (omega (masks, bit_or_bit 4, h)))

pub unset_footer-header :
    (p : Bytes) → IsBytes p → header (Id3.unset_footer p) ≡ record (header p) { footer = false }
unfolding header Id3.unset_footer
unset_footer-header p h =
    Header_ext (omega (masks, h)) (omega (masks, h)) (omega (masks, h)) (ap flag (omega (masks, h)))
      (ap flag (omega (masks, h))) (ap flag (omega (masks, h))) (flag_clear _ (omega (masks, h)))

pub unset_flags-header :
    (p : Bytes)
    → IsBytes p
    → header (Id3.unset_flags p) ≡ record (header p) {
      unsynchronisation = false;
      extended_header = false;
      experimental = false;
      footer = false;
    }
unfolding header Id3.unset_flags Id3.has_flag Id3.get_size Id3.unsynchsafe Id3.has_unsynchronisation
    Id3.has_extended_header Id3.has_experimental Id3.has_footer
unset_flags-header p h = Header_ext refl refl refl refl refl refl refl

-- What the setters are to do to one object, as equations on its fields.
pub record HeaderLaws (p : Bytes) (major : ℕ) (rev : ℕ) (size : ℕ) : Type 0 where
  pub set_version_major :
      header (Id3.set_version_major p major) ≡ record (header p) { version_major = major }
  pub set_version_rev : header (Id3.set_version_rev p rev) ≡ record (header p) { version_rev = rev }
  pub set_size : header (Id3.set_size p size) ≡ record (header p) { size = size }
  pub init : header (Id3.init p) ≡ record (header p) {
    version_major = 4;
    version_rev = 0;
    size = 0;
    unsynchronisation = false;
    extended_header = false;
    experimental = false;
    footer = false;
  }
  pub set_unsynchronisation :
      header (Id3.set_unsynchronisation p) ≡ record (header p) { unsynchronisation = true }
  pub unset_unsynchronisation :
      header (Id3.unset_unsynchronisation p) ≡ record (header p) { unsynchronisation = false }
  pub set_extended_header :
      header (Id3.set_extended_header p) ≡ record (header p) { extended_header = true }
  pub unset_extended_header :
      header (Id3.unset_extended_header p) ≡ record (header p) { extended_header = false }
  pub set_experimental : header (Id3.set_experimental p) ≡ record (header p) { experimental = true }
  pub unset_experimental :
      header (Id3.unset_experimental p) ≡ record (header p) { experimental = false }
  pub set_footer : header (Id3.set_footer p) ≡ record (header p) { footer = true }
  pub unset_footer : header (Id3.unset_footer p) ≡ record (header p) { footer = false }
  pub unset_flags : header (Id3.unset_flags p) ≡ record (header p) {
    unsynchronisation = false;
    extended_header = false;
    experimental = false;
    footer = false;
  }

-- In any tag each setter, with a value that fits its field, changes that field as the getters read it
-- and no other, and `id3v2_init` writes version 4.0 with no flag and the size 0.
pub tag_setters :
    (p : Bytes) (major : ℕ) (rev : ℕ) (size : ℕ)
    → IsBytes p
    → major < 256
    → rev < 256
    → size < 2 ^ 28
    → HeaderLaws p major rev size
tag_setters p major rev size h b0 b1 b2 = record {
  set_version_major = set_version_major-header p major h b0;
  set_version_rev = set_version_rev-header p rev h b1;
  set_size = set_size-header p size h b2;
  init = init-header p h;
  set_unsynchronisation = set_unsynchronisation-header p h;
  unset_unsynchronisation = unset_unsynchronisation-header p h;
  set_extended_header = set_extended_header-header p h;
  unset_extended_header = unset_extended_header-header p h;
  set_experimental = set_experimental-header p h;
  unset_experimental = unset_experimental-header p h;
  set_footer = set_footer-header p h;
  unset_footer = unset_footer-header p h;
  unset_flags = unset_flags-header p h;
}

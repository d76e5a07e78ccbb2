-- ===== src/Pmt/Header.antt =====
-- The fields of the table as one record, read by the getters of mpeg/psi/pmt.h.
use bitstream.Base.{ℕ, ◌<◌, ◌≡◌, refl, Bytes, IsBytes, ◌^◌}
use bitstream.Base.Bits.{masks, bit_or_disjoint}
use bitstream.Pmt

pub record Header : Type 0 where
  pub pcrpid : ℕ
  pub desclength : ℕ

unfoldable pub header : Bytes → Header
unfolding Pmt.get_pcrpid Pmt.get_desclength
header p = record { pcrpid = Pmt.get_pcrpid p; desclength = Pmt.get_desclength p }

pub Header_ext : {a b : Header} → a.pcrpid ≡ b.pcrpid → a.desclength ≡ b.desclength → a ≡ b
Header_ext e0 e1 = λ i. record { pcrpid = e0 i; desclength = e1 i }

pub set_pcrpid-header :
    (p : Bytes) (pid : ℕ)
    → IsBytes p
    → pid < 2 ^ 13
    → header (Pmt.set_pcrpid p pid) ≡ record (header p) { pcrpid = pid }
unfolding header Pmt.set_pcrpid
set_pcrpid-header p pid h b =
    Header_ext (omega (masks, bit_or_disjoint 5, bit_or_disjoint 8, h)) refl

pub set_desclength-header :
    (p : Bytes) (length : ℕ)
    → IsBytes p
    → length < 2 ^ 12
    → header (Pmt.set_desclength p length) ≡ record (header p) { desclength = length }
unfolding header Pmt.set_desclength
set_desclength-header p length h b =
    Header_ext refl (omega (masks, bit_or_disjoint 4, bit_or_disjoint 8, h))

-- What the setters are to do to one object, as equations on its fields.
pub record HeaderLaws (p : Bytes) (pid : ℕ) (length : ℕ) : Type 0 where
  pub set_pcrpid : header (Pmt.set_pcrpid p pid) ≡ record (header p) { pcrpid = pid }
  pub set_desclength :
      header (Pmt.set_desclength p length) ≡ record (header p) { desclength = length }

-- In any table each setter, with a value that fits its field, changes that field and not the other.
pub map_setters :
    (p : Bytes) (pid : ℕ) (length : ℕ)
    → IsBytes p
    → pid < 2 ^ 13
    → length < 2 ^ 12
    → HeaderLaws p pid length
map_setters p pid length h b0 b1 = record {
  set_pcrpid = set_pcrpid-header p pid h b0;
  set_desclength = set_desclength-header p length h b1;
}

-- ===== src/Ts/Adaptation.antt =====
-- The adaptation field's flags and clock reference as one record, read by the getters of mpeg/ts.h.
use bitstream.Base.{
  ℕ, ◌^◌, ◌<◌, ◌≡◌, refl, ap, Bool, true, false, Bytes, IsBytes, flag, flag_set, flag_clear,
}
use bitstream.Base.Bits.{masks, bit_or_disjoint, bit_or_under, bit_or_bit}
use bitstream.Ts

pub record Field : Type 0 where
  pub discontinuity : Bool
  pub randomaccess : Bool
  pub has_pcr : Bool
  pub pcr : ℕ
  pub pcrext : ℕ

unfoldable pub field : Bytes → Field
unfolding Ts.has_discontinuity Ts.has_randomaccess Ts.has_pcr Ts.get_pcr Ts.get_pcrext
field p = record {
  discontinuity = Ts.has_discontinuity p;
  randomaccess = Ts.has_randomaccess p;
  has_pcr = Ts.has_pcr p;
  pcr = Ts.get_pcr p;
  pcrext = Ts.get_pcrext p;
}

pub Field_ext :
    {a b : Field}
    → a.discontinuity ≡ b.discontinuity
    → a.randomaccess ≡ b.randomaccess
    → a.has_pcr ≡ b.has_pcr
    → a.pcr ≡ b.pcr
    → a.pcrext ≡ b.pcrext
    → a ≡ b
Field_ext e0 e1 e2 e3 e4 = λ i. record {
  discontinuity = e0 i;
  randomaccess = e1 i;
  has_pcr = e2 i;
  pcr = e3 i;
  pcrext = e4 i;
}

pub set_discontinuity-field :
    (p : Bytes)
    → IsBytes p
    → field (Ts.set_discontinuity p) ≡ record (field p) { discontinuity = true }
unfolding field Ts.set_discontinuity
set_discontinuity-field p h =
    Field_ext (flag_set _ (omega (masks, bit_or_bit 7, h)))
      (ap flag (omega (masks, bit_or_bit 7, h))) (ap flag (omega (masks, bit_or_bit 7, h))) refl
      refl

pub clear_discontinuity-field :
    (p : Bytes)
    → IsBytes p
    → field (Ts.clear_discontinuity p) ≡ record (field p) { discontinuity = false }
unfolding field Ts.clear_discontinuity
clear_discontinuity-field p h =
    Field_ext (flag_clear _ (omega (masks, h))) (ap flag (omega (masks, h)))
      (ap flag (omega (masks, h))) refl refl

pub set_randomaccess-field :
    (p : Bytes)
    → IsBytes p
    → field (Ts.set_randomaccess p) ≡ record (field p) { randomaccess = true }
unfolding field Ts.set_randomaccess
set_randomaccess-field p h =
    Field_ext (ap flag (omega (masks, bit_or_bit 6, h)))
      (flag_set _ (omega (masks, bit_or_bit 6, h))) (ap flag (omega (masks, bit_or_bit 6, h))) refl
      refl

pub set_streampriority-field : (p : Bytes) → IsBytes p → field (Ts.set_streampriority p) ≡ field p
unfolding field Ts.set_streampriority
set_streampriority-field p h =
    Field_ext (ap flag (omega (masks, bit_or_bit 5, h))) (ap flag (omega (masks, bit_or_bit 5, h)))
      (ap flag (omega (masks, bit_or_bit 5, h))) refl refl

pub set_pcr-field :
    (p : Bytes) (pcr : ℕ)
    → IsBytes p
    → pcr < 2 ^ 33
    → field (Ts.set_pcr p pcr) ≡ record (field p) { has_pcr = true; pcr = pcr; pcrext = 0 }
unfolding field Ts.set_pcr
set_pcr-field p pcr h b =
    Field_ext
      (ap flag (
        omega (
          masks,
          bit_or_bit 4,
          bit_or_under 7,
          bit_or_disjoint 25,
          bit_or_disjoint 17,
          bit_or_disjoint 9,
          bit_or_disjoint 1,
          bit_or_disjoint 8,
          h,
        )))
      (ap flag (
        omega (
          masks,
          bit_or_bit 4,
          bit_or_under 7,
          bit_or_disjoint 25,
          bit_or_disjoint 17,
          bit_or_disjoint 9,
          bit_or_disjoint 1,
          bit_or_disjoint 8,
          h,
        )))
      (flag_set _ (
        omega (
          masks,
          bit_or_bit 4,
          bit_or_under 7,
          bit_or_disjoint 25,
          bit_or_disjoint 17,
          bit_or_disjoint 9,
          bit_or_disjoint 1,
          bit_or_disjoint 8,
          h,
        )))
      (omega (
        masks,
        bit_or_bit 4,
        bit_or_under 7,
        bit_or_disjoint 25,
        bit_or_disjoint 17,
        bit_or_disjoint 9,
        bit_or_disjoint 1,
        bit_or_disjoint 8,
        h,
      ))
      (omega (
        masks,
        bit_or_bit 4,
        bit_or_under 7,
        bit_or_disjoint 25,
        bit_or_disjoint 17,
        bit_or_disjoint 9,
        bit_or_disjoint 1,
        bit_or_disjoint 8,
        h,
      ))

pub set_pcrext-field :
    (p : Bytes) (pcrext : ℕ)
    → IsBytes p
    → pcrext < 512
    → Ts.get_pcrext p < 256
    → field (Ts.set_pcrext p pcrext) ≡ record (field p) { pcrext = pcrext }
unfolding field Ts.set_pcrext
set_pcrext-field p pcrext h b b1 =
    Field_ext refl refl refl
      (omega (
        masks,
        bit_or_disjoint 25,
        bit_or_disjoint 17,
        bit_or_disjoint 9,
        bit_or_disjoint 1,
        bit_or_disjoint 8,
        h,
      ))
      (omega (
        masks,
        bit_or_disjoint 25,
        bit_or_disjoint 17,
        bit_or_disjoint 9,
        bit_or_disjoint 1,
        bit_or_disjoint 8,
        h,
      ))

-- What the setters are to do to one object, as equations on its fields.
pub record FieldLaws (p : Bytes) (pcr : ℕ) (pcrext : ℕ) : Type 0 where
  pub set_discontinuity : field (Ts.set_discontinuity p) ≡ record (field p) { discontinuity = true }
  pub clear_discontinuity :
      field (Ts.clear_discontinuity p) ≡ record (field p) { discontinuity = false }
  pub set_randomaccess : field (Ts.set_randomaccess p) ≡ record (field p) { randomaccess = true }
  pub set_streampriority : field (Ts.set_streampriority p) ≡ field p
  pub set_pcr :
      field (Ts.set_pcr p pcr) ≡ record (field p) { has_pcr = true; pcr = pcr; pcrext = 0 }
  pub set_pcrext : field (Ts.set_pcrext p pcrext) ≡ record (field p) { pcrext = pcrext }

-- On any packet each setter of the adaptation field, with a value that fits, changes its own
-- fields as the getters read them and no other; `tsaf_set_pcr` clears the extension, and
-- `tsaf_set_pcrext` needs its top bit clear.
pub field_setters :
    (p : Bytes) (pcr : ℕ) (pcrext : ℕ)
    → IsBytes p
    → pcr < 2 ^ 33
    → pcrext < 512
    → Ts.get_pcrext p < 256
    → FieldLaws p pcr pcrext
field_setters p pcr pcrext h b0 b1 b2 = record {
  set_discontinuity = set_discontinuity-field p h;
  clear_discontinuity = clear_discontinuity-field p h;
  set_randomaccess = set_randomaccess-field p h;
  set_streampriority = set_streampriority-field p h;
  set_pcr = set_pcr-field p pcr h b0;
  set_pcrext = set_pcrext-field p pcrext h b1 b2;
}

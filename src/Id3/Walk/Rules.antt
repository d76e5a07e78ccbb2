-- ===== src/Id3/Walk/Rules.antt =====
-- What `id3v2_frame_validate`, `id3v2_validate_footer` and `id3v2_check_tag` accept, in bytes.
use bitstream.Base.{
  ℕ, ◌+◌, ◌*◌, ◌/◌, ◌%◌, ◌^◌, ◌≤◌, ◌≡◌, ◌↔◌, ◌⊎◌, refl, sym, ◌∙◌, Bool, true, false, ◌&&◌, Bytes,
  at, bit_and, ◌==◌, ◌!=◌, leb, ==_iff, &&_parts, arith,
}
use bitstream.Base.Bits.{and_0x10, and_0x20, and_0x40, and_0x80}
use bitstream.Id3
use bitstream.Id3.Frame
use bitstream.Id3.Walk

-- Four groups of seven bits, the most significant first, in 32 bits.
abbrev pub four_sevens : Bytes → ℕ
four_sevens p = (p 0 * 2097152 + p 1 * 16384 + p 2 * 128 + p 3) % 2 ^ 32

-- An upper-case letter or a digit.
abbrev pub IsIdChar : ℕ → Type 0
IsIdChar c = ((65 ≤ c) × (c ≤ 90)) ⊎ ((48 ≤ c) × (c ≤ 57))

-- A frame with an identifier of four such characters and at least one byte of content.
pub record IsFrame (p : Bytes) : Type 0 where
  pub id0 : IsIdChar (p 0)
  pub id1 : IsIdChar (p 1)
  pub id2 : IsIdChar (p 2)
  pub id3 : IsIdChar (p 3)
  pub content : 1 ≤ four_sevens (at p 4)

-- A footer with its own tag and otherwise the version, the four flags and the size of the header.
pub record IsFooterOf (p footer : Bytes) : Type 0 where
  pub tag : (footer 0 ≡ 0x33) × (footer 1 ≡ 0x44) × (footer 2 ≡ 0x49)
  pub version : (p 3 ≡ footer 3) × (p 4 ≡ footer 4)
  pub flags : p 5 / 16 % 16 ≡ footer 5 / 16 % 16
  pub size : four_sevens (at p 6) ≡ four_sevens (at footer 6)

pub unsynchsafe-four_sevens : (p : Bytes) → Id3.unsynchsafe p ≡ four_sevens p
unfolding Id3.unsynchsafe
unsynchsafe-four_sevens p = omega arith

validate_id_char-IsIdChar : (c : ℕ) → (Frame.validate_id_char c ≡ true) ↔ IsIdChar c
unfolding Frame.validate_id_char
validate_id_char-IsIdChar c = (λ e. ground (arith, e), λ h. ground (arith, h))

validate_parts :
    (p : Bytes)
    → Frame.validate p ≡ (
        (Frame.validate_id_char (p 0)
          && (Frame.validate_id_char (p 1)
              && (Frame.validate_id_char (p 2) && Frame.validate_id_char (p 3))))
        && leb 1 (Frame.get_size p))
unfolding Frame.validate Frame.validate_id
validate_parts p = ground arith

pub validate-IsFrame : (p : Bytes) → (Frame.validate p ≡ true) ↔ IsFrame p
unfolding Frame.get_size
validate-IsFrame p =
    let size = unsynchsafe-four_sevens (at p 4) in
    (
      λ e.
          let (ids, some_left) = &&_parts _ _ (sym (validate_parts p) ∙ e) in
          let (a, ids1) = &&_parts _ _ ids in
          let (b, ids2) = &&_parts _ _ ids1 in
          let (c, d) = &&_parts _ _ ids2 in
          record {
            id0 = (validate_id_char-IsIdChar _).0 a;
            id1 = (validate_id_char-IsIdChar _).0 b;
            id2 = (validate_id_char-IsIdChar _).0 c;
            id3 = (validate_id_char-IsIdChar _).0 d;
            content = ground (arith, some_left, size);
          },
      λ f.
          let some_left : leb 1 (Id3.unsynchsafe (at p 4)) ≡ true =
            ground (arith, f.content, size) in
          rw
            (
              validate_parts p,
              (validate_id_char-IsIdChar (p 0)).1 f.id0,
              (validate_id_char-IsIdChar (p 1)).1 f.id1,
              (validate_id_char-IsIdChar (p 2)).1 f.id2,
              (validate_id_char-IsIdChar (p 3)).1 f.id3,
              some_left,
            )
            refl,
    )

pub check_tag-bytes :
    (p : Bytes) → (Id3.check_tag p ≡ true) ↔ ((p 0 ≡ 0x49) × (p 1 ≡ 0x44) × (p 2 ≡ 0x33))
unfolding Id3.check_tag
check_tag-bytes p = (λ e. ground (arith, e), λ h. ground (arith, h))

check_footer_tag-bytes :
    (p : Bytes) → (Id3.check_footer_tag p ≡ true) ↔ ((p 0 ≡ 0x33) × (p 1 ≡ 0x44) × (p 2 ≡ 0x49))
unfolding Id3.check_footer_tag
check_footer_tag-bytes p = (λ e. ground (arith, e), λ h. ground (arith, h))

same_values : (a b : Bool) → (Walk.same a b ≡ true) ↔ (a ≡ b)
same_values true b = (λ e. sym e, λ e. sym e)
same_values false true = (λ e. absurd (ground (arith, e)), λ e. absurd (ground (arith, e)))
same_values false false = (λ e. refl, λ e. refl)

same-has_unsynchronisation :
    (p q : Bytes)
    → (Walk.same (Id3.has_unsynchronisation p) (Id3.has_unsynchronisation q) ≡ true)
      ↔ (p 5 / 128 % 2 ≡ q 5 / 128 % 2)
unfolding Id3.has_unsynchronisation Id3.has_flag
same-has_unsynchronisation p q =
    let a = and_0x80 (p 5) in
    let b = and_0x80 (q 5) in
    let (to, from) = same_values (bit_and (p 5) 0x80 != 0) (bit_and (q 5) 0x80 != 0) in
    (λ e. ground (arith, to e, a, b), λ e. from (ground (arith, e, a, b)))

same-has_extended_header :
    (p q : Bytes)
    → (Walk.same (Id3.has_extended_header p) (Id3.has_extended_header q) ≡ true)
      ↔ (p 5 / 64 % 2 ≡ q 5 / 64 % 2)
unfolding Id3.has_extended_header Id3.has_flag
same-has_extended_header p q =
    let a = and_0x40 (p 5) in
    let b = and_0x40 (q 5) in
    let (to, from) = same_values (bit_and (p 5) 0x40 != 0) (bit_and (q 5) 0x40 != 0) in
    (λ e. ground (arith, to e, a, b), λ e. from (ground (arith, e, a, b)))

same-has_experimental :
    (p q : Bytes)
    → (Walk.same (Id3.has_experimental p) (Id3.has_experimental q) ≡ true)
      ↔ (p 5 / 32 % 2 ≡ q 5 / 32 % 2)
unfolding Id3.has_experimental Id3.has_flag
same-has_experimental p q =
    let a = and_0x20 (p 5) in
    let b = and_0x20 (q 5) in
    let (to, from) = same_values (bit_and (p 5) 0x20 != 0) (bit_and (q 5) 0x20 != 0) in
    (λ e. ground (arith, to e, a, b), λ e. from (ground (arith, e, a, b)))

same-has_footer :
    (p q : Bytes)
    → (Walk.same (Id3.has_footer p) (Id3.has_footer q) ≡ true) ↔ (p 5 / 16 % 2 ≡ q 5 / 16 % 2)
unfolding Id3.has_footer Id3.has_flag
same-has_footer p q =
    let a = and_0x10 (p 5) in
    let b = and_0x10 (q 5) in
    let (to, from) = same_values (bit_and (p 5) 0x10 != 0) (bit_and (q 5) 0x10 != 0) in
    (λ e. ground (arith, to e, a, b), λ e. from (ground (arith, e, a, b)))

pub validate_footer-IsFooterOf :
    (p footer : Bytes) → (Walk.validate_footer p footer ≡ true) ↔ IsFooterOf p footer
unfolding Walk.validate_footer Id3.get_version_major Id3.get_version_rev Id3.get_size
validate_footer-IsFooterOf p footer =
    let here = unsynchsafe-four_sevens (at p 6) in
    let there = unsynchsafe-four_sevens (at footer 6) in
    (
      λ e.
          let (tag, e1) = &&_parts _ _ e in
          let (major, e2) = &&_parts _ _ e1 in
          let (rev, e3) = &&_parts _ _ e2 in
          let (f0, e4) = &&_parts _ _ e3 in
          let (f1, e5) = &&_parts _ _ e4 in
          let (f2, e6) = &&_parts _ _ e5 in
          let (f3, size) = &&_parts _ _ e6 in
          let a = (same-has_unsynchronisation p footer).0 f0 in
          let b = (same-has_extended_header p footer).0 f1 in
          let c = (same-has_experimental p footer).0 f2 in
          let d = (same-has_footer p footer).0 f3 in
          record {
            tag = (check_footer_tag-bytes footer).0 tag;
            version = ((==_iff _ _).0 major, (==_iff _ _).0 rev);
            flags = omega (arith, a, b, c, d);
            size = sym here ∙ (==_iff _ _).0 size ∙ there;
          },
      λ f.
          let major : (p 3 == footer 3) ≡ true = (==_iff _ _).1 (f.version.0) in
          let rev : (p 4 == footer 4) ≡ true = (==_iff _ _).1 (f.version.1) in
          let size : (Id3.unsynchsafe (at p 6) == Id3.unsynchsafe (at footer 6)) ≡ true =
            (==_iff _ _).1 (here ∙ f.size ∙ sym there) in
          let a = (same-has_unsynchronisation p footer).1 (omega (arith, f.flags)) in
          let b = (same-has_extended_header p footer).1 (omega (arith, f.flags)) in
          let c = (same-has_experimental p footer).1 (omega (arith, f.flags)) in
          let d = (same-has_footer p footer).1 (omega (arith, f.flags)) in
          rw ((check_footer_tag-bytes footer).1 f.tag, major, rev, a, b, c, d, size) refl,
    )

-- ===== src/Descs/Add.antt =====
-- `descs_add_desc`: the list and the new descriptor that it leaves.
use bitstream.Base.{
  ◌<<◌, ap₂, ℕ, ◌+◌, ◌%◌, ◌≤◌, ◌<◌, ◌≡◌, ◌↔◌, ◌∙◌, true, some, Bytes, at, arith, bit_and, bit_or,
}
use bitstream.Base.Bits.{masks, bit_or_disjoint}
use bitstream.Descs

descs_set_length_lem :
    (p : Bytes) (length : ℕ)
    → length < 4096
    → Descs.descs_get_length (Descs.descs_set_length p length) ≡ length
unfolding Descs.descs_get_length Descs.descs_set_length
descs_set_length_lem p length h = omega (masks, bit_or_disjoint 4, bit_or_disjoint 8)

module _ (p : Bytes) (desc_length : ℕ) where
  abbrev pub old : ℕ
  old = Descs.descs_get_length p

  abbrev appended : Bytes
  appended = Descs.descs_append p desc_length

  appended_length : old + desc_length < 4096 → Descs.descs_get_length appended ≡ old + desc_length
  unfolding Descs.descs_get_length
  appended_length h =
      ap₂ (λ (x y : ℕ). bit_or (bit_and x 0xf << 8) y) (front 0 (omega arith))
        (front 1 (omega arith))
      ∙ descs_set_length_lem p (old + desc_length) h
    where
      front : (i : ℕ) → i < 2 → appended i ≡ Descs.descs_set_length p (old + desc_length) i
      front i k = unfold Descs.descs_append in ground arith

  appended_tag : Descs.desc_get_tag (at appended (2 + old)) ≡ 0
  unfolding Descs.descs_append Descs.desc_get_tag
  appended_tag = ground arith

  appended_inner : Descs.desc_get_length (at appended (2 + old)) ≡ (old + 254) % 256
  unfolding Descs.descs_append Descs.desc_get_length
  appended_inner = ground arith

  appended_kept : (i : ℕ) → 2 ≤ i → i < 2 + old → appended i ≡ p i
  unfolding Descs.descs_append Descs.descs_set_length
  appended_kept i h k = ground arith

  -- On an accepted list with room for it, the new descriptor is behind the others, which stay, and
  -- has the tag 0; its length field is the old length of the list less 2, in a byte.
  pub descs_add_desc_lem :
      Descs.descs_validate p ≡ true
      → 2 ≤ desc_length
      → old + desc_length < 4096
      → (q : Bytes) × (Descs.descs_add_desc p desc_length ≡ some (q, 2 + old))
        × (Descs.descs_get_length q ≡ old + desc_length)
        × (Descs.desc_get_tag (at q (2 + old)) ≡ 0)
        × (Descs.desc_get_length (at q (2 + old)) ≡ (old + 254) % 256)
        × ((i : ℕ) → 2 ≤ i → i < 2 + old → q i ≡ p i)
  unfolding Descs.descs_add_desc
  descs_add_desc_lem v h k =
      (appended, ground arith, appended_length k, appended_tag, appended_inner, appended_kept)

  -- On an accepted list with room for it, `descs_add_desc` returns the place behind the others, but
  -- the new descriptor, of 2 to 257 bytes, has the requested size only where that size is the old
  -- length of the list, up to a multiple of 256.
  pub descs_add_desc_wrong_length :
      Descs.descs_validate p ≡ true
      → 2 ≤ desc_length
      → desc_length < 258
      → old + desc_length < 4096
      → (q : Bytes) × (Descs.descs_add_desc p desc_length ≡ some (q, 2 + old))
        × ((Descs.desc_get_length (at q (2 + old)) + 2 ≡ desc_length)
            ↔ (old % 256 ≡ desc_length % 256))
  descs_add_desc_wrong_length v h g k =
      let (q, e, _, _, inner, _) = descs_add_desc_lem v h k in
      (q, e, (λ x. omega (arith, inner), λ x. omega (arith, inner)))

-- ===== src/Srt/Handshake/Blocks.antt =====
-- The handshakes that srt_check_handshake accepts.
use bitstream.Base.{
  ltb, false, refl, ◌⊎◌, ℕ, zero, suc, ◌+◌, ◌-◌, ◌*◌, ◌≤◌, ◌<◌, ◌≡◌, ◌≢◌, ◌↔◌, inl, inr, Bool, true,
  ◌&&◌, arith, ◌==◌, ◌!=◌, Bool-cases, flag, u16, Bytes, at,
}
use bitstream.Srt.Handshake
use bitstream.Srt.Constants.{magic_code}

-- The size of the content of the extension, which the source keeps in 16 bits.
abbrev pub content_size : Bytes → ℕ
content_size ext = u16 (4 * Handshake.get_handshake_extension_len ext)

-- Extensions fill `n` bytes, one behind the other.
pub data Blocks : Bytes → ℕ → Type 0 where
  stop : {ext : Bytes} {n : ℕ} → n ≡ 0 → Blocks ext n
  step :
      {ext : Bytes} {n : ℕ} (rest : ℕ)
      → n ≡ 4 + content_size ext + rest
      → Blocks (at ext (4 + content_size ext)) rest
      → Blocks ext n

check_sound :
    (fuel : ℕ) (ext : Bytes) (n : ℕ) → Handshake.check_extensions fuel ext n ≡ true → Blocks ext n
unfolding Handshake.check_extensions
check_sound zero ext n h = absurd cc
check_sound (suc fuel) ext n h = elim (Bool-cases (n == 0)) [
  | inl done ↦ stop (ground arith)
  | inr more ↦
      step (n - 4 - content_size ext) (ground arith)
        (check_sound fuel (at ext (4 + content_size ext)) (n - 4 - content_size ext) (ground arith))
]

check_complete :
    (fuel : ℕ) (ext : Bytes) (n : ℕ)
    → n < fuel
    → Blocks ext n
    → Handshake.check_extensions fuel ext n ≡ true
unfolding Handshake.check_extensions
check_complete zero ext n h t = absurd (omega arith)
check_complete (suc fuel) ext n h (stop e) = ground arith
check_complete (suc fuel) ext n h (step rest e t) =
    let left : n - 4 - content_size ext ≡ rest = omega arith in
    let ih = check_complete fuel (at ext (4 + content_size ext)) rest (omega arith) t in
    rw left (ground arith)

-- What is asked of a handshake of `n` bytes: version 4 or 5, and in version 5, unless the field of
-- the extensions is 0 or the magic code, extensions that fill the bytes behind the fixed part.
pub record IsHandshake (p : Bytes) (n : ℕ) : Type 0 where
  pub whole : 48 ≤ n
  pub not_older : 4 ≤ Handshake.get_handshake_version p
  pub not_newer : Handshake.get_handshake_version p ≤ 5
  pub extended :
      ((Handshake.get_handshake_version p ≢ 5)
        ⊎ ((Handshake.get_handshake_extension p ≡ 0)
            ⊎ (Handshake.get_handshake_extension p ≡ magic_code)))
      ⊎ Blocks (at p 48) (n - 48)

le→not_ltb : (a b : ℕ) → a ≤ b → ltb b a ≡ false
le→not_ltb a b h = ground arith

abbrev has_extensions : Bytes → Bool
has_extensions p =
    Handshake.get_handshake_version p == 5
    && flag (Handshake.get_handshake_extension p)
    && Handshake.get_handshake_extension p != magic_code

-- `srt_check_handshake` accepts exactly the messages of at least 48 bytes whose version is 4 or 5
-- and where, in version 5 and unless the extension field is 0 or the magic code, extensions fill
-- the bytes behind the first 48, the size of each computed modulo 2 ^ 16.
pub check_handshake-IsHandshake :
    (p : Bytes) (n : ℕ) → (Handshake.check_handshake p n ≡ true) ↔ IsHandshake p n
unfolding Handshake.check_handshake Handshake.get_handshake_extension_buf
check_handshake-IsHandshake p n = (
  λ h. record {
    whole = ground arith;
    not_older = ground arith;
    not_newer = ground arith;
    extended = elim (Bool-cases (has_extensions p)) [
      | inl more ↦ inr (check_sound (n + 1) (at p 48) (n - 48) (ground arith))
      | inr none_left ↦ inl (ground arith)
    ];
  },
  λ t.
      let a = le→not_ltb 48 n t.whole in
      let b = le→not_ltb 4 (Handshake.get_handshake_version p) t.not_older in
      let c = le→not_ltb (Handshake.get_handshake_version p) 5 t.not_newer in
      elim (Bool-cases (has_extensions p)) [
        | inl more ↦ elim t.extended [
          | inl other ↦ ground arith
          | inr blocks ↦
              let checked = check_complete (n + 1) (at p 48) (n - 48) (omega arith) blocks in
              rw (a, b, c, more, checked) refl
        ]
        | inr none_left ↦ rw (a, b, c, none_left) refl
      ],
)

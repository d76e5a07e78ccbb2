-- ===== src/Base/Memory.antt =====
-- What a `uint8_t *` points at: the bytes by their offset from the pointer.
use Prim.Native.Nat.{ℕ, zero, suc, ◌+◌, ◌-◌, ◌%◌, ◌<◌}
use mathlib.Core.Path.{◌≡◌, refl, subst}
use mathlib.Core.Logic.{◌↔◌}
use mathlib.Core.Bool.{Bool, true, ◌&&◌}
use native.Mathlib.Omega.{arith}
use bitstream.Base.Tests.{ltb, leb, ◌==◌, if◌then◌else◌}

abbrev pub Bytes : Type 0
Bytes = ℕ → ℕ

-- Every value that is stored is a byte.
abbrev pub IsBytes : Bytes → Type 0
IsBytes p = (i : ℕ) → p i < 256

-- `p[i] = v`, with the conversion to `uint8_t`.
abbrev pub put : Bytes → ℕ → ℕ → Bytes
put p i v j = if i == j then v % 256 else p j

-- `memset(p + i, v, n)`
abbrev pub memset : Bytes → ℕ → ℕ → ℕ → Bytes
memset p i v n j = if leb i j && ltb j (i + n) then v % 256 else p j

-- `memcpy(p + i, q + k, n)` and `memmove`: the bytes are read before any is written.
abbrev pub memcpy : Bytes → ℕ → Bytes → ℕ → ℕ → Bytes
memcpy p i q k n j = if leb i j && ltb j (i + n) then q (k + (j - i)) else p j

-- The object at `p + k`.
abbrev pub at : Bytes → ℕ → Bytes
at p k j = p (k + j)

-- `p` with the object at `p + k` replaced.
abbrev pub put_at : Bytes → ℕ → Bytes → Bytes
put_at p k q j = if leb k j then q (j - k) else p j

pub put-IsBytes : (p : Bytes) (i v : ℕ) → IsBytes p → IsBytes (put p i v)
put-IsBytes p i v h j = ground (arith, h j)

pub memset-IsBytes : (p : Bytes) (i v n : ℕ) → IsBytes p → IsBytes (memset p i v n)
memset-IsBytes p i v n h j = ground (arith, h j)

pub memcpy-IsBytes :
    (p : Bytes) (i : ℕ) (q : Bytes) (k n : ℕ) → IsBytes p → IsBytes q → IsBytes (memcpy p i q k n)
memcpy-IsBytes p i q k n h g j = ground (arith, h j, g (k + (j - i)))

-- `!memcmp(p, q, n)`
unfoldable pub memcmp : Bytes → Bytes → ℕ → Bool
memcmp p q zero = true
memcmp p q (suc n) = p 0 == q 0 && memcmp (at p 1) (at q 1) n

suc_lem : (i : ℕ) → 1 + i ≡ suc i
suc_lem i = omega arith

memcmp→eq : (n : ℕ) (p q : Bytes) → memcmp p q n ≡ true → (i : ℕ) → i < n → p i ≡ q i
unfolding memcmp
memcmp→eq zero p q e i h = absurd (omega arith)
memcmp→eq (suc n) p q e zero h = ground arith
memcmp→eq (suc n) p q e (suc i) h =
    subst (λ k. p k ≡ q k) (suc_lem i)
      (memcmp→eq n (at p 1) (at q 1) (ground arith) i (omega arith))

eq→memcmp : (n : ℕ) (p q : Bytes) → ((i : ℕ) → i < n → p i ≡ q i) → memcmp p q n ≡ true
unfolding memcmp
eq→memcmp zero p q h = refl
eq→memcmp (suc n) p q h =
    ground
      (arith, h 0 (omega arith), eq→memcmp n (at p 1) (at q 1) (λ i g. h (1 + i) (omega arith)))

-- The bytes compared are equal exactly when `memcmp` says so.
pub memcmp_iff : (n : ℕ) (p q : Bytes) → (memcmp p q n ≡ true) ↔ ((i : ℕ) → i < n → p i ≡ q i)
memcmp_iff n p q = (memcmp→eq n p q, eq→memcmp n p q)

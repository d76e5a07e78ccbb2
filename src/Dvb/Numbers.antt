-- ===== src/Dvb/Numbers.antt =====
-- dvb/si/numbers.h: numbers in binary-coded decimal, two digits to a byte.
pub mod Pairs
pub mod RoundTrip
mod Tests
use bitstream.Base.{
  ℕ, zero, suc, ◌+◌, ◌-◌, ◌*◌, ◌/◌, ◌%◌, ◌^◌, bit_and, bit_or, Bytes, put, u8, u32, ◌<<◌, ◌>>◌,
  ◌==◌, ltb, if◌then◌else◌,
}

-- `i_result *= 10; i_result += digit;`
unfoldable pub add_digit : ℕ → ℕ → ℕ
add_digit result digit = u32 (u32 (result * 10) + digit)

-- `while (i_width >= 8)` from the byte `i` on, and the `if` behind it. A round takes 8 from the width.
unfoldable pub get_loop : ℕ → Bytes → ℕ → ℕ → ℕ → ℕ
unfolding add_digit
get_loop zero p i width result = result
get_loop (suc fuel) p i width result =
    let rest =
      get_loop fuel p (i + 1) (width - 8)
        (add_digit (add_digit result (p i >> 4)) (bit_and (p i) 0xf)) in
    let last = if width == 4 then add_digit result (p i >> 4) else result in
    if ltb width 8 then last else rest

unfoldable pub bcd_get : Bytes → ℕ → ℕ
bcd_get p width = get_loop (width / 8 + 1) p 0 width 0

-- `while (i_exp)`: an exponent of 32 bits is halved to 0 in 32 rounds.
unfoldable pub power_loop : ℕ → ℕ → ℕ → ℕ → ℕ
power_loop zero exp base factor = factor
power_loop (suc fuel) exp base factor =
    let rest =
      power_loop fuel (exp >> 1) (u32 (base * base))
        (if bit_and exp 1 == 1 then u32 (factor * base) else factor) in
    if exp == 0 then factor else rest

-- `*p_bcd` with both digits.
unfoldable pub pair : ℕ → ℕ → ℕ
pair int factor = bit_or (u8 (int / factor << 4)) (int % factor / (factor / 10))

-- `if (i_factor == 1)`
unfoldable pub set_last : Bytes → ℕ → ℕ → ℕ → Bytes
set_last p i int factor =
    if factor == 1 then put p i (bit_or (bit_and (p i) 0xf) (u8 (int << 4))) else p

-- `while (i_factor >= 10)` and the `if` behind it. A factor of 32 bits is below 10 after five rounds.
unfoldable pub set_loop : ℕ → Bytes → ℕ → ℕ → ℕ → Bytes
unfolding pair set_last
set_loop zero p i int factor = set_last p i int factor
set_loop (suc fuel) p i int factor =
    let rest =
      set_loop fuel (put p i (pair int factor)) (i + 1) (int % factor % (factor / 10))
        (factor / 10 / 10) in
    let last = set_last p i int factor in if ltb factor 10 then last else rest

unfoldable pub bcd_set : Bytes → ℕ → ℕ → Bytes
unfolding power_loop set_loop
bcd_set p int width = set_loop 5 p 0 int (power_loop 32 (u32 (width / 4 + 2 ^ 32 - 1)) 10 1)

-- From an object that is not initialised.
unfoldable pub bcd_set8 : ℕ → ℕ → ℕ
bcd_set8 garbage int = bcd_set (λ _. garbage) int 8 0

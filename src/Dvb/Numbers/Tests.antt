-- ===== src/Dvb/Numbers/Tests.antt =====
-- A number of seven digits, which ends in half a byte.
use bitstream.Base.{◌≡◌, ◌*◌, refl, Bytes, arith}
use bitstream.Dvb.Numbers.{bcd_get, bcd_set, set_loop, set_last, pair, power_loop}
use bitstream.Dvb.Numbers.RoundTrip.{bcd_get-bcd_set}

abbrev filled : Bytes
filled i = 0xff

bcd_get-bcd_set_example : bcd_get (bcd_set filled 275000 (7 * 4)) (7 * 4) ≡ 275000
bcd_get-bcd_set_example =
    bcd_get-bcd_set filled 7 275000 (omega arith) (omega arith) (omega arith) (omega arith)

half_byte : bcd_set filled 275000 28 3 ≡ 0x0f
unfolding bcd_set set_loop set_last pair power_loop
half_byte = refl

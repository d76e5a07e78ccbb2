-- ===== src/Common/BitField/Tests.antt =====
-- Eleven bits across three bytes.
use bitstream.Base.{arith, inr, ◌+◌, ◌-◌, ◌%◌, ◌^◌, ◌≡◌, ◌&&◌, ltb, leb, if◌then◌else◌, refl, Bytes}
use bitstream.Common.BitField.{bitstream_get, bitstream_set, set_loop, set_mask, set_bits}
use bitstream.Common.BitField.Digits.{digit}
use bitstream.Common.BitField.Get.{bit}
use bitstream.Common.BitField.Set.{bit-bitstream_set}
use bitstream.Common.BitField.RoundTrip.{get-bitstream_set}

abbrev filled : Bytes
filled i = 0xff

bit-bitstream_set_example :
    bit (bitstream_set filled 6 11 0x155) 7
    ≡ (if leb 6 7 && ltb 7 (6 + 11) then digit 0x155 (6 + 11 - 1 - 7) else bit filled 7)
bit-bitstream_set_example = bit-bitstream_set filled 6 11 0x155 7

get-bitstream_set_example :
    (bitstream_get 16 (bitstream_set filled 6 11 0x155) 6 11 ≡ 0x155 % 2 ^ 11 % 2 ^ 16)
    × (bitstream_get 16 (bitstream_set filled 6 11 0x155) 20 8 ≡ bitstream_get 16 filled 20 8)
get-bitstream_set_example = get-bitstream_set 16 filled 6 11 0x155 20 8 (inr (omega arith))

second_byte : bitstream_set filled 6 11 0x155 1 ≡ 0xaa
unfolding bitstream_set set_loop set_mask set_bits
second_byte = refl

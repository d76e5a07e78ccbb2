-- ===== src/Net/Tests.antt =====
-- The theorems on the packet headers at concrete inputs.
use bitstream.Base.{◌+◌, ◌*◌, ◌%◌, refl, Bytes, IsBytes, arith, if◌then◌else◌, ◌==◌}
use bitstream.Net.Rtp
use bitstream.Net.Ip.Header as IpHeader
use bitstream.Net.Rtp.Payload.{Parts}

abbrev sample : Bytes
sample i = (i * 37 + 200) % 256

sample-IsBytes : IsBytes sample
sample-IsBytes i = omega arith

ip_setters_example :
    IpHeader.HeaderLaws sample 4 5 0 1344 7 1 1 0 0x1abc 64 17 0xbeef 0xc0a80001 0xef010203
ip_setters_example =
    IpHeader.ip_setters sample 4 5 0 1344 7 1 1 0 0x1abc 64 17 0xbeef 0xc0a80001 0xef010203
      sample-IsBytes (omega arith) (omega arith) (omega arith) (omega arith) (omega arith)
      (omega arith) (omega arith) (omega arith) (omega arith) (omega arith) (omega arith)
      (omega arith) (omega arith) (omega arith)

-- One source, an extension of 2 words, and 3 bytes of padding in 100.
abbrev packet : Bytes
packet i = if i == 0 then 0xb1 else if i == 19 then 2 else if i == 99 then 3 else 0

packet-Parts : Parts packet 100 12 3
unfolding Rtp.check_extension Rtp.get_extension_length Rtp.extension Rtp.check_padding Rtp.get_cc
packet-Parts = record {
  extended = λ _. refl;
  not_extended = λ e. absurd (ground (arith, e));
  padded = λ _. refl;
  not_padded = λ e. absurd (ground (arith, e));
  room = omega arith;
}

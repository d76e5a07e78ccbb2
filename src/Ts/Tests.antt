-- ===== src/Ts/Tests.antt =====
-- Runs on concrete packets, and the theorems at concrete inputs.
use bitstream.Base.{◌+◌, ◌*◌, ◌%◌, ◌≡◌, refl, Bytes, IsBytes, arith}
use bitstream.Ts
use bitstream.Ts.Payload.{IsStuffed, set_adaptation-IsStuffed}

abbrev sample : Bytes
sample i = (i * 37 + 200) % 256

sample-IsBytes : IsBytes sample
sample-IsBytes i = omega arith

-- A packet whose clock extension is below 256.
abbrev clean : Bytes
clean i = (i * 64) % 256

clean-IsBytes : IsBytes clean
clean-IsBytes i = omega arith

pad_pid : Ts.get_pid (Ts.pad sample) ≡ 0x1fff
unfolding Ts.pad Ts.get_pid
pad_pid = refl

pad_payload : Ts.payload (Ts.pad sample) ≡ 4
unfolding Ts.pad Ts.payload
pad_payload = refl

set_adaptation-IsStuffed_example : IsStuffed sample 100 (Ts.set_adaptation sample 100)
set_adaptation-IsStuffed_example = set_adaptation-IsStuffed sample 100 sample-IsBytes (omega arith)

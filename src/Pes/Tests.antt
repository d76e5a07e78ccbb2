-- ===== src/Pes/Tests.antt =====
-- Runs on concrete packets, and the theorems at concrete inputs.
use bitstream.Base.{◌+◌, ◌*◌, ◌%◌, ◌≡◌, refl, true, Bytes, arith}
use bitstream.Pes
use bitstream.Pes.Both.{CarriesPts, CarriesDts, set_dts-set_pts}

abbrev sample : Bytes
sample i = (i * 37 + 200) % 256

validate-init : Pes.validate (Pes.set_streamid (Pes.init sample) 0xe0) ≡ true
unfolding Pes.validate Pes.set_streamid Pes.init
validate-init = refl

set_dts-set_pts_example :
    CarriesPts (Pes.set_dts (Pes.set_pts sample 90000) 86400) 90000
    × CarriesDts (Pes.set_dts (Pes.set_pts sample 90000) 86400) 86400
set_dts-set_pts_example = set_dts-set_pts sample 90000 86400 (omega arith) (omega arith)

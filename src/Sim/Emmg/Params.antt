-- ===== src/Sim/Emmg/Params.antt =====
-- dvb/sim.h: the parameters of Emmg that hold a number, one of a signed type as the number of
-- the same bits.
use bitstream.Base.{ℕ, Bool, Option, Bytes}
use bitstream.Sim.Append
use bitstream.Sim.Emmg

unfoldable pub append_clientid : Bytes → ℕ → Option (Bool × Bytes)
unfolding Append.append_value
append_clientid = Append.append_value Emmg.param_clientid 4

unfoldable pub find_clientid : Bytes → ℕ → Option ℕ
unfolding Append.find_value
find_clientid = Append.find_value Emmg.param_clientid 4

unfoldable pub append_sectiontspkt : Bytes → ℕ → Option (Bool × Bytes)
unfolding Append.append_value
append_sectiontspkt = Append.append_value Emmg.param_sectiontspkt 1

unfoldable pub find_sectiontspkt : Bytes → ℕ → Option ℕ
unfolding Append.find_value
find_sectiontspkt = Append.find_value Emmg.param_sectiontspkt 1

unfoldable pub append_datachannelid : Bytes → ℕ → Option (Bool × Bytes)
unfolding Append.append_value
append_datachannelid = Append.append_value Emmg.param_datachannelid 2

unfoldable pub find_datachannelid : Bytes → ℕ → Option ℕ
unfolding Append.find_value
find_datachannelid = Append.find_value Emmg.param_datachannelid 2

unfoldable pub append_datastreamid : Bytes → ℕ → Option (Bool × Bytes)
unfolding Append.append_value
append_datastreamid = Append.append_value Emmg.param_datastreamid 2

unfoldable pub find_datastreamid : Bytes → ℕ → Option ℕ
unfolding Append.find_value
find_datastreamid = Append.find_value Emmg.param_datastreamid 2

unfoldable pub append_bandwidth : Bytes → ℕ → Option (Bool × Bytes)
unfolding Append.append_value
append_bandwidth = Append.append_value Emmg.param_bandwidth 2

unfoldable pub find_bandwidth : Bytes → ℕ → Option ℕ
unfolding Append.find_value
find_bandwidth = Append.find_value Emmg.param_bandwidth 2

unfoldable pub append_datatype : Bytes → ℕ → Option (Bool × Bytes)
unfolding Append.append_value
append_datatype = Append.append_value Emmg.param_datatype 1

unfoldable pub find_datatype : Bytes → ℕ → Option ℕ
unfolding Append.find_value
find_datatype = Append.find_value Emmg.param_datatype 1

unfoldable pub append_dataid : Bytes → ℕ → Option (Bool × Bytes)
unfolding Append.append_value
append_dataid = Append.append_value Emmg.param_dataid 2

unfoldable pub find_dataid : Bytes → ℕ → Option ℕ
unfolding Append.find_value
find_dataid = Append.find_value Emmg.param_dataid 2

unfoldable pub append_errorstatus : Bytes → ℕ → Option (Bool × Bytes)
unfolding Append.append_value
append_errorstatus = Append.append_value Emmg.param_errorstatus 2

unfoldable pub find_errorstatus : Bytes → ℕ → Option ℕ
unfolding Append.find_value
find_errorstatus = Append.find_value Emmg.param_errorstatus 2

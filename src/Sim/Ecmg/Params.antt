-- ===== src/Sim/Ecmg/Params.antt =====
-- dvb/sim.h: the parameters of Ecmg that hold a number, one of a signed type as the number of
-- the same bits.
use bitstream.Base.{ℕ, Bool, Option, none, some, flag, Bytes}
use bitstream.Sim.Append
use bitstream.Sim.Ecmg

unfoldable pub append_supercasid : Bytes → ℕ → Option (Bool × Bytes)
unfolding Append.append_value
append_supercasid = Append.append_value Ecmg.param_supercasid 4

unfoldable pub find_supercasid : Bytes → ℕ → Option ℕ
unfolding Append.find_value
find_supercasid = Append.find_value Ecmg.param_supercasid 4

unfoldable pub append_sectiontspkt : Bytes → ℕ → Option (Bool × Bytes)
unfolding Append.append_value
append_sectiontspkt = Append.append_value Ecmg.param_sectiontspkt 1

unfoldable pub find_sectiontspkt : Bytes → ℕ → Option ℕ
unfolding Append.find_value
find_sectiontspkt = Append.find_value Ecmg.param_sectiontspkt 1

unfoldable pub append_delaystart : Bytes → ℕ → Option (Bool × Bytes)
unfolding Append.append_value
append_delaystart = Append.append_value Ecmg.param_delaystart 2

unfoldable pub find_delaystart : Bytes → ℕ → Option ℕ
unfolding Append.find_value
find_delaystart = Append.find_value Ecmg.param_delaystart 2

unfoldable pub append_delaystop : Bytes → ℕ → Option (Bool × Bytes)
unfolding Append.append_value
append_delaystop = Append.append_value Ecmg.param_delaystop 2

unfoldable pub find_delaystop : Bytes → ℕ → Option ℕ
unfolding Append.find_value
find_delaystop = Append.find_value Ecmg.param_delaystop 2

unfoldable pub append_transdelaystart : Bytes → ℕ → Option (Bool × Bytes)
unfolding Append.append_value
append_transdelaystart = Append.append_value Ecmg.param_transdelaystart 2

unfoldable pub find_transdelaystart : Bytes → ℕ → Option ℕ
unfolding Append.find_value
find_transdelaystart = Append.find_value Ecmg.param_transdelaystart 2

unfoldable pub append_transdelaystop : Bytes → ℕ → Option (Bool × Bytes)
unfolding Append.append_value
append_transdelaystop = Append.append_value Ecmg.param_transdelaystop 2

unfoldable pub find_transdelaystop : Bytes → ℕ → Option ℕ
unfolding Append.find_value
find_transdelaystop = Append.find_value Ecmg.param_transdelaystop 2

unfoldable pub append_repperiod : Bytes → ℕ → Option (Bool × Bytes)
unfolding Append.append_value
append_repperiod = Append.append_value Ecmg.param_repperiod 2

unfoldable pub find_repperiod : Bytes → ℕ → Option ℕ
unfolding Append.find_value
find_repperiod = Append.find_value Ecmg.param_repperiod 2

unfoldable pub append_maxstreams : Bytes → ℕ → Option (Bool × Bytes)
unfolding Append.append_value
append_maxstreams = Append.append_value Ecmg.param_maxstreams 2

unfoldable pub find_maxstreams : Bytes → ℕ → Option ℕ
unfolding Append.find_value
find_maxstreams = Append.find_value Ecmg.param_maxstreams 2

unfoldable pub append_mincpdur : Bytes → ℕ → Option (Bool × Bytes)
unfolding Append.append_value
append_mincpdur = Append.append_value Ecmg.param_mincpdur 2

unfoldable pub find_mincpdur : Bytes → ℕ → Option ℕ
unfolding Append.find_value
find_mincpdur = Append.find_value Ecmg.param_mincpdur 2

unfoldable pub append_leadcw : Bytes → ℕ → Option (Bool × Bytes)
unfolding Append.append_value
append_leadcw = Append.append_value Ecmg.param_leadcw 1

unfoldable pub find_leadcw : Bytes → ℕ → Option ℕ
unfolding Append.find_value
find_leadcw = Append.find_value Ecmg.param_leadcw 1

unfoldable pub append_cwpermsg : Bytes → ℕ → Option (Bool × Bytes)
unfolding Append.append_value
append_cwpermsg = Append.append_value Ecmg.param_cwpermsg 1

unfoldable pub find_cwpermsg : Bytes → ℕ → Option ℕ
unfolding Append.find_value
find_cwpermsg = Append.find_value Ecmg.param_cwpermsg 1

unfoldable pub append_maxcomptime : Bytes → ℕ → Option (Bool × Bytes)
unfolding Append.append_value
append_maxcomptime = Append.append_value Ecmg.param_maxcomptime 2

unfoldable pub find_maxcomptime : Bytes → ℕ → Option ℕ
unfolding Append.find_value
find_maxcomptime = Append.find_value Ecmg.param_maxcomptime 2

unfoldable pub append_channelid : Bytes → ℕ → Option (Bool × Bytes)
unfolding Append.append_value
append_channelid = Append.append_value Ecmg.param_channelid 2

unfoldable pub find_channelid : Bytes → ℕ → Option ℕ
unfolding Append.find_value
find_channelid = Append.find_value Ecmg.param_channelid 2

unfoldable pub append_streamid : Bytes → ℕ → Option (Bool × Bytes)
unfolding Append.append_value
append_streamid = Append.append_value Ecmg.param_streamid 2

unfoldable pub find_streamid : Bytes → ℕ → Option ℕ
unfolding Append.find_value
find_streamid = Append.find_value Ecmg.param_streamid 2

unfoldable pub append_nomcpdur : Bytes → ℕ → Option (Bool × Bytes)
unfolding Append.append_value
append_nomcpdur = Append.append_value Ecmg.param_nomcpdur 2

unfoldable pub find_nomcpdur : Bytes → ℕ → Option ℕ
unfolding Append.find_value
find_nomcpdur = Append.find_value Ecmg.param_nomcpdur 2

unfoldable pub append_accesscritmode : Bytes → ℕ → Option (Bool × Bytes)
unfolding Append.append_value
append_accesscritmode = Append.append_value Ecmg.param_accesscritmode 1

abbrev flag_of : Option ℕ → Option Bool
flag_of none = none
flag_of (some x) = some (flag x)

-- a C `bool`
unfoldable pub find_accesscritmode : Bytes → ℕ → Option Bool
unfolding Append.find_value
find_accesscritmode p n = flag_of (Append.find_value Ecmg.param_accesscritmode 1 p n)

unfoldable pub append_cpnumber : Bytes → ℕ → Option (Bool × Bytes)
unfolding Append.append_value
append_cpnumber = Append.append_value Ecmg.param_cpnumber 2

unfoldable pub find_cpnumber : Bytes → ℕ → Option ℕ
unfolding Append.find_value
find_cpnumber = Append.find_value Ecmg.param_cpnumber 2

unfoldable pub append_cpdur : Bytes → ℕ → Option (Bool × Bytes)
unfolding Append.append_value
append_cpdur = Append.append_value Ecmg.param_cpdur 2

unfoldable pub find_cpdur : Bytes → ℕ → Option ℕ
unfolding Append.find_value
find_cpdur = Append.find_value Ecmg.param_cpdur 2

unfoldable pub append_acdelaystart : Bytes → ℕ → Option (Bool × Bytes)
unfolding Append.append_value
append_acdelaystart = Append.append_value Ecmg.param_acdelaystart 2

unfoldable pub find_acdelaystart : Bytes → ℕ → Option ℕ
unfolding Append.find_value
find_acdelaystart = Append.find_value Ecmg.param_acdelaystart 2

unfoldable pub append_acdelaystop : Bytes → ℕ → Option (Bool × Bytes)
unfolding Append.append_value
append_acdelaystop = Append.append_value Ecmg.param_acdelaystop 2

unfoldable pub find_acdelaystop : Bytes → ℕ → Option ℕ
unfolding Append.find_value
find_acdelaystop = Append.find_value Ecmg.param_acdelaystop 2

unfoldable pub append_ecmid : Bytes → ℕ → Option (Bool × Bytes)
unfolding Append.append_value
append_ecmid = Append.append_value Ecmg.param_ecmid 2

unfoldable pub find_ecmid : Bytes → ℕ → Option ℕ
unfolding Append.find_value
find_ecmid = Append.find_value Ecmg.param_ecmid 2

unfoldable pub append_errorstatus : Bytes → ℕ → Option (Bool × Bytes)
unfolding Append.append_value
append_errorstatus = Append.append_value Ecmg.param_errorstatus 2

unfoldable pub find_errorstatus : Bytes → ℕ → Option ℕ
unfolding Append.find_value
find_errorstatus = Append.find_value Ecmg.param_errorstatus 2

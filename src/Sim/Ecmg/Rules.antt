-- ===== src/Sim/Ecmg/Rules.antt =====
-- dvb/sim.h: which parameters the messages of Ecmg have, and how often.
use bitstream.Base.{
  ℕ, Bool, true, not, ◌||◌, Option, List, [], ◌∷◌, ltb, leb, ◌==◌, if◌then◌else◌, Bytes, length,
  get_or,
}
use bitstream.Sim.{ParamCount}
use bitstream.Sim
use bitstream.Sim.Ecmg
use bitstream.Sim.Check.{validate_message}

abbrev count : ℕ → ℕ → ℕ → ParamCount
count type min max = record { type = type; min = min; max = max }

-- UINT16_MAX
abbrev many : ℕ
many = 65535

-- The entry of type 0 at the end of each table is the end of the list.
abbrev pub params_channel_setup : List ParamCount
params_channel_setup = count Ecmg.param_channelid 1 1 ∷ count Ecmg.param_supercasid 1 1 ∷ []

abbrev pub params_channel_test : List ParamCount
params_channel_test = count Ecmg.param_channelid 1 1 ∷ []

abbrev pub params_channel_status : List ParamCount
params_channel_status =
    count Ecmg.param_channelid 1 1
    ∷ count Ecmg.param_sectiontspkt 1 1
    ∷ count Ecmg.param_acdelaystart 0 1
    ∷ count Ecmg.param_acdelaystop 0 1
    ∷ count Ecmg.param_delaystart 1 1
    ∷ count Ecmg.param_delaystop 1 1
    ∷ count Ecmg.param_transdelaystart 0 1
    ∷ count Ecmg.param_transdelaystop 0 1
    ∷ count Ecmg.param_repperiod 1 1
    ∷ count Ecmg.param_maxstreams 1 1
    ∷ count Ecmg.param_mincpdur 1 1
    ∷ count Ecmg.param_leadcw 1 1
    ∷ count Ecmg.param_cwpermsg 1 1
    ∷ count Ecmg.param_maxcomptime 1 1
    ∷ []

abbrev pub params_channel_close : List ParamCount
params_channel_close = count Ecmg.param_channelid 1 1 ∷ []

abbrev pub params_channel_error : List ParamCount
params_channel_error = count Ecmg.param_channelid 1 1 ∷ count Ecmg.param_errorstatus 1 many ∷ []

abbrev pub params_stream_setup : List ParamCount
params_stream_setup =
    count Ecmg.param_channelid 1 1
    ∷ count Ecmg.param_streamid 1 1
    ∷ count Ecmg.param_ecmid 0 1
    ∷ count Ecmg.param_nomcpdur 1 1
    ∷ []

abbrev pub params_stream_test : List ParamCount
params_stream_test = count Ecmg.param_channelid 1 1 ∷ count Ecmg.param_streamid 1 1 ∷ []

abbrev pub params_stream_status : List ParamCount
params_stream_status =
    count Ecmg.param_channelid 1 1
    ∷ count Ecmg.param_streamid 1 1
    ∷ count Ecmg.param_ecmid 0 1
    ∷ count Ecmg.param_accesscritmode 1 1
    ∷ []

abbrev pub params_stream_close : List ParamCount
params_stream_close = count Ecmg.param_channelid 1 1 ∷ count Ecmg.param_streamid 1 1 ∷ []

abbrev pub params_stream_error : List ParamCount
params_stream_error =
    count Ecmg.param_channelid 1 1
    ∷ count Ecmg.param_streamid 1 1
    ∷ count Ecmg.param_errorstatus 1 many
    ∷ []

abbrev pub params_cw : List ParamCount
params_cw =
    count Ecmg.param_channelid 1 1
    ∷ count Ecmg.param_streamid 1 1
    ∷ count Ecmg.param_cpnumber 1 1
    ∷ count Ecmg.param_cwencrypt 0 1
    ∷ count Ecmg.param_cpcwcomb 1 many
    ∷ count Ecmg.param_cpdur 0 1
    ∷ count Ecmg.param_accesscrit 0 1
    ∷ []

abbrev pub params_ecm : List ParamCount
params_ecm =
    count Ecmg.param_channelid 1 1
    ∷ count Ecmg.param_streamid 1 1
    ∷ count Ecmg.param_cpnumber 1 1
    ∷ count Ecmg.param_ecm 1 1
    ∷ []

-- The `switch` on the type of the message.
unfoldable pub params : ℕ → List ParamCount
params type =
    if type == Ecmg.type_channel_setup
    then params_channel_setup
    else if type == Ecmg.type_channel_test
    then params_channel_test
    else if type == Ecmg.type_channel_status
    then params_channel_status
    else if type == Ecmg.type_channel_close
    then params_channel_close
    else if type == Ecmg.type_channel_error
    then params_channel_error
    else if type == Ecmg.type_stream_setup
    then params_stream_setup
    else if type == Ecmg.type_stream_test
    then params_stream_test
    else if type == Ecmg.type_stream_status
    then params_stream_status
    else if type == Ecmg.type_stream_closereq || type == Ecmg.type_stream_closeresp
    then params_stream_close
    else if type == Ecmg.type_stream_error
    then params_stream_error
    else if type == Ecmg.type_cw
    then params_cw
    else if type == Ecmg.type_ecm
    then params_ecm
    else []

abbrev pub params_minlength : List ℕ
params_minlength =
    0 ∷ 4 ∷ 1 ∷ 2 ∷ 2 ∷ 2 ∷ 2 ∷ 2 ∷ 2 ∷ 2 ∷ 1 ∷ 1 ∷ 2 ∷ 0 ∷ 2 ∷ 2 ∷ 2 ∷ 1 ∷ 2 ∷ 2 ∷ 0 ∷ 0 ∷ 2 ∷ 2
    ∷ 0 ∷ 2 ∷ []

-- By the type and the length of the parameter.
unfoldable pub validate_param : ℕ → ℕ → Bool
validate_param type length =
    if leb type Ecmg.param_ecmid
    then not (ltb length (get_or params_minlength type 0))
    else if type == Ecmg.param_errorstatus
    then not (ltb length 2)
    else true

unfoldable pub validate : Bytes → Option Bool
unfolding validate_message params validate_param
validate p = validate_message (params (Sim.get_type p)) validate_param p

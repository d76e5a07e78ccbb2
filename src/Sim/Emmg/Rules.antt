-- ===== src/Sim/Emmg/Rules.antt =====
-- dvb/sim.h: which parameters the messages of Emmg have, and how often.
use bitstream.Base.{
  ℕ, Bool, true, not, ◌&&◌, ◌||◌, Option, List, [], ◌∷◌, ltb, leb, ◌==◌, ◌!=◌, if◌then◌else◌, Bytes,
  length, get_or,
}
use bitstream.Sim.{ParamCount}
use bitstream.Sim
use bitstream.Sim.Emmg
use bitstream.Sim.Check.{validate_message}

abbrev count : ℕ → ℕ → ℕ → ParamCount
count type min max = record { type = type; min = min; max = max }

-- UINT16_MAX
abbrev many : ℕ
many = 65535

-- The entry of type 0 at the end of each table is the end of the list.
abbrev pub params_channel_setup : List ParamCount
params_channel_setup =
    count Emmg.param_clientid 1 1
    ∷ count Emmg.param_datachannelid 1 1
    ∷ count Emmg.param_sectiontspkt 1 1
    ∷ []

abbrev pub params_channel_test : List ParamCount
params_channel_test = count Emmg.param_clientid 1 1 ∷ count Emmg.param_datachannelid 1 1 ∷ []

abbrev pub params_channel_status : List ParamCount
params_channel_status =
    count Emmg.param_clientid 1 1
    ∷ count Emmg.param_datachannelid 1 1
    ∷ count Emmg.param_sectiontspkt 1 1
    ∷ []

abbrev pub params_channel_close : List ParamCount
params_channel_close = count Emmg.param_clientid 1 1 ∷ count Emmg.param_datachannelid 1 1 ∷ []

abbrev pub params_channel_error : List ParamCount
params_channel_error =
    count Emmg.param_clientid 1 1
    ∷ count Emmg.param_datachannelid 1 1
    ∷ count Emmg.param_errorstatus 1 many
    ∷ []

abbrev pub params_stream_setup : List ParamCount
params_stream_setup =
    count Emmg.param_clientid 1 1
    ∷ count Emmg.param_datachannelid 1 1
    ∷ count Emmg.param_datastreamid 1 1
    ∷ count Emmg.param_dataid 1 1
    ∷ count Emmg.param_datatype 1 1
    ∷ []

abbrev pub params_stream_test : List ParamCount
params_stream_test =
    count Emmg.param_clientid 1 1
    ∷ count Emmg.param_datachannelid 1 1
    ∷ count Emmg.param_datastreamid 1 1
    ∷ []

abbrev pub params_stream_status : List ParamCount
params_stream_status =
    count Emmg.param_clientid 1 1
    ∷ count Emmg.param_datachannelid 1 1
    ∷ count Emmg.param_datastreamid 1 1
    ∷ count Emmg.param_dataid 1 1
    ∷ count Emmg.param_datatype 1 1
    ∷ []

abbrev pub params_stream_close : List ParamCount
params_stream_close =
    count Emmg.param_clientid 1 1
    ∷ count Emmg.param_datachannelid 1 1
    ∷ count Emmg.param_datastreamid 1 1
    ∷ []

abbrev pub params_stream_error : List ParamCount
params_stream_error =
    count Emmg.param_clientid 1 1
    ∷ count Emmg.param_datachannelid 1 1
    ∷ count Emmg.param_datastreamid 1 1
    ∷ count Emmg.param_errorstatus 1 many
    ∷ []

abbrev pub params_bandwidth : List ParamCount
params_bandwidth =
    count Emmg.param_clientid 1 1
    ∷ count Emmg.param_datachannelid 1 1
    ∷ count Emmg.param_datastreamid 1 1
    ∷ count Emmg.param_bandwidth 0 1
    ∷ []

abbrev pub params_data_provision : List ParamCount
params_data_provision =
    count Emmg.param_clientid 1 1
    ∷ count Emmg.param_datachannelid 0 1
    ∷ count Emmg.param_datastreamid 0 1
    ∷ count Emmg.param_dataid 1 1
    ∷ count Emmg.param_datagram 1 many
    ∷ []

-- The `switch` on the type of the message.
unfoldable pub params : ℕ → List ParamCount
params type =
    if type == Emmg.type_channel_setup
    then params_channel_setup
    else if type == Emmg.type_channel_test
    then params_channel_test
    else if type == Emmg.type_channel_status
    then params_channel_status
    else if type == Emmg.type_channel_close
    then params_channel_close
    else if type == Emmg.type_channel_error
    then params_channel_error
    else if type == Emmg.type_stream_setup
    then params_stream_setup
    else if type == Emmg.type_stream_test
    then params_stream_test
    else if type == Emmg.type_stream_status
    then params_stream_status
    else if type == Emmg.type_stream_closereq || type == Emmg.type_stream_closeresp
    then params_stream_close
    else if type == Emmg.type_stream_error
    then params_stream_error
    else if type == Emmg.type_bw_alloc || type == Emmg.type_bw_req
    then params_bandwidth
    else if type == Emmg.type_data_provision
    then params_data_provision
    else []

abbrev pub params_minlength : List ℕ
params_minlength = 0 ∷ 4 ∷ 1 ∷ 2 ∷ 2 ∷ 1 ∷ 2 ∷ 1 ∷ 2 ∷ []

abbrev pub params_manlength : List ℕ
params_manlength = 0 ∷ 4 ∷ 1 ∷ 2 ∷ 2 ∷ 1 ∷ 2 ∷ 1 ∷ 2 ∷ []

-- By the type and the length of the parameter.
unfoldable pub validate_param : ℕ → ℕ → Bool
validate_param type length =
    if leb type Emmg.param_dataid && type != Emmg.param_datagram
    then not
        (ltb length (get_or params_minlength type 0) || ltb (get_or params_manlength type 0) length)
    else if type == Emmg.param_errorstatus
    then not (ltb length 2)
    else true

unfoldable pub validate : Bytes → Option Bool
unfolding validate_message params validate_param
validate p = validate_message (params (Sim.get_type p)) validate_param p

-- ===== src/Sim/Emmg.antt =====
-- dvb/sim.h: the messages between an EMMG and a multiplexer, their parameters, and the check of a message.
pub mod Params
pub mod Rules
use bitstream.Base.{
  ℕ, zero, suc, ◌+◌, ◌-◌, ◌*◌, ◌/◌, ◌%◌, ◌^◌, ◌≤◌, ◌<◌, bit_and, bit_or, bit_xor, ◌≡◌, refl, sym,
  ap, ap₂, subst, ◌∙◌, fun_ext, ◌≢◌, ◌↔◌, ◌⊎◌, inl, inr, Bool, true, false, not, ◌&&◌, ◌||◌, Option,
  none, some, List, [], ◌∷◌, ◌++◌, arith, ltb, leb, ◌==◌, ◌!=◌, if◌then◌else◌, ==_iff, Bool-cases,
  Option-cases, flag, &&_parts, all_below, all_below_at, u8, u16, u32, ◌<<◌, ◌>>◌, Bytes, IsBytes,
  put, memset, memcpy, at, put_at, length, get_or, length-append, get_elem?, put-IsBytes,
  memcpy-IsBytes,
}
use bitstream.Sim
use bitstream.Sim.Append

-- message types
abbrev pub type_channel_setup : ℕ
type_channel_setup = 0x0011

abbrev pub type_channel_test : ℕ
type_channel_test = 0x0012

abbrev pub type_channel_status : ℕ
type_channel_status = 0x0013

abbrev pub type_channel_close : ℕ
type_channel_close = 0x0014

abbrev pub type_channel_error : ℕ
type_channel_error = 0x0015

abbrev pub type_stream_setup : ℕ
type_stream_setup = 0x0111

abbrev pub type_stream_test : ℕ
type_stream_test = 0x0112

abbrev pub type_stream_status : ℕ
type_stream_status = 0x0113

abbrev pub type_stream_closereq : ℕ
type_stream_closereq = 0x0114

abbrev pub type_stream_closeresp : ℕ
type_stream_closeresp = 0x0115

abbrev pub type_stream_error : ℕ
type_stream_error = 0x0116

abbrev pub type_bw_req : ℕ
type_bw_req = 0x0117

abbrev pub type_bw_alloc : ℕ
type_bw_alloc = 0x0118

abbrev pub type_data_provision : ℕ
type_data_provision = 0x0211

-- parameter types
abbrev pub param_clientid : ℕ
param_clientid = 0x0001

abbrev pub param_sectiontspkt : ℕ
param_sectiontspkt = 0x0002

abbrev pub param_datachannelid : ℕ
param_datachannelid = 0x0003

abbrev pub param_datastreamid : ℕ
param_datastreamid = 0x0004

abbrev pub param_datagram : ℕ
param_datagram = 0x0005

abbrev pub param_bandwidth : ℕ
param_bandwidth = 0x0006

abbrev pub param_datatype : ℕ
param_datatype = 0x0007

abbrev pub param_dataid : ℕ
param_dataid = 0x0008

abbrev pub param_errorstatus : ℕ
param_errorstatus = 0x7000

abbrev pub param_errorinfo : ℕ
param_errorinfo = 0x7001

unfoldable pub init : Bytes → Bytes
unfolding Sim.empty
init p = Sim.empty p

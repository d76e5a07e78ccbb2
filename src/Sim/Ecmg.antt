-- ===== src/Sim/Ecmg.antt =====
-- dvb/sim.h: the messages between a SCS and an ECMG, their parameters, and the check of a message.
pub mod Params
pub mod Rules
use bitstream.Base.{
  ℕ, zero, suc, ◌+◌, ◌-◌, ◌*◌, ◌/◌, ◌%◌, ◌^◌, ◌≤◌, ◌<◌, bit_and, bit_or, bit_xor, ◌≡◌, refl, sym,
  ap, ap₂, subst, ◌∙◌, fun_ext, ◌≢◌, ◌↔◌, ◌⊎◌, inl, inr, Bool, true, false, not, ◌&&◌, ◌||◌, Option,
  none, some, List, [], ◌∷◌, ◌++◌, arith, ltb, leb, ◌==◌, ◌!=◌, if◌then◌else◌, ==_iff, Bool-cases,
  Option-cases, flag, &&_parts, all_below, all_below_at, u8, u16, u32, ◌<<◌, ◌>>◌, Bytes, IsBytes,
  put, memset, memcpy, at, put_at, length, get_or, length-append, get_elem?, put-IsBytes,
  memcpy-IsBytes,
}
use bitstream.Sim
use bitstream.Sim.Append

-- message types
abbrev pub type_channel_setup : ℕ
type_channel_setup = 0x1

abbrev pub type_channel_test : ℕ
type_channel_test = 0x2

abbrev pub type_channel_status : ℕ
type_channel_status = 0x3

abbrev pub type_channel_close : ℕ
type_channel_close = 0x4

abbrev pub type_channel_error : ℕ
type_channel_error = 0x5

abbrev pub type_stream_setup : ℕ
type_stream_setup = 0x101

abbrev pub type_stream_test : ℕ
type_stream_test = 0x102

abbrev pub type_stream_status : ℕ
type_stream_status = 0x103

abbrev pub type_stream_closereq : ℕ
type_stream_closereq = 0x104

abbrev pub type_stream_closeresp : ℕ
type_stream_closeresp = 0x105

abbrev pub type_stream_error : ℕ
type_stream_error = 0x106

abbrev pub type_cw : ℕ
type_cw = 0x201

abbrev pub type_ecm : ℕ
type_ecm = 0x202

-- parameter types
abbrev pub param_supercasid : ℕ
param_supercasid = 0x1

abbrev pub param_sectiontspkt : ℕ
param_sectiontspkt = 0x2

abbrev pub param_delaystart : ℕ
param_delaystart = 0x3

abbrev pub param_delaystop : ℕ
param_delaystop = 0x4

abbrev pub param_transdelaystart : ℕ
param_transdelaystart = 0x5

abbrev pub param_transdelaystop : ℕ
param_transdelaystop = 0x6

abbrev pub param_repperiod : ℕ
param_repperiod = 0x7

abbrev pub param_maxstreams : ℕ
param_maxstreams = 0x8

abbrev pub param_mincpdur : ℕ
param_mincpdur = 0x9

abbrev pub param_leadcw : ℕ
param_leadcw = 0xa

abbrev pub param_cwpermsg : ℕ
param_cwpermsg = 0xb

abbrev pub param_maxcomptime : ℕ
param_maxcomptime = 0xc

abbrev pub param_accesscrit : ℕ
param_accesscrit = 0xd

abbrev pub param_channelid : ℕ
param_channelid = 0xe

abbrev pub param_streamid : ℕ
param_streamid = 0xf

abbrev pub param_nomcpdur : ℕ
param_nomcpdur = 0x10

abbrev pub param_accesscritmode : ℕ
param_accesscritmode = 0x11

abbrev pub param_cpnumber : ℕ
param_cpnumber = 0x12

abbrev pub param_cpdur : ℕ
param_cpdur = 0x13

abbrev pub param_cpcwcomb : ℕ
param_cpcwcomb = 0x14

abbrev pub param_ecm : ℕ
param_ecm = 0x15

abbrev pub param_acdelaystart : ℕ
param_acdelaystart = 0x16

abbrev pub param_acdelaystop : ℕ
param_acdelaystop = 0x17

abbrev pub param_cwencrypt : ℕ
param_cwencrypt = 0x18

abbrev pub param_ecmid : ℕ
param_ecmid = 0x19

abbrev pub param_errorstatus : ℕ
param_errorstatus = 0x7000

abbrev pub param_errorinfo : ℕ
param_errorinfo = 0x7001

unfoldable pub init : Bytes → Bytes
unfolding Sim.empty
init p = Sim.empty p

unfoldable pub cw_set_cpnum : Bytes → ℕ → Bytes
cw_set_cpnum p cpnum = put (put p 0 (cpnum >> 8)) 1 (bit_and cpnum 0xff)

unfoldable pub cw_get_cpnum : Bytes → ℕ
cw_get_cpnum p = bit_or (p 0 << 8) (p 1)

unfoldable pub cw_get_cw : Bytes → Bytes
cw_get_cw p = at p 2

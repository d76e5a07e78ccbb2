-- ===== src/Srt/Constants.antt =====
-- haivision/srt.h: the constants of packets and handshakes.
use bitstream.Base.{ℕ}

abbrev pub magic_code : ℕ
magic_code = 0x4a17

abbrev pub header_size : ℕ
header_size = 16

abbrev pub data_position_middle : ℕ
data_position_middle = 0x0

abbrev pub data_position_last : ℕ
data_position_last = 0x1

abbrev pub data_position_first : ℕ
data_position_first = 0x2

abbrev pub data_position_only : ℕ
data_position_only = 0x3

abbrev pub data_encryption_clear : ℕ
data_encryption_clear = 0x0

abbrev pub data_encryption_even : ℕ
data_encryption_even = 0x1

abbrev pub data_encryption_odd : ℕ
data_encryption_odd = 0x2

abbrev pub data_encryption_control : ℕ
data_encryption_control = 0x3

abbrev pub control_type_handshake : ℕ
control_type_handshake = 0x0

abbrev pub control_type_keepalive : ℕ
control_type_keepalive = 0x1

abbrev pub control_type_ack : ℕ
control_type_ack = 0x2

abbrev pub control_type_nak : ℕ
control_type_nak = 0x3

abbrev pub control_type_shutdown : ℕ
control_type_shutdown = 0x5

abbrev pub control_type_ackack : ℕ
control_type_ackack = 0x6

abbrev pub control_type_dropreq : ℕ
control_type_dropreq = 0x7

abbrev pub control_type_peererror : ℕ
control_type_peererror = 0x8

abbrev pub control_type_user : ℕ
control_type_user = 0x7fff

abbrev pub handshake_version_min : ℕ
handshake_version_min = 4

abbrev pub handshake_version : ℕ
handshake_version = 5

abbrev pub handshake_cif_size : ℕ
handshake_cif_size = 48

abbrev pub handshake_cif_extension_min_size : ℕ
handshake_cif_extension_min_size = 4

abbrev pub handshake_cipher_none : ℕ
handshake_cipher_none = 0

abbrev pub handshake_cipher_aes_128 : ℕ
handshake_cipher_aes_128 = 2

abbrev pub handshake_cipher_aes_192 : ℕ
handshake_cipher_aes_192 = 3

abbrev pub handshake_cipher_aes_256 : ℕ
handshake_cipher_aes_256 = 4

abbrev pub handshake_type_done : ℕ
handshake_type_done = 0xfffffffd

abbrev pub handshake_type_agreement : ℕ
handshake_type_agreement = 0xfffffffe

abbrev pub handshake_type_conclusion : ℕ
handshake_type_conclusion = 0xffffffff

abbrev pub handshake_type_wavehand : ℕ
handshake_type_wavehand = 0

abbrev pub handshake_type_induction : ℕ
handshake_type_induction = 1

abbrev pub handshake_type_rej_unknown : ℕ
handshake_type_rej_unknown = 1000

abbrev pub handshake_type_rej_system : ℕ
handshake_type_rej_system = 1001

abbrev pub handshake_type_rej_peer : ℕ
handshake_type_rej_peer = 1002

abbrev pub handshake_type_rej_resource : ℕ
handshake_type_rej_resource = 1003

abbrev pub handshake_type_rej_rogue : ℕ
handshake_type_rej_rogue = 1004

abbrev pub handshake_type_rej_backlog : ℕ
handshake_type_rej_backlog = 1005

abbrev pub handshake_type_rej_ipe : ℕ
handshake_type_rej_ipe = 1006

abbrev pub handshake_type_rej_close : ℕ
handshake_type_rej_close = 1007

abbrev pub handshake_type_rej_version : ℕ
handshake_type_rej_version = 1008

abbrev pub handshake_type_rej_rdvcookie : ℕ
handshake_type_rej_rdvcookie = 1009

abbrev pub handshake_type_rej_badsecret : ℕ
handshake_type_rej_badsecret = 1010

abbrev pub handshake_type_rej_unsecure : ℕ
handshake_type_rej_unsecure = 1011

abbrev pub handshake_type_rej_messageapi : ℕ
handshake_type_rej_messageapi = 1012

abbrev pub handshake_type_rej_congestion : ℕ
handshake_type_rej_congestion = 1013

abbrev pub handshake_type_rej_filter : ℕ
handshake_type_rej_filter = 1014

abbrev pub handshake_type_rej_group : ℕ
handshake_type_rej_group = 1015

abbrev pub handshake_ext_hsreq : ℕ
handshake_ext_hsreq = 1

abbrev pub handshake_ext_kmreq : ℕ
handshake_ext_kmreq = 2

abbrev pub handshake_ext_config : ℕ
handshake_ext_config = 4

abbrev pub handshake_ext_type_hsreq : ℕ
handshake_ext_type_hsreq = 1

abbrev pub handshake_ext_type_hsrsp : ℕ
handshake_ext_type_hsrsp = 2

abbrev pub handshake_ext_type_kmreq : ℕ
handshake_ext_type_kmreq = 3

abbrev pub handshake_ext_type_kmrsp : ℕ
handshake_ext_type_kmrsp = 4

abbrev pub handshake_ext_type_sid : ℕ
handshake_ext_type_sid = 5

abbrev pub handshake_ext_type_congestion : ℕ
handshake_ext_type_congestion = 6

abbrev pub handshake_ext_type_filter : ℕ
handshake_ext_type_filter = 7

abbrev pub handshake_ext_type_group : ℕ
handshake_ext_type_group = 8

abbrev pub handshake_ext_flag_tsbpdsnd : ℕ
handshake_ext_flag_tsbpdsnd = 1

abbrev pub handshake_ext_flag_tsbpdrcv : ℕ
handshake_ext_flag_tsbpdrcv = 2

abbrev pub handshake_ext_flag_crypt : ℕ
handshake_ext_flag_crypt = 4

abbrev pub handshake_ext_flag_tlpktdrop : ℕ
handshake_ext_flag_tlpktdrop = 8

abbrev pub handshake_ext_flag_periodicnak : ℕ
handshake_ext_flag_periodicnak = 16

abbrev pub handshake_ext_flag_rexmitflg : ℕ
handshake_ext_flag_rexmitflg = 32

abbrev pub handshake_ext_flag_stream : ℕ
handshake_ext_flag_stream = 64

abbrev pub handshake_ext_flag_packet_filter : ℕ
handshake_ext_flag_packet_filter = 128

abbrev pub handshake_hsreq_size : ℕ
handshake_hsreq_size = 12

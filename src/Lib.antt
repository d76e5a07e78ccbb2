-- ===== src/Lib.antt =====
-- Models and theorems of biTStream, a library of C headers for broadcast formats: mostly inline
-- functions that read and write packed bit fields in byte buffers.
--
-- A buffer is a function from offsets to bytes (Base/Memory), and a pointer into it is an offset. What
-- a function writes through its pointer is the buffer it returns. `IsBytes` says that every value is
-- below 256. A fixed-width result keeps its wrap-around (Base/Word), and a Boolean test of a masked
-- byte is `flag` (Base/Tests). Base/Bits has the laws of the bit operators on ℕ, and the ruleset
-- `masks` turns a mask into arithmetic.
--
-- - Ts.antt is mpeg/ts.h. A name of the model is the C name without `ts_` or `tsaf_`.
-- - Pes.antt is mpeg/pes.h (`pes_`): stream headers and time stamps.
-- - Psi.antt is mpeg/psi/psi.h (`psi_`): the header of a section. Psi/Crc.antt is its checksum and
--   Psi/Assemble.antt the gathering of a section from packets; NULL buffers are `none`, and what the
--   allocator returns is a parameter, since its content is not known. `malloc` is taken to succeed, as
--   in the source, which does not test it.
-- - Descs.antt is mpeg/psi/descriptors.h: lists of descriptors, which sections carry. NULL is `none`.
--
-- - Psi/Table.antt is the tables of sections (`psi_table_`). A slot owns its section, and a section
--   that is handed over is in no slot before.
-- - Psi/Split.antt is `psi_split_section`, with the packet and both offsets as its state.
-- - Psi/Relay.antt puts both together: a sender that splits a section into packets of its own, and a
--   receiver that assembles it from the payload of each, as ts.h finds it.
-- - Pat.antt, Pat/Find.antt and Pat/Whole.antt are mpeg/psi/pat.h, Pmt.antt is mpeg/psi/pmt.h. Entries
--   of a table are named by their offset in the section; `patn_` and `pmtn_` functions start at the
--   entry.
-- - Cat.antt is mpeg/psi/cat.h and mpeg/psi/tsdt.h, which share their bodies.
-- - Id3/ is id3/id3v2.h (`id3v2_`): Id3/Frame.antt has the names with `id3v2_frame_`,
--   Id3/Unsync.antt writes one frame with and without unsynchronisation, Id3/Whole.antt a whole tag,
--   and Id3/Walk.antt validates a tag, with the valid bytes in Id3/Walk/Rules.antt.
--   A frame is named by its offset in the tag. A tag without frames makes
--   `id3v2_unsynchronise` subtract a NULL pointer: there the address of the tag is a parameter.
-- - Common/Escape.antt and Common/BitField.antt are common.h. A C string is the list of the bytes in
--   front of its NUL; `malloc` is taken to succeed. Common/Escape/Written.antt has
--   the characters of XML and their entities as tables of numbers.
-- - Dvb/Numbers.antt is dvb/si/numbers.h and Dvb/DateTime.antt is dvb/si/datetime.h (`dvb_`). Dates
--   start with 1 March 1900, from where no difference of the formulas is negative. `timegm` and
--   `gmtime_r` are parameters.
-- - Sim.antt is dvb/sim.h: Sim/Append.antt has the functions that append and read parameters,
--   Sim/Ecmg.antt and Sim/Emmg.antt the two kinds of messages, Sim/Check.antt what their validation
--   shares, Sim/Tables.antt their rules as tables of numbers, apart from the
--   constants of the source. The macro TLV_DECLARE_PARAM is a pair of functions on the size of the
--   number.
-- - Dvb/S2.antt is dvb/s2.h (`s2bbframes_`, `s2bbcrc_`, `s2bbh_`) and Smpte.antt is smpte/291.h (`s291_`).
-- - Srt.antt is haivision/srt.h (`srt_`): Srt/Handshake.antt, Srt/Km.antt and Srt/Reports.antt are its
--   parts. A socket address is its family with the words that `memcpy` reads from it, in the order of
--   the host.
-- - Net/ is the packet headers of ietf/: udp.h, ip.h, rtp.h, rtcp.h and rtcp_sr.h.
--
-- The loops of Pmt.antt run on one round more than the section has bytes, since an entry has 5 bytes
-- at least. Those of `pat_table_find_program` and `pat_table_validate` run on 257 rounds, one more than
-- their 8-bit counters have values; where the source's loop does not end, the model runs out of fuel
-- and says so.
--
-- The loops over the frames of a tag run on more rounds than the tag has bytes, and a frame has ten
-- bytes at least. The loop that undoes unsynchronisation has a round for each byte of the frame, and a
-- round passes one or two of them.
--
-- The loops of common.h take a byte or a bit in each round, and run as often as there are such. Those of
-- `dvb_bcd_set` run 32 times and five times: a number of 32 bits is halved to 0, or divided by 100 to
-- less than 10, in that many rounds.
--
-- A parameter of a Simulcrypt message has four bytes at least, so the loops over them run on one round
-- more than the message has bytes. The search in them has an 8-bit counter: every 256 rounds find one
-- parameter of the type or never will, and fewer than 2 ^ 16 are asked for, so 2 ^ 24 rounds are enough.
--
-- An extension of a handshake has four bytes at least, so its loop runs on one round more than the
-- message has bytes.
--
-- The loop of `descl_validate` runs on fuel; each round advances by two bytes or more, so one round
-- more than the list has bytes is enough. The other loops are structural.
--
-- Not modelled: printing, and the formats that are built on these headers and not named here.
pub mod Base
pub mod Common
pub mod Ts
pub mod Psi
pub mod Sim
pub mod Pes
pub mod Descs
pub mod Net
pub mod Cat
pub mod Pat
pub mod Pmt
pub mod Id3
pub mod Dvb
pub mod Srt
pub mod Smpte

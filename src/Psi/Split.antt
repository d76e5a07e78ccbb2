-- ===== src/Psi/Split.antt =====
-- mpeg/psi/psi.h: cutting a section into the payloads of packets.
pub mod Chunk
pub mod Sent
use bitstream.Base.{
  ℕ, ◌+◌, ◌-◌, ◌%◌, ◌^◌, Bool, Bytes, put, memset, memcpy, at, put_at, u8, u16, ltb, not, ◌==◌,
  ◌!=◌, if◌then◌else◌,
}
use bitstream.Ts
use bitstream.Psi.{header_size, get_length}

-- The packet, `*pi_ts_offset` and `*pi_section_offset` after a call.
pub record Split : Type 0 where
  pub packet : Bytes
  pub ts_offset : ℕ
  pub section_offset : ℕ

-- The packet and `*pi_ts_offset`.
unfoldable pub split_end : Bytes → ℕ → Bytes × ℕ
split_end ts offset =
    if offset != Ts.size then (memset ts offset 0xff (Ts.size - offset), Ts.size) else (ts, offset)

-- `if (!*pi_ts_offset)`: a new packet.
unfoldable pub split_init : Bytes → ℕ → Bytes × ℕ
split_init ts offset =
    let ts1 = Ts.set_payload (Ts.init ts) in
    if offset == 0 then (ts1, u8 (Ts.payload ts1)) else (ts, offset)

-- `if (!ts_get_unitstart(p_ts))`: the pointer field in front of what the payload holds.
unfoldable pub split_pointer : Bytes → ℕ → Bytes × ℕ
split_pointer ts offset =
    let start = Ts.payload ts in
    let length = u8 (offset + 2 ^ 8 - start) in
    let moved = if length != 0 then memcpy ts (start + 1) ts start length else ts in
    if not (Ts.get_unitstart ts)
    then (Ts.set_unitstart (put moved start length), u8 (offset + 1))
    else (ts, offset)

-- The part behind the tests: `section_length` bytes of the section are left.
unfoldable pub split_copy : Bytes × ℕ → Bytes → ℕ → ℕ → Split
split_copy (ts, offset) section section_offset section_length =
    let ts_length = u8 (Ts.size + 2 ^ 8 - offset) in
    let copy = u8 (if ltb ts_length section_length then ts_length else section_length) in
    record {
      packet = memcpy ts offset section section_offset copy;
      ts_offset = u8 (offset + copy);
      section_offset = u16 (section_offset + copy);
    }

unfoldable pub split_section : Bytes → ℕ → Bytes → ℕ → Split
unfolding split_end split_init split_pointer split_copy
split_section ts ts_offset section section_offset =
    let section_length = u16 (get_length section + header_size + 2 ^ 16 - section_offset) in
    let (ts1, offset1) = split_init ts ts_offset in
    let ended = split_end ts1 offset1 in
    if section_offset == 0
    then (if ltb Ts.size (offset1 + 2)
        then record { packet = ended.0; ts_offset = ended.1; section_offset = 0 }
        else split_copy (split_pointer ts1 offset1) section section_offset section_length)
    else split_copy (ts1, offset1) section section_offset section_length

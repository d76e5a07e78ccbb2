-- ===== src/Psi/Assemble.antt =====
-- mpeg/psi/psi.h: gathering a section from the payloads of consecutive packets.
pub mod Step
pub mod Chunks
use bitstream.Base.{
  ℕ, ◌+◌, ◌-◌, ◌^◌, Bool, true, false, Option, none, some, Bytes, memcpy, not, u8, u16, ltb, leb,
  ◌==◌, if◌then◌else◌,
}
use bitstream.Psi.{header_size, private_max_size, get_length}

-- `*pp_psi_buffer`, NULL or the bytes of an allocation, and `*pi_psi_buffer_used`.
pub record Assembly : Type 0 where
  pub buffer : Option Bytes
  pub used : ℕ

-- What a call leaves: the assembly, how far `*pp_payload` moves, `*pi_length`, and the section
-- that it returns, or NULL.
pub record Fed : Type 0 where
  pub assembly : Assembly
  pub advance : ℕ
  pub length : ℕ
  pub section : Option Bytes

abbrev pub assemble_init : Assembly
assemble_init = record { buffer = none; used = 0 }

-- `free` takes the buffer, whatever it is.
unfoldable pub assemble_reset : Assembly → Assembly
assemble_reset s = assemble_init

unfoldable pub assemble_empty : Assembly → Bool
assemble_empty s = elim (s.buffer) [ none ↦ true | some b ↦ false ]

unfoldable pub remaining_size : ℕ → ℕ
remaining_size used = u16 (private_max_size + header_size + 2 ^ 16 - used)

unfoldable pub copy_size : ℕ → ℕ → ℕ
unfolding remaining_size
copy_size used length = if ltb length (remaining_size used) then length else remaining_size used

-- A section of `section_size` bytes is there; what was copied beyond it is given back.
unfoldable pub section_done : Bytes → ℕ → ℕ → ℕ → ℕ → Fed
section_done b section_size used copied length =
    let taken = u16 (copied + 2 ^ 16 - (used - section_size)) in
    record {
      assembly = assemble_init;
      advance = taken;
      length = u8 (length + 2 ^ 16 - taken);
      section = some b;
    }

-- The part behind the `memcpy`: `b` and `used` are the buffer after it.
unfoldable pub assemble_tail : Bytes → ℕ → ℕ → ℕ → Fed
unfolding assemble_reset section_done
assemble_tail b used copied length =
    let section_size = u16 (get_length b + header_size) in
    let kept : Assembly = record { buffer = some b; used = used } in
    let more : Fed = record {
      assembly = kept;
      advance = copied;
      length = u8 (length + 2 ^ 8 - copied);
      section = none;
    } in
    if not (leb header_size used)
    then more
    else if ltb private_max_size section_size
    then record { assembly = assemble_reset kept; advance = 0; length = 0; section = none }
    else if leb section_size used
    then section_done b section_size used copied length
    else more

-- `fresh` is what the allocated memory happens to hold.
unfoldable pub assemble_into : Bytes → ℕ → Bytes → ℕ → Fed
unfolding copy_size assemble_tail
assemble_into b used payload length =
    let copied = copy_size used length in
    assemble_tail (memcpy b used payload 0 copied) (u16 (used + copied)) copied length

unfoldable pub assemble_payload : Bytes → Assembly → Bytes → ℕ → Fed
assemble_payload fresh s payload length = elim (s.buffer) [
  | none ↦
      if payload 0 == 0xff
      then record { assembly = s; advance = 0; length = 0; section = none }
      else assemble_into fresh s.used payload length
  | some b ↦ assemble_into b s.used payload length
]

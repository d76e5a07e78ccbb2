-- ===== src/Pmt/Stream.antt =====
-- The entry of a stream as one record, read by the getters of mpeg/psi/pmt.h.
use bitstream.Base.{ℕ, ◌<◌, ◌≡◌, refl, Bytes, IsBytes, ◌^◌}
use bitstream.Base.Bits.{masks, bit_or_disjoint}
use bitstream.Pmt

pub record Stream : Type 0 where
  pub streamtype : ℕ
  pub pid : ℕ
  pub desclength : ℕ

unfoldable pub stream : Bytes → Stream
unfolding Pmt.get_es_streamtype Pmt.get_es_pid Pmt.get_es_desclength
stream p = record {
  streamtype = Pmt.get_es_streamtype p;
  pid = Pmt.get_es_pid p;
  desclength = Pmt.get_es_desclength p;
}

pub Stream_ext :
    {a b : Stream}
    → a.streamtype ≡ b.streamtype
    → a.pid ≡ b.pid
    → a.desclength ≡ b.desclength
    → a ≡ b
Stream_ext e0 e1 e2 = λ i. record { streamtype = e0 i; pid = e1 i; desclength = e2 i }

pub set_es_streamtype-stream :
    (p : Bytes) (type : ℕ)
    → IsBytes p
    → type < 256
    → stream (Pmt.set_es_streamtype p type) ≡ record (stream p) { streamtype = type }
unfolding stream Pmt.set_es_streamtype
set_es_streamtype-stream p type h b = Stream_ext (omega (masks, h)) refl refl

pub set_es_pid-stream :
    (p : Bytes) (pid : ℕ)
    → IsBytes p
    → pid < 2 ^ 13
    → stream (Pmt.set_es_pid p pid) ≡ record (stream p) { pid = pid }
unfolding stream Pmt.set_es_pid
set_es_pid-stream p pid h b =
    Stream_ext refl (omega (masks, bit_or_disjoint 5, bit_or_disjoint 8, h)) refl

pub set_es_desclength-stream :
    (p : Bytes) (length : ℕ)
    → IsBytes p
    → length < 2 ^ 12
    → stream (Pmt.set_es_desclength p length) ≡ record (stream p) { desclength = length }
unfolding stream Pmt.set_es_desclength
set_es_desclength-stream p length h b =
    Stream_ext refl refl (omega (masks, bit_or_disjoint 4, bit_or_disjoint 8, h))

-- What the setters are to do to one object, as equations on its fields.
pub record StreamLaws (p : Bytes) (type : ℕ) (pid : ℕ) (length : ℕ) : Type 0 where
  pub set_es_streamtype :
      stream (Pmt.set_es_streamtype p type) ≡ record (stream p) { streamtype = type }
  pub set_es_pid : stream (Pmt.set_es_pid p pid) ≡ record (stream p) { pid = pid }
  pub set_es_desclength :
      stream (Pmt.set_es_desclength p length) ≡ record (stream p) { desclength = length }

-- In any entry each setter, with a value that fits its field, changes that field and no other.
pub stream_setters :
    (p : Bytes) (type : ℕ) (pid : ℕ) (length : ℕ)
    → IsBytes p
    → type < 256
    → pid < 2 ^ 13
    → length < 2 ^ 12
    → StreamLaws p type pid length
stream_setters p type pid length h b0 b1 b2 = record {
  set_es_streamtype = set_es_streamtype-stream p type h b0;
  set_es_pid = set_es_pid-stream p pid h b1;
  set_es_desclength = set_es_desclength-stream p length h b2;
}

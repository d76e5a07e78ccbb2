-- ===== src/Pat/Entry.antt =====
-- An entry of the table as one record, read by the getters of mpeg/psi/pat.h.
use bitstream.Base.{ℕ, ◌<◌, ◌≡◌, refl, Bytes, IsBytes, ◌^◌}
use bitstream.Base.Bits.{masks, bit_or_disjoint}
use bitstream.Pat

pub record Entry : Type 0 where
  pub number : ℕ
  pub pid : ℕ

unfoldable pub entry : Bytes → Entry
unfolding Pat.get_number Pat.get_pid
entry p = record { number = Pat.get_number p; pid = Pat.get_pid p }

pub Entry_ext : {a b : Entry} → a.number ≡ b.number → a.pid ≡ b.pid → a ≡ b
Entry_ext e0 e1 = λ i. record { number = e0 i; pid = e1 i }

pub set_number-entry :
    (p : Bytes) (program : ℕ)
    → IsBytes p
    → program < 2 ^ 16
    → entry (Pat.set_number p program) ≡ record (entry p) { number = program }
unfolding entry Pat.set_number
set_number-entry p program h b = Entry_ext (omega (masks, bit_or_disjoint 8, h)) refl

pub set_pid-entry :
    (p : Bytes) (pid : ℕ)
    → IsBytes p
    → pid < 2 ^ 13
    → entry (Pat.set_pid p pid) ≡ record (entry p) { pid = pid }
unfolding entry Pat.set_pid
set_pid-entry p pid h b = Entry_ext refl (omega (masks, bit_or_disjoint 5, bit_or_disjoint 8, h))

-- What the setters are to do to one object, as equations on its fields.
pub record EntryLaws (p : Bytes) (program : ℕ) (pid : ℕ) : Type 0 where
  pub set_number : entry (Pat.set_number p program) ≡ record (entry p) { number = program }
  pub set_pid : entry (Pat.set_pid p pid) ≡ record (entry p) { pid = pid }

-- In any entry each setter, with a value that fits its field, changes that field and not the other.
pub entry_setters :
    (p : Bytes) (program : ℕ) (pid : ℕ)
    → IsBytes p
    → program < 2 ^ 16
    → pid < 2 ^ 13
    → EntryLaws p program pid
entry_setters p program pid h b0 b1 = record {
  set_number = set_number-entry p program h b0;
  set_pid = set_pid-entry p pid h b1;
}

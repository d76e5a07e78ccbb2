-- ===== src/Cat/Validate.antt =====
-- The sections that the two validations accept.
use bitstream.Base.{sym, subst, ℕ, ◌-◌, ◌≤◌, ◌≡◌, ◌↔◌, true, Bytes, IsBytes, at, arith}
use bitstream.Psi
use bitstream.Psi.Crc.RoundTrip.{get_length-lt}
use bitstream.Descs
use bitstream.Descs.Tiles.{Tiles, descl_validate_iff}
use bitstream.Cat

-- A section of the table `id` that descriptors fill up to the checksum.
pub record IsTable (id : ℕ) (p : Bytes) : Type 0 where
  pub syntax : Psi.get_syntax p ≡ true
  pub only_section : (Psi.get_section p ≡ 0) × (Psi.get_lastsection p ≡ 0)
  pub table : Psi.get_tableid p ≡ id
  pub long_enough : 9 ≤ Psi.get_length p
  pub descriptors : Tiles (at p 8) (Psi.get_length p - 9) 0

desclength_lem :
    (p : Bytes) → IsBytes p → 9 ≤ Psi.get_length p → Cat.get_desclength p ≡ Psi.get_length p - 9
unfolding Cat.get_desclength
desclength_lem p b h = omega (arith, get_length-lt p b)

accepts :
    (id : ℕ) (p : Bytes)
    → IsBytes p
    → 1 ≤ Psi.get_length p
    → (Cat.validate_as id p ≡ true) ↔ (
        (Psi.get_syntax p ≡ true)
        × (Psi.get_section p ≡ 0)
        × (Psi.get_lastsection p ≡ 0)
        × (Psi.get_tableid p ≡ id)
        × (9 ≤ Psi.get_length p)
        × (Descs.descl_validate (at p 8) (Cat.get_desclength p) ≡ true))
unfolding Cat.validate_as Cat.get_descl
accepts id p b h = (
  λ e. (
    ground (arith, e),
    ground (arith, e),
    ground (arith, e),
    ground (arith, e),
    ground (arith, e, get_length-lt p b),
    ground (arith, e),
  ),
  λ (syntax, section, last, table, long, descs). ground (
    arith,
    syntax,
    section,
    last,
    table,
    long,
    descs,
    get_length-lt p b,
    desclength_lem p b long,
  ),
)

validate_as_iff :
    (id : ℕ) (p : Bytes)
    → IsBytes p
    → 1 ≤ Psi.get_length p
    → (Cat.validate_as id p ≡ true) ↔ IsTable id p
validate_as_iff id p b h = (
  λ e.
      let (syntax, section, last, table, long, descs) = (accepts id p b h).0 e in
      record {
        syntax = syntax;
        only_section = (section, last);
        table = table;
        long_enough = long;
        descriptors =
            subst (λ n. Tiles (at p 8) n 0) (desclength_lem p b long)
              ((descl_validate_iff (at p 8) (Cat.get_desclength p)).0 descs);
      },
  λ m. (accepts id p b h).1 (
    m.syntax,
    m.only_section.0,
    m.only_section.1,
    m.table,
    m.long_enough,
    (descl_validate_iff (at p 8) (Cat.get_desclength p)).1 (
        subst (λ n. Tiles (at p 8) n 0) (sym (desclength_lem p b (m.long_enough))) (m.descriptors)),
  ),
)

-- Of the sections whose length field is not 0, `cat_validate` and `tsdt_validate` accept exactly
-- those with the syntax bit, of their table, numbered 0 of 0, that have room for the header and the
-- checksum and whose descriptors fill the rest.
pub validate-IsTable :
    (p : Bytes)
    → IsBytes p
    → 1 ≤ Psi.get_length p
    → ((Cat.validate p ≡ true) ↔ IsTable 1 p) × ((Cat.tsdt_validate p ≡ true) ↔ IsTable 3 p)
unfolding Cat.validate Cat.tsdt_validate
validate-IsTable p b h = (validate_as_iff 1 p b h, validate_as_iff 3 p b h)

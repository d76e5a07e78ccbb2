-- ===== src/Sim/Append/Fill.antt =====
-- Each append function puts its parameter behind the others of a message under construction.
use bitstream.Base.{
  ℕ, ◌+◌, ◌-◌, ◌≤◌, ◌<◌, bit_or, ◌≡◌, refl, ap, ap₂, subst, ◌∙◌, fun_ext, ◌≢◌, true, false, some,
  List, [], ◌∷◌, ◌++◌, arith, leb, ◌<<◌, Bytes, at, put_at,
}
use bitstream.Sim
use bitstream.Sim.Append
use bitstream.Sim.Append.Grow.{
  type_congr, length_congr, IsLaid-congr, IsLaid-snoc, AllNamed-snoc, set_type_lem, set_length_lem,
}
use bitstream.Sim.Append.Open.{IsOpen}
use bitstream.Sim.Layout.{Param, IsLaid, IsLaid-le, param_at, slice, slice_congr}

at-put_at : (p : Bytes) (k : ℕ) (q : Bytes) → at (put_at p k q) k ≡ q
at-put_at p k q = fun_ext λ j. put_back j
  where
    sub_back : (j : ℕ) → k + j - k ≡ j
    sub_back j = omega arith

    put_back : (j : ℕ) → put_at p k q (k + j) ≡ q j
    put_back j = ground (arith, ap q (sub_back j))

at-put_at_behind : (p : Bytes) (k m : ℕ) (q : Bytes) → at (put_at p k q) (k + m) ≡ at q m
at-put_at_behind p k m q = fun_ext λ j. put_back j
  where
    sub_back : (j : ℕ) → k + m + j - k ≡ m + j
    sub_back j = omega arith

    put_back : (j : ℕ) → put_at p k q (k + m + j) ≡ q (m + j)
    put_back j = ground (arith, ap q (sub_back j))

put_at-put_at : (p : Bytes) (k : ℕ) (q r : Bytes) → put_at (put_at p k q) k r ≡ put_at p k r
put_at-put_at p k q r = fun_ext λ j. ground arith

-- Writing behind the header, at no other place than `fill` gives content to.
module _ (fill : Bytes → Bytes) (content : Bytes) (n type : ℕ) where
  pub record Fills : Type 0 where
    pub kept : (q : Bytes) (i : ℕ) → i < 4 → fill q i ≡ q i
    pub filled : (q : Bytes) (i : ℕ) → i < n → fill q (4 + i) ≡ content i

  -- The new parameter.
  abbrev written : Bytes → Bytes
  written q = fill (Sim.set_length (Sim.set_type q type) n)

  write_param_lem :
      (p : Bytes) (o : ℕ) → Append.write_param p o type n fill ≡ put_at p o (written (at p o))
  unfolding Append.write_param
  write_param_lem p o =
      let t = Sim.set_type (at p o) type in
      let l = Sim.set_length t n in
      rw (at-put_at p o t, put_at-put_at p o t l, at-put_at p o l, put_at-put_at p o l (fill l))
        refl

  module _ (fills : Fills) (small : n < 65536) (q : Bytes) where
    written_length : Sim.get_length (written q) ≡ n
    written_length =
        length_congr (Sim.set_length (Sim.set_type q type) n) (written q)
          (fills.kept _ 2 (omega arith)) (fills.kept _ 3 (omega arith))
        ∙ set_length_lem (Sim.set_type q type) n small

    written_type : type < 65536 → Sim.get_type (written q) ≡ type
    written_type h =
        type_congr (Sim.set_type q type) (written q)
          (fills.kept _ 0 (omega arith) ∙ keeps 0 (omega arith))
          (fills.kept _ 1 (omega arith) ∙ keeps 1 (omega arith))
        ∙ set_type_lem q type h
      where
        keeps : (i : ℕ) → i < 2 → Sim.set_length (Sim.set_type q type) n i ≡ Sim.set_type q type i
        keeps i k = unfold Sim.set_length in ground arith

    -- With the empty parameter behind it.
    abbrev ended : Bytes
    ended = Sim.append_empty (written q)

    ended_kept : (i : ℕ) → i < 4 + n → ended i ≡ written q i
    unfolding Sim.append_empty
    ended_kept i h = ground (arith, written_length)

    ended_marked : Sim.get_type (at ended (4 + n)) ≡ 0
    unfolding Sim.append_empty Sim.get_type
    ended_marked =
        let first : ended (4 + n + 0) ≡ 0 = ground (arith, written_length) in
        let second : ended (4 + n + 1) ≡ 0 = ground (arith, written_length) in
        ap₂ (λ (x y : ℕ). bit_or (x << 8) y) first second

    length-ended : (p : Bytes) (o : ℕ) → Sim.get_length (at (put_at p o ended) o) ≡ n
    length-ended p o =
        ap Sim.get_length (at-put_at p o ended)
        ∙ length_congr (written q) ended (ended_kept 2 (omega arith)) (ended_kept 3 (omega arith))
        ∙ written_length

    param_at-ended :
        (p : Bytes) (o : ℕ)
        → type < 65536
        → param_at (put_at p o ended) o ≡ record { type = type; content = slice content 0 n }
    param_at-ended p o h =
        let place = at-put_at p o ended in
        let type' =
          ap Sim.get_type place
          ∙ type_congr (written q) ended (ended_kept 0 (omega arith)) (ended_kept 1 (omega arith))
          ∙ written_type h in
        ap₂ (λ (x : ℕ) (xs : List ℕ). record { type = x; content = xs }) type'
          (ap (slice (put_at p o ended) (o + 4)) (length-ended p o)
            ∙ slice_congr (put_at p o ended) content (o + 4) 0 n (λ i k. inner i k))
      where
        inner : (i : ℕ) → i < n → put_at p o ended (o + 4 + i) ≡ content (0 + i)
        inner i k =
            ap (put_at p o ended) (omega arith)
            ∙ ap (λ (f : Bytes). f (4 + i)) (at-put_at p o ended)
            ∙ ended_kept (4 + i) (omega arith)
            ∙ fills.filled _ i k
            ∙ ap content (omega arith)

  -- What the message becomes.
  abbrev grown : Bytes → ℕ → Bytes
  grown p e = put_at p e (Sim.append_empty (written (at p e)))

  grown_kept : (p : Bytes) (e i : ℕ) → i < e → grown p e i ≡ p i
  grown_kept p e i h = ground arith

  grown-IsOpen :
      Fills
      → (p : Bytes) (qs : List Param) (e : ℕ) → n < 65536
      → type < 65536
      → type ≢ 0
      → IsOpen p qs e
      → e + (n + 2) ≤ Sim.get_length p
      → IsOpen
          (grown p e)
          (qs ++ record { type = type; content = slice content 0 n } ∷ [])
          (e + (4 + n))
        × (Sim.get_length (grown p e) ≡ Sim.get_length p)
  grown-IsOpen fills p qs e small named' named h fits =
      let le = IsLaid-le p 4 qs e h.laid in
      let p' = grown p e in
      let q = at p e in
      let size : Sim.get_length p' ≡ Sim.get_length p =
        length_congr p p' (grown_kept p e 2 (omega arith)) (grown_kept p e 3 (omega arith)) in
      let new = param_at-ended fills small q p e named' in
      let laid =
        IsLaid-snoc p' 4 e qs (IsLaid-congr p p' 4 e qs (λ i g k. grown_kept p e i k) h.laid) in
      (
        record {
          laid =
              subst (λ r. IsLaid p' 4 (qs ++ r ∷ []) (e + (4 + n))) new
                (subst (λ k. IsLaid p' 4 (qs ++ param_at p' e ∷ []) (e + (4 + k)))
                  (length-ended fills small q p e) laid);
          room = omega arith;
          marked =
              ap Sim.get_type (at-put_at_behind p e (4 + n) (Sim.append_empty (written q)))
              ∙ ended_marked fills small q;
          named = AllNamed-snoc qs _ h.named named;
        },
        size,
      )

  -- Where there is room behind the parameters, the new one is put there.
  pub append_at-IsOpen :
      Fills
      → (p : Bytes) (qs : List Param) (e asked : ℕ) → n < 65536
      → type < 65536
      → type ≢ 0
      → IsOpen p qs e
      → asked ≡ n + 2
      → e + asked ≤ Sim.get_length p
      → (p' : Bytes) × (Append.append_at p type n asked fill (some (some e)) ≡ some (true, p'))
        × IsOpen p' (qs ++ record { type = type; content = slice content 0 n } ∷ []) (e + (4 + n))
        × (Sim.get_length p' ≡ Sim.get_length p)
  unfolding Append.append_at Sim.validate_param
  append_at-IsOpen fills p qs e asked small named' named h same fits =
      let (opened, size) = grown-IsOpen fills p qs e small named' named h (omega arith) in
      let fits' : leb (e + asked) (Sim.get_length p) ≡ true = ground arith in
      (
        grown p e,
        rw
            (
              fits',
              write_param_lem p e,
              at-put_at p e (written (at p e)),
              put_at-put_at p e (written (at p e)) (Sim.append_empty (written (at p e))),
            )
            refl,
        opened,
        size,
      )

  -- Where there is no room, the message stays.
  pub append_at_refused :
      (p : Bytes) (e asked : ℕ)
      → Sim.get_length p < e + asked
      → Append.append_at p type n asked fill (some (some e)) ≡ some (false, p)
  unfolding Append.append_at Sim.validate_param
  append_at_refused p e asked full = ground arith

-- ===== src/Cursor/Triples.antt =====
-- What the reads keep of a cursor: its slice, and an offset inside it. Their errors are truthful, and
-- what they return is a part of the slice.
use blockchain_zc_parser.Base.{
  ℕ, ◌+◌, ◌≤◌, ◌<◌, ◌≡◌, refl, sym, ap, ◌∙◌, subst, List, ◌++◌, length, take, drop,
  take-append-drop, true, false, ltb, leb, ltb→lt, arith, inl, inr, ◌⊎◌, Bool-cases, ◌==◌,
}
use blockchain_zc_parser.Error.{
  ParseError, ParseResult, ok, err, fault, unexpected_eof, oversized_data,
}
use blockchain_zc_parser.Error.Truthful.{Truthful, eof, too_large, oversized}
use blockchain_zc_parser.Action.{Action, lift, pure, ◌>>=◌, refuse_if}
use blockchain_zc_parser.Action.Triple.{
  Ends, Triple, Any, any-Triple, bind-Triple, lift-Triple, pure-Triple, refuse_if-Triple, if-Triple,
}
use blockchain_zc_parser.Target.{Target, usize_max, to_usize}
use blockchain_zc_parser.Bytes.{array_of, from_le_bytes, signed}
use blockchain_zc_parser.Cursor.{
  Cursor, remaining, read_u8, read_bytes, read_u16_le, read_u32_le, read_i32_le, read_u64_le,
  read_varint, read_var_bytes, read_array, skip,
}
use blockchain_zc_parser.Cursor.Format.{
  Format, Ran, accepted, rejected, Decodes, IsValid, advance-IsValid,
}
use blockchain_zc_parser.Cursor.Words.{
  Raw, array_of-ok, read_bytes-Decodes, read_bytes_short, read_bytes_enough,
}
use blockchain_zc_parser.Cursor.Reads.{Byte, read_u8-Decodes, read_array-Decodes}

-- A cursor over the bytes `bs`, at an offset in them.
pub record Within (t : Target) (bs : List ℕ) (c : Cursor) : Type 0 where
  pub same : c.bytes ≡ bs
  pub valid : IsValid t c

-- A part of the bytes.
abbrev pub Borrowed : List ℕ → List ℕ → Type 0
Borrowed bs part = (front : List ℕ) × (back : List ℕ) × (bs ≡ front ++ (part ++ back))

-- A value that a part of the bytes stands for.
abbrev pub Found : {A : Type 0} → Format A → List ℕ → A → Type 0
Found F bs a = (part : List ℕ) × F a part × Borrowed bs part

module _ (t : Target) (bs : List ℕ) (E : ParseError → Type 0) where
  -- A parser of a format returns what it found, if its errors are as wanted.
  pub format-Triple :
      {A : Type 0} {p : Action Cursor A} {F : Format A}
      → Decodes t p F
      → ((c : Cursor) (e : ParseError) → IsValid t c → (p c).0 ≡ err e → E e)
      → Triple (Within t bs) E (Found F bs) p
  format-Triple {A} {p} {F} d h = record {
    triple = λ c w. go c w (p c).0 (p c).1 (d.sound c w.valid) (λ e. h c e w.valid);
  }
    where
      go :
          (c : Cursor)
          → Within t bs c
          → (r : ParseResult A) (c' : Cursor) → Ran F c r c'
          → ((e : ParseError) → r ≡ err e → E e)
          → Within t bs c' × Ends E (Found F bs) r
      go c w (ok a) c' (accepted part rest f u m) k = (
        record {
          same = ap (λ d. d.bytes) m ∙ w.same;
          valid = subst (IsValid t) (sym m) (advance-IsValid t c w.valid part rest u);
        },
        (
          part,
          f,
          (
            take c.pos bs,
            rest,
            sym (
                ap (λ k. take c.pos bs ++ k) (sym u ∙ ap (drop c.pos) w.same)
                ∙ take-append-drop c.pos bs),
          ),
        ),
      )
      go c w (err e) c' (rejected b lo hi) k =
          (record { same = b ∙ w.same; valid = rejected-IsValid c c' w b hi }, k e refl)
        where
          rejected-IsValid :
              (c c' : Cursor)
              → Within t bs c
              → c'.bytes ≡ c.bytes
              → c'.pos ≤ length c.bytes
              → IsValid t c'
          rejected-IsValid c c' w b hi = record {
            fits = rw b hi;
            small = rw b w.valid.small;
            octets = rw b w.valid.octets;
          }
      go c w fault c' r k = elim r [ ]

  -- The errors of a parser, from its triple over every slice.
  pub raised :
      {A : Type 0} {Q : A → Type 0} {p : Action Cursor A}
      → ((xs : List ℕ) → Triple (Within t xs) E Q p)
      → (c : Cursor) (e : ParseError) → IsValid t c
      → (p c).0 ≡ err e
      → E e
  raised {A} {Q} {p} h c e v q =
      subst (Ends E Q) q ((h c.bytes).triple c (record { same = refl; valid = v })).1

module _ (t : Target) (E : ParseError → Type 0)
    (honest : (e : ParseError) → Truthful t e → E e) where
  read_bytes_raised :
      (n : ℕ) (c : Cursor) (e : ParseError) → IsValid t c → (read_bytes t n c).0 ≡ err e → E e
  read_bytes_raised n c e v q = go (omega arith)
    where
      go : (c.pos + n ≤ length c.bytes) ⊎ (length c.bytes < c.pos + n) → E e
      go (inl l) = absurd (read_bytes_ne c e n v l q)
        where
          read_bytes_ne :
              (c : Cursor) (e : ParseError) (n : ℕ)
              → IsValid t c
              → c.pos + n ≤ length c.bytes
              → (read_bytes t n c).0 ≡ err e
              → ⊥
          read_bytes_ne c e n v l q = cc (q, read_bytes_enough t n c v l)
      go (inr l) = subst E (short_error c e n v l q) (honest _ (eof (omega (arith, v.fits))))
        where
          short_error :
              (c : Cursor) (e : ParseError) (n : ℕ)
              → IsValid t c
              → length c.bytes < c.pos + n
              → (read_bytes t n c).0 ≡ err e
              → unexpected_eof n (remaining c) ≡ e
          short_error c e n v l q = cc (q, read_bytes_short t n c v l)

  read_u8_err : (c : Cursor) (e : ParseError) → (read_u8 c).0 ≡ err e → unexpected_eof 1 0 ≡ e
  unfolding read_u8
  read_u8_err c e q = ground arith

  read_u8_raised : (c : Cursor) (e : ParseError) → IsValid t c → (read_u8 c).0 ≡ err e → E e
  read_u8_raised c e v q = subst E (read_u8_err c e q) (honest _ (eof (omega arith)))

  pub read_bytes-Triple :
      (bs : List ℕ) (n : ℕ) → Triple (Within t bs) E (Found (Raw n) bs) (read_bytes t n)
  read_bytes-Triple bs n = format-Triple t bs E (read_bytes-Decodes t n) (read_bytes_raised n)

  pub read_u8-Triple : (bs : List ℕ) → Triple (Within t bs) E (Found Byte bs) read_u8
  read_u8-Triple bs = format-Triple t bs E (read_u8-Decodes t) read_u8_raised

  -- The check behind a read of `n` bytes, which they pass.
  array-Triple :
      (bs : List ℕ) (n : ℕ) (xs : List ℕ)
      → length xs ≡ n
      → Triple (Within t bs) E Any (lift (array_of n xs))
  array-Triple bs n xs l =
      lift-Triple (array_of n xs) (subst (Ends E Any) (sym (array_of-ok t n xs l)) tt)

  word-Triple :
      {A : Type 0} (bs : List ℕ) (n : ℕ) (f : List ℕ → A)
      → Triple (Within t bs) E Any (do xs ← read_bytes t n; a ← lift (array_of n xs); pure (f a))
  word-Triple bs n f = bind-Triple (read_bytes-Triple bs n) λ xs (part, (e, l, o), b).
      bind-Triple (array-Triple bs n xs (ap length e ∙ l)) λ a _. pure-Triple (f a) tt

  read_array-Any : (bs : List ℕ) (n : ℕ) → Triple (Within t bs) E Any (read_array t n)
  unfolding read_array
  read_array-Any bs n =
      bind-Triple (read_bytes-Triple bs n)
        λ xs (part, (e, l, o), b). array-Triple bs n xs (ap length e ∙ l)

  pub read_array-Triple :
      (bs : List ℕ) (n : ℕ) → Triple (Within t bs) E (Found (Raw n) bs) (read_array t n)
  read_array-Triple bs n =
      format-Triple t bs E (read_array-Decodes t n) (raised t bs E (λ xs. read_array-Any xs n))

  pub read_u16_le-Triple : (bs : List ℕ) → Triple (Within t bs) E Any (read_u16_le t)
  unfolding read_u16_le
  read_u16_le-Triple bs = word-Triple bs 2 from_le_bytes

  pub read_u32_le-Triple : (bs : List ℕ) → Triple (Within t bs) E Any (read_u32_le t)
  unfolding read_u32_le
  read_u32_le-Triple bs = word-Triple bs 4 from_le_bytes

  pub read_i32_le-Triple : (bs : List ℕ) → Triple (Within t bs) E Any (read_i32_le t)
  unfolding read_i32_le
  read_i32_le-Triple bs = word-Triple bs 4 (λ xs. signed 32 (from_le_bytes xs))

  pub read_u64_le-Triple : (bs : List ℕ) → Triple (Within t bs) E Any (read_u64_le t)
  unfolding read_u64_le
  read_u64_le-Triple bs = word-Triple bs 8 from_le_bytes

  pub read_varint-Triple : (bs : List ℕ) → Triple (Within t bs) E Any (read_varint t)
  unfolding read_varint
  read_varint-Triple bs = bind-Triple (read_u8-Triple bs) λ v _.
      if-Triple (leb v 0xfc) (pure-Triple v tt) (
        if-Triple (v == 0xfd) (read_u16_le-Triple bs)
          (if-Triple (v == 0xfe) (read_u32_le-Triple bs) (read_u64_le-Triple bs)))

  pub to_usize-Triple : {X : Type 0} {I : X → Type 0} (v : ℕ) → Triple I E Any (lift (to_usize t v))
  to_usize-Triple v = lift-Triple (to_usize t v) (go (Bool-cases (leb v (usize_max t))))
    where
      go : (leb v (usize_max t) ≡ true) ⊎ (leb v (usize_max t) ≡ false) → Ends E Any (to_usize t v)
      go (inl h) = rw h tt
      go (inr h) = rw h (honest _ (too_large (ground arith)))

  -- `if n > max { return Err(OversizedData { size: n, max }); }`
  pub limit-Triple :
      {X : Type 0} {I : X → Type 0} (n max : ℕ)
      → Triple I E (λ _. ltb max n ≡ false) (refuse_if (ltb max n) (oversized_data n max))
  limit-Triple n max =
      refuse_if-Triple (ltb max n) (oversized_data n max)
        (λ h. honest _ (oversized (ltb→lt max n h)))

  pub read_var_bytes-Triple :
      (bs : List ℕ) (max : ℕ) → Triple (Within t bs) E Any (read_var_bytes t max)
  unfolding read_var_bytes
  read_var_bytes-Triple bs max = bind-Triple (read_varint-Triple bs) λ v _.
      bind-Triple (to_usize-Triple v)
        λ n _. bind-Triple (limit-Triple n max) λ _ _. any-Triple (read_bytes-Triple bs n)

  pub skip-Triple : (bs : List ℕ) (n : ℕ) → Triple (Within t bs) E Any (skip t n)
  unfolding skip
  skip-Triple bs n = bind-Triple (read_bytes-Triple bs n) λ _ _. pure-Triple tt tt

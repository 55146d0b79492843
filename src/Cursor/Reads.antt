-- ===== src/Cursor/Reads.antt =====
-- The reads of the cursor, method by method.
use blockchain_zc_parser.Base.{
  get_elem?-drop, lt→leb, All, ℕ, ◌≡◌, refl, sym, ap, ◌∙◌, subst, List, [], ◌∷◌, ◌++◌, length,
  length-append, append-nil, arith, le→leb,
}
use blockchain_zc_parser.Error.{ok, err, IsEof, unexpected_eof}
use blockchain_zc_parser.Target.{Target}
use blockchain_zc_parser.Bytes.{IsByte, array_of, byte_at, from_le_bytes, signed}
use blockchain_zc_parser.Cursor.{
  Cursor, read_u8, read_u16_le, read_u32_le, read_i32_le, read_u64_le, read_i64_le, read_array,
}
use blockchain_zc_parser.Cursor.Format.{
  unread, advance, IsValid, Format, Ran, accepted, rejected, Decodes, length-unread, unread-IsByte,
}
use blockchain_zc_parser.Cursor.Rules.{Then, Nothing, bind-Decodes}
use blockchain_zc_parser.Cursor.Checks.{lift-Decodes, change-Decodes}
use blockchain_zc_parser.Cursor.Words.{
  Raw, Word, array_of-ok, ok-injective, read_bytes-Decodes, word-Decodes,
}

pub read_u16_le-Decodes : (t : Target) → Decodes t (read_u16_le t) (Word 2 from_le_bytes)
unfolding read_u16_le
read_u16_le-Decodes t = word-Decodes t 2 from_le_bytes

pub read_u32_le-Decodes : (t : Target) → Decodes t (read_u32_le t) (Word 4 from_le_bytes)
unfolding read_u32_le
read_u32_le-Decodes t = word-Decodes t 4 from_le_bytes

pub read_u64_le-Decodes : (t : Target) → Decodes t (read_u64_le t) (Word 8 from_le_bytes)
unfolding read_u64_le
read_u64_le-Decodes t = word-Decodes t 8 from_le_bytes

pub read_i32_le-Decodes :
    (t : Target) → Decodes t (read_i32_le t) (Word 4 (λ bs. signed 32 (from_le_bytes bs)))
unfolding read_i32_le
read_i32_le-Decodes t = word-Decodes t 4 (λ bs. signed 32 (from_le_bytes bs))

pub read_i64_le-Decodes :
    (t : Target) → Decodes t (read_i64_le t) (Word 8 (λ bs. signed 64 (from_le_bytes bs)))
unfolding read_i64_le
read_i64_le-Decodes t = word-Decodes t 8 (λ bs. signed 64 (from_le_bytes bs))

pub read_array-Decodes : (t : Target) (n : ℕ) → Decodes t (read_array t n) (Raw n)
unfolding read_array
read_array-Decodes t n =
    change-Decodes t
      (bind-Decodes t (read_bytes-Decodes t n)
        λ a bs (e, l, o). lift-Decodes t (array_of n a) (rw (array_of-ok t n a (rw e l)) cc))
      apart whole
  where
    apart :
        (a bs : List ℕ)
        → Then (Raw n) (λ xs. Nothing (λ ys. array_of n xs ≡ ok ys)) a bs
        → Raw n a bs
    apart a bs (xs, zs, ns, (e, l, o), (q, m), s) =
        let same : bs ≡ zs = rw (s, m, append-nil) in
        (
          ok-injective a zs (sym q ∙ (array_of-ok t n xs (rw e l) ∙ ap ok e)) ∙ sym same,
          rw same l,
          rw same o,
        )

    whole :
        (a bs : List ℕ)
        → Raw n a bs
        → Then (Raw n) (λ xs. Nothing (λ ys. array_of n xs ≡ ok ys)) a bs
    whole a bs (e, l, o) = (
      bs,
      bs,
      [],
      (refl, l, o),
      (array_of-ok t n bs l ∙ ap ok (sym e), refl),
      sym (append-nil bs),
    )

-- One byte.
abbrev pub Byte : Format ℕ
Byte b bs = IsByte b × (bs ≡ b ∷ [])

module _ (t : Target) (c : Cursor) (v : IsValid t c) where
  pub read_u8_cons : (b : ℕ) (rest : List ℕ) → unread c ≡ b ∷ rest → read_u8 c ≡ (ok b, advance c 1)
  unfolding read_u8
  read_u8_cons b rest u = rw (
    lt→leb (length c.bytes) c.pos (omega (arith, ap length u, length-unread t c v)),
    get_elem?-drop c.pos c.bytes b rest u,
    byte_at,
  )

  read_u8_nil : unread c ≡ [] → read_u8 c ≡ (err (unexpected_eof 1 0), c)
  unfolding read_u8
  read_u8_nil u =
      rw (le→leb (length c.bytes) c.pos (omega (arith, ap length u, length-unread t c v)))

  read_u8_sound : (l : List ℕ) → unread c ≡ l → Ran Byte c (read_u8 c).0 (read_u8 c).1
  read_u8_sound [] u = rw (read_u8_nil u) (rejected refl (omega arith) v.fits)
  read_u8_sound (b ∷ rest) u =
      rw (read_u8_cons b rest u)
        (accepted (b ∷ []) rest ((subst (All IsByte) u (unread-IsByte t c v)).0, refl) u refl)

  read_u8_truncated :
      (l : List ℕ) (a x : ℕ) (back : List ℕ)
      → unread c ≡ l
      → Byte a (l ++ (x ∷ back))
      → IsEof (read_u8 c).0
  read_u8_truncated [] a x back u h = rw (read_u8_nil u) (1, 0, refl, omega arith)
  read_u8_truncated (b ∷ rest) a x back u (o, h) =
      absurd (omega (arith, ap length h, length-append rest (x ∷ back)))

pub read_u8-Decodes : (t : Target) → Decodes t read_u8 Byte
read_u8-Decodes t = record {
  sound = λ c v. read_u8_sound t c v (unread c) refl;
  complete = λ c a bs rest v (o, e) u. rw e (read_u8_cons t c v a rest (u ∙ rw e));
  truncated = λ c a x back v h. read_u8_truncated t c v (unread c) a x back refl h;
}

-- ===== src/Cursor/Accepted.antt =====
-- The methods of the cursor on every valid cursor: when they succeed, with what, and what an input
-- that ends too early gives.
use blockchain_zc_parser.Base.{ℕ, ◌≤◌, ◌≡◌, ◌↔◌, sym, ap, ◌∙◌, subst, List, ◌∷◌, ◌++◌, length}
use blockchain_zc_parser.Error.{ParseResult, ok, err, fault, IsEof}
use blockchain_zc_parser.Action.{Action}
use blockchain_zc_parser.Target.{Target, usize_max}
use blockchain_zc_parser.Cursor.{Cursor, read_varint, read_var_bytes}
use blockchain_zc_parser.Cursor.Format.{Format, IsValid, unread, advance, Decodes, Ran}
use blockchain_zc_parser.Cursor.VarInt.{
  VarInt, VarBytes, read_varint-Decodes, read_var_bytes-Decodes,
}

-- The unread bytes begin with a byte string that stands for `a`, and `c'` is the cursor behind it.
abbrev pub Begins : {A : Type 0} → Format A → Cursor → A → Cursor → Type 0
Begins F c a c' =
    (bs : List ℕ) × (rest : List ℕ) × F a bs
    × (unread c ≡ bs ++ rest)
    × (c' ≡ advance c (length bs))

module _ {t : Target} {A : Type 0} {p : Action Cursor A} {F : Format A} (d : Decodes t p F)
    (c : Cursor) (v : IsValid t c) where
  begins :
      (r : ParseResult A × Cursor)
      → Ran F c r.0 r.1
      → (a : A) (c' : Cursor) → r ≡ (ok a, c')
      → Begins F c a c'
  begins (ok b, k) (Ran.accepted bs rest f e m) a c' q =
      (bs, rest, subst (λ x. F x bs) (value (ap (λ x. x.0) q)) f, e, sym (ap (λ x. x.1) q) ∙ m)
    where
      value : ok b ≡ ok a → b ≡ a
      value w = cc
  begins (err x, k) h a c' q = absurd (cc)
  begins (fault, k) h a c' q = elim h [ ]

  pub Decodes-iff : (a : A) (c' : Cursor) → (p c ≡ (ok a, c')) ↔ Begins F c a c'
  Decodes-iff a c' = (
    begins (p c) (d.sound c v) a c',
    λ (bs, rest, f, e, m). d.complete c a bs rest v f e ∙ ap (λ k. (ok a, k)) (sym m),
  )

-- `read_varint` gives `v` and leaves the cursor `c'` exactly when the unread bytes begin with one of
-- the 1-, 3-, 5- and 9-byte encodings of `v` and `c'` stands behind it. The cursor `c` is valid.
pub read_varint_iff :
    (t : Target) (c : Cursor) (v : ℕ) (c' : Cursor)
    → IsValid t c
    → (read_varint t c ≡ (ok v, c')) ↔ Begins VarInt c v c'
read_varint_iff t c v c' valid = Decodes-iff (read_varint-Decodes t) c valid v c'

-- An input that ends inside the encoding of a number makes `read_varint` an `UnexpectedEof` that
-- needed more than was there. The cursor `c` is valid.
read_varint_truncated :
    (t : Target) (c : Cursor) (v x : ℕ) (back : List ℕ)
    → IsValid t c
    → VarInt v (unread c ++ (x ∷ back))
    → IsEof (read_varint t c).0
read_varint_truncated t c v x back valid h = (read_varint-Decodes t).truncated c v x back valid h

-- `read_var_bytes` gives `bs` and leaves the cursor `c'` exactly when the unread bytes begin with an
-- encoding of the length of `bs`, at most `max`, and `bs` itself, and `c'` stands behind them. The
-- cursor `c` is valid and `max` is a `usize`.
read_var_bytes_iff :
    (t : Target) (max : ℕ) (c : Cursor) (bs : List ℕ) (c' : Cursor)
    → max ≤ usize_max t
    → IsValid t c
    → (read_var_bytes t max c ≡ (ok bs, c')) ↔ Begins (VarBytes max) c bs c'
read_var_bytes_iff t max c bs c' fits valid =
    Decodes-iff (read_var_bytes-Decodes t max fits) c valid bs c'

-- ===== src/Example/Encode.antt =====
-- `encode_varint` against the cursor's `read_varint`.
use blockchain_zc_parser.Base.{
  ℕ, zero, suc, ◌/◌, ◌%◌, ◌^◌, ◌≤◌, ◌<◌, ◌≡◌, refl, sym, List, [], ◌∷◌, ◌++◌, length, All, leb,
  Bool-cases, inl, inr, ◌⊎◌, true, false, arith,
}
use blockchain_zc_parser.Error.{ok}
use blockchain_zc_parser.Target.{Target}
use blockchain_zc_parser.Bytes.{
  IsByte, from_le_bytes, to_le_bytes, from_le_bytes-to_le_bytes, length-to_le_bytes,
  from_le_bytes-lt,
}
use blockchain_zc_parser.Cursor.{Cursor, read_varint}
use blockchain_zc_parser.Cursor.Format.{IsValid, unread, advance}
use blockchain_zc_parser.Cursor.Words.{Word}
use blockchain_zc_parser.Cursor.VarInt.{VarInt, short, two, four, eight}
use blockchain_zc_parser.Cursor.Accepted.{read_varint_iff}
use blockchain_zc_parser.Example.Synthetic.{encode_varint}

pub to_le_bytes-IsByte : (n v : ℕ) → All IsByte (to_le_bytes n v)
to_le_bytes-IsByte zero v = tt
to_le_bytes-IsByte (suc n) v = (omega arith, to_le_bytes-IsByte n (v / 256))

pub to_le_bytes-Word : (n v w : ℕ) → v < 256 ^ n → w ≡ v → Word n from_le_bytes v (to_le_bytes n w)
to_le_bytes-Word n v w h e =
    (length-to_le_bytes n w, to_le_bytes-IsByte n w, rw e (sym (from_le_bytes-to_le_bytes n v h)))

pub encode_varint-VarInt : (v : ℕ) → v < 2 ^ 64 → VarInt v (encode_varint v)
unfolding encode_varint
encode_varint-VarInt v h = one (Bool-cases (leb v 0xfc))
  where
    more :
        leb v 0xfc ≡ false
        → leb v 0xffff ≡ false
        → (leb v 0xffff_ffff ≡ true) ⊎ (leb v 0xffff_ffff ≡ false)
        → VarInt v (encode_varint v)
    more h₁ h₂ (inl k) =
        rw (h₁, h₂, k)
          (
            0xfe,
            0xfe ∷ [],
            to_le_bytes 4 (v % 2 ^ 32),
            (omega arith, refl),
            four refl (to_le_bytes-Word 4 v (v % 2 ^ 32) (ground arith) (ground arith)),
            refl,
          )
    more h₁ h₂ (inr k) =
        rw (h₁, h₂, k)
          (
            0xff,
            0xff ∷ [],
            to_le_bytes 8 v,
            (omega arith, refl),
            eight (omega arith) (to_le_bytes-Word 8 v v (omega arith) refl),
            refl,
          )

    three :
        leb v 0xfc ≡ false
        → (leb v 0xffff ≡ true) ⊎ (leb v 0xffff ≡ false)
        → VarInt v (encode_varint v)
    three h₁ (inl k) =
        rw (h₁, k)
          (
            0xfd,
            0xfd ∷ [],
            to_le_bytes 2 (v % 2 ^ 16),
            (omega arith, refl),
            two refl (to_le_bytes-Word 2 v (v % 2 ^ 16) (ground arith) (ground arith)),
            refl,
          )
    three h₁ (inr k) = more h₁ k (Bool-cases (leb v 0xffff_ffff))

    one : (leb v 0xfc ≡ true) ⊎ (leb v 0xfc ≡ false) → VarInt v (encode_varint v)
    one (inl k) = rw k (
      v % 2 ^ 8,
      v % 2 ^ 8 ∷ [],
      [],
      (omega arith, refl),
      short (ground arith) (ground arith) refl,
      refl,
    )
    one (inr k) = three k (Bool-cases (leb v 0xffff))

-- What `encode_varint` writes of a `u64`, whatever stands behind it, `read_varint` reads back, and
-- takes no byte more. The cursor is valid.
pub read_varint-encode_varint :
    (t : Target) (c : Cursor) (v : ℕ) (rest : List ℕ)
    → v < 2 ^ 64
    → IsValid t c
    → unread c ≡ encode_varint v ++ rest
    → read_varint t c ≡ (ok v, advance c (length (encode_varint v)))
read_varint-encode_varint t c v rest h valid u =
    (read_varint_iff t c v (advance c (length (encode_varint v))) valid).1
      (encode_varint v, rest, encode_varint-VarInt v h, u, refl)

pub Word-lt : (n v : ℕ) (bs : List ℕ) → Word n from_le_bytes v bs → v < 256 ^ n
Word-lt n v bs (l, o, w) = rw (w, ← l) (from_le_bytes-lt bs o)

-- No encoding of a number that `read_varint` accepts is shorter than that of `encode_varint`.
pub encode_varint_shortest :
    (v : ℕ) (bs : List ℕ) → VarInt v bs → length (encode_varint v) ≤ length bs
unfolding encode_varint
encode_varint_shortest v bs (b, xs, ys, (o, e), short l q n, s) = rw (s, e, n) (ground arith)
encode_varint_shortest v bs (b, xs, ys, (o, e), two q w, s) =
    rw (s, e) (ground (arith, w.0, Word-lt 2 v ys w))
encode_varint_shortest v bs (b, xs, ys, (o, e), four q w, s) =
    rw (s, e) (ground (arith, w.0, Word-lt 4 v ys w))
encode_varint_shortest v bs (b, xs, ys, (o, e), eight q w, s) = rw (s, e) (ground (arith, w.0))

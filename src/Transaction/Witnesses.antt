-- ===== src/Transaction/Witnesses.antt =====
-- `Witness::parse` on the unread bytes, and the skip of a witness in the streaming parser.
use blockchain_zc_parser.Base.{
  ℕ, ◌≡◌, refl, sym, ap, ◌∙◌, subst, List, [], ◌∷◌, ◌++◌, append-nil, length, All, arith,
}
use blockchain_zc_parser.Error.{ParseError, ParseResult, ok, err, fault, and_then, IsEof}
use blockchain_zc_parser.Target.{Target}
use blockchain_zc_parser.Bytes.{IsByte, slice, slice_prefix, slice_suffix}
use blockchain_zc_parser.Cursor.{Cursor, new, skip, as_slice, position}
use blockchain_zc_parser.Cursor.Format.{
  unread, advance, Format, Ran, accepted, rejected, Decodes, IsValid, length-unread, unread-IsByte,
}
use blockchain_zc_parser.Cursor.Rules.{bind-Decodes}
use blockchain_zc_parser.Cursor.Checks.{pure-Decodes, change-Decodes}
use blockchain_zc_parser.Cursor.Words.{read_bytes-Decodes}
use blockchain_zc_parser.Transaction.{Witness, read_witness, parse_witness}
use blockchain_zc_parser.Transaction.Wire.{WitnessFormat, CountFormat, read_witness-Decodes}
use native.Mathlib.Nat.{zero-add}

-- Bytes that are passed over.
abbrev pub Skipped : ℕ → Format (Unit {0})
Skipped n _ bs = (length bs ≡ n) × All IsByte bs

pub skip-Decodes : (t : Target) (n : ℕ) → Decodes t (skip t n) (Skipped n)
unfolding skip
skip-Decodes t n =
    change-Decodes t (bind-Decodes t (read_bytes-Decodes t n) λ a bs h. pure-Decodes t tt)
      (λ u bs (a, xs, ys, (e, l, o), (_, k), s).
        let same : bs ≡ xs = rw (s, k, append-nil) in (rw same l, rw same o))
      (λ u bs (l, o). (bs, bs, [], (refl, l, o), (refl, refl), sym (append-nil bs)))

-- The slice of the unread bytes as an input of its own.
pub new-IsValid : (t : Target) (c : Cursor) → IsValid t c → IsValid t (new (unread c))
new-IsValid t c v = record {
  fits = omega arith;
  small = omega (arith, length-unread t c v, v.small);
  octets = unread-IsByte t c v;
}

pub as_slice_lem : (t : Target) (c : Cursor) → IsValid t c → as_slice c ≡ ok (unread c)
as_slice_lem t c v = slice_suffix c.pos c.bytes v.fits

-- What `Witness::parse` says of an input: it begins with a witness, or there is an error.
pub data Parsed (xs : List ℕ) : ParseResult (Witness × ℕ) → Type 0 where
  parsed :
      {w : Witness} {n : ℕ} (items : List (List ℕ)) (bs rest : List ℕ)
      → WitnessFormat items bs
      → xs ≡ bs ++ rest
      → w ≡ record { raw = bs; item_count = length items }
      → n ≡ length bs
      → Parsed xs (ok (w, n))
  refused : {e : ParseError} → Parsed xs (err e)

module _ (t : Target) where
  unfoldable pub cut : ParseResult ℕ × Cursor → List ℕ → ParseResult (Witness × ℕ)
  cut (count, c) xs = and_then count λ item_count.
      and_then (slice xs 0 (position c))
        λ raw. ok (record { raw = raw; item_count = item_count }, position c)

  cut_prefix :
      (n : ℕ) (bs rest xs : List ℕ)
      → xs ≡ bs ++ rest
      → cut (ok n, advance (new xs) (length bs)) xs
        ≡ ok (record { raw = bs; item_count = n }, length bs)
  unfolding cut
  cut_prefix n bs rest xs e = rw e (rw (zero-add (length bs)) (rw (slice_prefix bs rest)))

  cut-Parsed :
      (xs : List ℕ) (r : ParseResult ℕ × Cursor)
      → Ran CountFormat (new xs) r.0 r.1
      → Parsed xs (cut r xs)
  unfolding cut
  cut-Parsed xs (ok n, c) (accepted bs rest (items, l, h) e m) = rw m (
      subst (Parsed xs) (sym (cut_prefix n bs rest xs e))
        (parsed items bs rest h e (ap (λ k. record { raw = bs; item_count = k }) l) refl))
  cut-Parsed xs (err x, c) (rejected b lo hi) = refused
  cut-Parsed xs (fault, c) h = elim h [ ]

  pub parse_witness-Parsed : (xs : List ℕ) → IsValid t (new xs) → Parsed xs (parse_witness t xs)
  unfolding parse_witness cut
  parse_witness-Parsed xs v =
      cut-Parsed xs (read_witness t (new xs)) ((read_witness-Decodes t).sound (new xs) v)

  pub parse_witness_complete :
      (items : List (List ℕ)) (bs rest xs : List ℕ)
      → IsValid t (new xs)
      → WitnessFormat items bs
      → xs ≡ bs ++ rest
      → parse_witness t xs ≡ ok (record { raw = bs; item_count = length items }, length bs)
  unfolding parse_witness cut
  parse_witness_complete items bs rest xs v h e =
      ap (λ r. cut r xs)
        ((read_witness-Decodes t).complete (new xs) (length items) bs rest v (items, refl, h) e)
      ∙ cut_prefix (length items) bs rest xs e

  cut-IsEof : (xs : List ℕ) (r : ParseResult ℕ × Cursor) → IsEof r.0 → IsEof (cut r xs)
  unfolding cut
  cut-IsEof xs (ok n, d) (needed, there, e, l) = cc
  cut-IsEof xs (err y, d) (needed, there, e, l) = (needed, there, cc, l)
  cut-IsEof xs (fault, d) (needed, there, e, l) = cc

  pub parse_witness_truncated :
      (items : List (List ℕ)) (x : ℕ) (back xs : List ℕ)
      → IsValid t (new xs)
      → WitnessFormat items (xs ++ (x ∷ back))
      → IsEof (parse_witness t xs)
  unfolding parse_witness cut
  parse_witness_truncated items x back xs v h =
      cut-IsEof xs (read_witness t (new xs))
        ((read_witness-Decodes t).truncated (new xs) (length items) x back v (items, refl, h))

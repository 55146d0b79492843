-- ===== src/Transaction/Accepted.antt =====
-- The parsers of a transaction's parts and of the transaction on every valid cursor: when they succeed
-- and with what, that they never panic, and what an input that ends too early gives.
use blockchain_zc_parser.Base.{
  ℕ, arith, refl, ◌≤◌, ◌≡◌, ◌≢◌, ◌↔◌, sym, ap, ◌∙◌, subst, List, ◌∷◌, ◌++◌, length,
}
use blockchain_zc_parser.Error.{ParseResult, ok, err, fault, IsEof}
use blockchain_zc_parser.Target.{Target}
use blockchain_zc_parser.Cursor.{Cursor}
use blockchain_zc_parser.Cursor.Format.{IsValid, unread, advance, advance-IsValid}
use blockchain_zc_parser.Cursor.Accepted.{Begins, Decodes-iff}
use blockchain_zc_parser.Transaction.{
  TxInput, TxOutput, Callback, Streaming, parse_input, parse_output, skip_witness, parse_with,
}
use blockchain_zc_parser.Transaction.Wire.{
  InputFormat, OutputFormat, parse_input-Decodes, parse_output-Decodes,
}
use blockchain_zc_parser.Transaction.Skip.{WitnessSkipped, skip_witness-Decodes}
use blockchain_zc_parser.Transaction.Stream.{StreamFormat, Streams, StreamRan}
use blockchain_zc_parser.Transaction.Loops.{IsTotal, for_each}
use blockchain_zc_parser.Transaction.Tail.{Summary}
use blockchain_zc_parser.Transaction.Whole.{Tx, TxFormat, Parsed}
use blockchain_zc_parser.Transaction.Parse.{parse_with-Streams}

-- The unread bytes begin with a byte string of the format, in which the closures take their state from
-- `s` to `s'`, and `c'` is the cursor behind it.
abbrev pub StreamBegins : {S A : Type 0} → StreamFormat S A → Cursor → S → A → Cursor → S → Type 0
StreamBegins F c s a c' s' =
    (bs : List ℕ) × (rest : List ℕ) × F a s bs s'
    × (unread c ≡ bs ++ rest)
    × (c' ≡ advance c (length bs))

module _ {t : Target} {S A : Type 0} {p : Streaming S A} {F : StreamFormat S A} (d : Streams t p F)
    (c : Cursor) (s : S) (v : IsValid t c) where
  begins :
      (r : ParseResult A × (Cursor × S))
      → StreamRan F c s r.0 r.1
      → (a : A) (c' : Cursor) (s' : S) → r ≡ (ok a, (c', s'))
      → StreamBegins F c s a c' s'
  begins (ok b, k) (StreamRan.accepted bs rest f e m) a c' s' q = (
    bs,
    rest,
    subst (λ x. F x s bs s') (value (ap (λ x. x.0) q)) (subst (F b s bs) (ap (λ x. x.1.1) q) f),
    e,
    sym (ap (λ x. x.1.0) q) ∙ m,
  )
    where
      value : ok b ≡ ok a → b ≡ a
      value w = cc
  begins (err x, k) h a c' s' q = absurd (cc)
  begins (fault, k) h a c' s' q = elim h [ ]

  pub Streams-iff :
      (a : A) (c' : Cursor) (s' : S) → (p (c, s) ≡ (ok a, (c', s'))) ↔ StreamBegins F c s a c' s'
  Streams-iff a c' s' = (
    begins (p (c, s)) (d.sound c s v) a c' s',
    λ (bs, rest, f, e, m). d.complete c s a bs rest s' v f e ∙ ap (λ k. (ok a, (k, s'))) (sym m),
  )

  inside :
      (r : ParseResult A × (Cursor × S))
      → StreamRan F c s r.0 r.1
      → (r.0 ≢ fault) × (r.1.0.bytes ≡ c.bytes) × (c.pos ≤ r.1.0.pos) × (r.1.0.pos ≤ length c.bytes)
  inside (ok b, (k, u)) (StreamRan.accepted bs rest f e m) = (
    λ q. cc,
    ap (λ x. x.bytes) m,
    omega (arith, ap (λ x. x.pos) m),
    omega (arith, ap (λ x. x.pos) m, (advance-IsValid t c v bs rest e).fits),
  )
  inside (err x, k) (StreamRan.rejected b lo hi) = (λ q. cc, b, lo, hi)
  inside (fault, k) h = elim h [ ]

  pub Streams-inside :
      ((p (c, s)).0 ≢ fault)
      × ((p (c, s)).1.0.bytes ≡ c.bytes)
      × (c.pos ≤ (p (c, s)).1.0.pos)
      × ((p (c, s)).1.0.pos ≤ length c.bytes)
  Streams-inside = inside (p (c, s)) (d.sound c s v)

-- `parse_with` succeeds with `r`, the cursor `c'` and the closures' state `s'` exactly when the unread
-- bytes begin with a transaction's wire format, the closures took its inputs and then its outputs in
-- their order, from `s` to `s'`, `r` is its version, lock time and counts, and `c'` stands behind it.
-- The cursor `c` is valid and the closures do not panic.
pub parse_with_iff :
    (t : Target) {S : Type 0} (on_input : Callback S TxInput) (on_output : Callback S TxOutput)
    (c : Cursor) (s : S) (r : Summary) (c' : Cursor) (s' : S)
    → IsTotal on_input
    → IsTotal on_output
    → IsValid t c
    → (parse_with t on_input on_output (c, s) ≡ (ok r, (c', s')))
      ↔ StreamBegins (Parsed on_input on_output) c s r c' s'
parse_with_iff t on_input on_output c s r c' s' total_in total_out v =
    Streams-iff (parse_with-Streams t on_input on_output total_in total_out) c s v r c' s'

-- `parse_with` never panics or reads out of bounds, and on success and error alike it leaves a cursor
-- on the same slice, no further back than `c` and inside the slice. The cursor `c` is valid and the
-- closures do not panic.
pub parse_with_safe :
    (t : Target) {S : Type 0} (on_input : Callback S TxInput) (on_output : Callback S TxOutput)
    (c : Cursor) (s : S)
    → IsTotal on_input
    → IsTotal on_output
    → IsValid t c
    → ((parse_with t on_input on_output (c, s)).0 ≢ fault)
      × ((parse_with t on_input on_output (c, s)).1.0.bytes ≡ c.bytes)
      × (c.pos ≤ (parse_with t on_input on_output (c, s)).1.0.pos)
      × ((parse_with t on_input on_output (c, s)).1.0.pos ≤ length c.bytes)
parse_with_safe t on_input on_output c s total_in total_out v =
    Streams-inside (parse_with-Streams t on_input on_output total_in total_out) c s v

-- An input that ends inside a transaction whose inputs and outputs the closures would take makes
-- `parse_with` an `UnexpectedEof` that needed more than was there. The cursor `c` is valid and the
-- closures do not panic.
pub parse_with_truncated :
    (t : Target) {S : Type 0} (on_input : Callback S TxInput) (on_output : Callback S TxOutput)
    (c : Cursor) (s m s' : S) (tx : Tx) (x : ℕ) (back : List ℕ)
    → IsTotal on_input
    → IsTotal on_output
    → IsValid t c
    → TxFormat tx (unread c ++ (x ∷ back))
    → for_each on_input tx.inputs s ≡ (ok tt, m)
    → for_each on_output tx.outputs m ≡ (ok tt, s')
    → IsEof (parse_with t on_input on_output (c, s)).0
parse_with_truncated t on_input on_output c s m s' tx x back total_in total_out v f ins outs =
    (parse_with-Streams t on_input on_output total_in total_out).truncated c s
      (tx.version, tx.locktime, length tx.inputs, length tx.outputs) x back s' v
      (tx, m, f, ins, outs, refl)

-- `TxInput::parse` gives `i` and leaves `c'` exactly when the unread bytes begin with the outpoint, the
-- script behind its length and the sequence number of `i`, and `c'` stands behind them. The cursor `c`
-- is valid.
parse_input_iff :
    (t : Target) (c : Cursor) (i : TxInput) (c' : Cursor)
    → IsValid t c
    → (parse_input t c ≡ (ok i, c')) ↔ Begins InputFormat c i c'
parse_input_iff t c i c' v = Decodes-iff (parse_input-Decodes t) c v i c'

-- `TxOutput::parse` gives `o` and leaves `c'` exactly when the unread bytes begin with the value and the
-- script of `o`, and `c'` stands behind them. The cursor `c` is valid.
parse_output_iff :
    (t : Target) (c : Cursor) (o : TxOutput) (c' : Cursor)
    → IsValid t c
    → (parse_output t c ≡ (ok o, c')) ↔ Begins OutputFormat c o c'
parse_output_iff t c o c' v = Decodes-iff (parse_output-Decodes t) c v o c'

-- The skip of a witness succeeds and leaves `c'` exactly when the unread bytes begin with a witness, a
-- count and that many items within the limits, and `c'` stands behind it. The cursor `c` is valid.
skip_witness_iff :
    (t : Target) (c c' : Cursor)
    → IsValid t c
    → (skip_witness t c ≡ (ok tt, c')) ↔ Begins WitnessSkipped c tt c'
skip_witness_iff t c c' v = Decodes-iff (skip_witness-Decodes t) c v tt c'

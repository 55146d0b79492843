-- ===== src/Transaction/RoundTrip.antt =====
-- `parse_with` on serialised transactions, and the serialised form of what it read.
use blockchain_zc_parser.Base.{
  ℕ, ◌+◌, ◌≤◌, ◌≡◌, refl, sym, ap, ◌∙◌, List, [], ◌∷◌, ◌++◌, length, map, append_assoc, append-nil,
  arith,
}
use blockchain_zc_parser.Error.{ParseResult, ok}
use blockchain_zc_parser.Target.{Target}
use blockchain_zc_parser.Cursor.{Cursor}
use blockchain_zc_parser.Cursor.Format.{unread, advance, IsValid}
use blockchain_zc_parser.Transaction.{Callback, parse_with}
use blockchain_zc_parser.Transaction.Loops.{for_each, IsTotal}
use blockchain_zc_parser.Transaction.Tail.{Summary}
use blockchain_zc_parser.Transaction.Whole.{Tx}
use blockchain_zc_parser.Transaction.Parse.{parse_with-Streams}
use blockchain_zc_parser.Transaction.Accepted.{parse_with_iff}
use blockchain_zc_parser.Transaction.Events.{Event, input, output, Log, record_input, record_output}
use blockchain_zc_parser.Transaction.Serialise.{serialise, TxFits, serialise-TxFormat}
use blockchain_zc_parser.Transaction.Fits.{TxFormat-fits, serialise_shortest}

-- What `parse_with` returns of a transaction.
abbrev pub summary : Tx → Summary
summary x = (x.version, x.locktime, length x.inputs, length x.outputs)

-- The calls for a transaction: its inputs, and then its outputs.
abbrev pub calls : Tx → Log
calls x = map input x.inputs ++ map output x.outputs

module _ {A : Type 0} (event : A → Event) where
  abbrev pub recording : Callback Log A
  recording a log = (ok tt, log ++ event a ∷ [])

  pub for_each-recording :
      (as' : List A) (log : Log) → for_each recording as' log ≡ (ok tt, log ++ map event as')
  for_each-recording [] log = ap (λ l. (ok tt, l)) (sym (append-nil log))
  for_each-recording (a ∷ as') log =
      for_each-recording as' (log ++ event a ∷ [])
      ∙ ap (λ l. (ok tt, l)) (append_assoc log (event a ∷ []) (map event as'))

  pub recording-IsTotal : IsTotal recording
  recording-IsTotal a log e = cc

module _ (t : Target) where
  -- A transaction whose values fit their types and the limits, serialised with the shortest counts and
  -- lengths, is parsed back to itself, whatever bytes follow it: the closures are called with its inputs
  -- and then its outputs in their order, the result is its version, lock time and counts, and the cursor
  -- stands behind it. The cursor is valid.
  pub parse_with-serialise :
      (c : Cursor) (x : Tx) (rest : List ℕ)
      → TxFits x
      → IsValid t c
      → unread c ≡ serialise x ++ rest
      → parse_with t record_input record_output (c, [])
        ≡ (ok (summary x), (advance c (length (serialise x)), calls x))
  parse_with-serialise c x rest f v u =
      (parse_with-Streams t record_input record_output (recording-IsTotal input)
          (recording-IsTotal output)).complete
        c [] (summary x) (serialise x) rest (calls x) v
        (
          x,
          map input x.inputs,
          serialise-TxFormat x f,
          for_each-recording input x.inputs [],
          for_each-recording output x.outputs (map input x.inputs),
          refl,
        )
        u

  -- What `parse_with` accepts is a transaction whose values fit the types of their fields and the limits:
  -- the result is its version, lock time and counts, the closures were called with its inputs and then
  -- its outputs, and serialised it is no longer than the bytes that were read. The cursor is valid.
  pub parse_with-TxFits :
      (c c' : Cursor) (r : Summary) (log : Log)
      → IsValid t c
      → parse_with t record_input record_output (c, []) ≡ (ok r, (c', log))
      → (x : Tx) × TxFits x
        × (r ≡ summary x)
        × (log ≡ calls x)
        × (c.pos + length (serialise x) ≤ c'.pos)
  parse_with-TxFits c c' r log v e =
      let (bs, rest, (x, m, f, run, hrun, hr), u, moved) =
        (parse_with_iff t record_input record_output c [] r c' log (recording-IsTotal input)
            (recording-IsTotal output) v).0
          e in
      let first : m ≡ map input x.inputs = state (sym run ∙ for_each-recording input x.inputs []) in
      (
        x,
        TxFormat-fits x bs f,
        hr,
        state (sym hrun ∙ for_each-recording output x.outputs m)
            ∙ ap (λ l. l ++ map output x.outputs) first,
        omega (arith, ap (λ k. k.pos) moved, serialise_shortest x bs f),
      )
    where
      state : {l k : Log} → ◌≡◌ {A = ParseResult (Unit {0}) × Log} (ok tt, l) (ok tt, k) → l ≡ k
      state q = ap (λ p. p.1) q

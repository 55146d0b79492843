-- ===== src/Block/Next.antt =====
-- `BlockTxIter::next_tx`: a transaction parsed from the unread slice, and the skip over it.
use blockchain_zc_parser.Base.{
  ℕ, ◌+◌, ◌≤◌, ◌<◌, ◌≡◌, refl, ap, ◌∙◌, List, ◌++◌, length, Bool, true, false, lt→leb, le→leb,
  arith,
}
use blockchain_zc_parser.Error.{ParseResult, ok, err, fault, IsEof}
use blockchain_zc_parser.Action.{after}
use blockchain_zc_parser.Target.{Target}
use blockchain_zc_parser.Cursor.{Cursor, new, position, skip}
use blockchain_zc_parser.Cursor.Format.{unread, advance, IsValid}
use blockchain_zc_parser.Transaction.{TxInput, TxOutput, Callback, on_cursor, parse_with}
use blockchain_zc_parser.Transaction.Witnesses.{new-IsValid, as_slice_lem}
use blockchain_zc_parser.Transaction.Skip.{skip_front}
use blockchain_zc_parser.Transaction.Stream.{StreamFormat, StreamRan, accepted, rejected, Streams}
use blockchain_zc_parser.Transaction.Loops.{for_each, IsTotal}
use blockchain_zc_parser.Transaction.Tail.{Summary}
use blockchain_zc_parser.Transaction.Whole.{Tx, TxFormat, Parsed}
use blockchain_zc_parser.Transaction.Parse.{parse_with-Streams}
use blockchain_zc_parser.Block.{BlockTxIter, parse_next, next_tx}
use native.Mathlib.Nat.{zero-add}

-- The closures over the inputs and then the outputs of a transaction.
abbrev pub Handled : {S : Type 0} → Callback S TxInput → Callback S TxOutput → Tx → S → S → Type 0
Handled {S} on_input on_output x s s' =
    (m : S) × (for_each on_input x.inputs s ≡ (ok tt, m))
    × (for_each on_output x.outputs m ≡ (ok tt, s'))

-- A transaction that the closures take.
abbrev pub Taken :
    {S : Type 0} → Callback S TxInput → Callback S TxOutput → StreamFormat S (Unit {0})
Taken on_input on_output _ s bs s' = (x : Tx) × TxFormat x bs × Handled on_input on_output x s s'

abbrev summary : Tx → Summary
summary x = (x.version, x.locktime, length x.inputs, length x.outputs)

module _ (t : Target) {S : Type 0} (on_input : Callback S TxInput) (on_output : Callback S TxOutput)
    (total_in : IsTotal on_input) (total_out : IsTotal on_output) where
  abbrev pub resume :
      Cursor → ParseResult Summary × (Cursor × S) → ParseResult (Unit {0}) × (Cursor × S)
  resume c (r, (p, s')) = after (r, (c, s')) λ _. on_cursor (skip t (position p))

  module _ (c : Cursor) (s : S) (v : IsValid t c) where
    pub parse_next-resume :
        parse_next t on_input on_output (c, s)
        ≡ resume c (parse_with t on_input on_output (new (unread c), s))
    unfolding parse_next
    parse_next-resume = rw (as_slice_lem t c v)

    resume_front :
        (r : Summary) (bs rest : List ℕ) (s' : S)
        → unread c ≡ bs ++ rest
        → resume c (ok r, (advance (new (unread c)) (length bs), s'))
          ≡ (ok tt, (advance c (length bs), s'))
    resume_front r bs rest s' e =
        rw (skip_front t c v (0 + length bs) bs rest e (zero-add (length bs)))

    resume_sound :
        (d : ParseResult Summary × (Cursor × S))
        → StreamRan (Parsed on_input on_output) (new (unread c)) s d.0 d.1
        → StreamRan (Taken on_input on_output) c s (resume c d).0 (resume c d).1
    resume_sound (ok r, (p, s')) (accepted bs rest (x, m, f, run, hrun, _) u q) =
        rw (q, skip_front t c v (0 + length bs) bs rest u (zero-add (length bs)))
          (accepted bs rest (x, f, (m, run, hrun)) u refl)
    resume_sound (err e, (p, s')) h = rejected refl (omega arith) v.fits
    resume_sound (fault, d) h = elim h [ ]

    resume_truncated : (d : ParseResult Summary × (Cursor × S)) → IsEof d.0 → IsEof (resume c d).0
    resume_truncated (ok r, d) (n, k, e, l) = cc
    resume_truncated (err x, d) (n, k, e, l) = (n, k, cc, l)
    resume_truncated (fault, d) (n, k, e, l) = cc

  parses : Streams t (parse_with t on_input on_output) (Parsed on_input on_output)
  parses = parse_with-Streams t on_input on_output total_in total_out

  pub parse_next-Streams : Streams t (parse_next t on_input on_output) (Taken on_input on_output)
  parse_next-Streams = record {
    sound = λ c s v.
        rw (parse_next-resume c s v)
          (resume_sound c s v _ (parses.sound (new (unread c)) s (new-IsValid t c v)));
    complete = λ c s a bs rest s' v (x, f, (m, run, hrun)) u.
        parse_next-resume c s v
        ∙ (ap (resume c) (
              parses.complete (new (unread c)) s (summary x) bs rest s' (new-IsValid t c v)
                (x, m, f, run, hrun, refl) u)
            ∙ resume_front c s v (summary x) bs rest s' u);
    truncated = λ c s a y back s' v (x, f, (m, run, hrun)). rw (parse_next-resume c s v) (
        resume_truncated c s v (parse_with t on_input on_output (new (unread c), s)) (
          parses.truncated (new (unread c)) s (summary x) y back s' (new-IsValid t c v)
            (x, m, f, run, hrun, refl)));
  }

module _ (t : Target) {S : Type 0} (on_input : Callback S TxInput)
    (on_output : Callback S TxOutput) where
  abbrev pub count :
      BlockTxIter → ParseResult (Unit {0}) × (Cursor × S) → ParseResult Bool × (BlockTxIter × S)
  count it (r, (c, s')) =
      after (r, (record it { cursor = c }, s'))
        λ _ (it, s). (ok true, (record it { consumed = it.consumed + 1 }, s))

  -- At the end of the block nothing happens.
  pub next_tx_done :
      (it : BlockTxIter) (s : S)
      → it.total ≤ it.consumed
      → next_tx t on_input on_output (it, s) ≡ (ok false, (it, s))
  unfolding next_tx
  next_tx_done it s h = rw (le→leb it.total it.consumed h)

  pub next_tx_more :
      (it : BlockTxIter) (s : S)
      → it.consumed < it.total
      → next_tx t on_input on_output (it, s)
        ≡ count it (parse_next t on_input on_output (it.cursor, s))
  unfolding next_tx
  next_tx_more it s h = rw (lt→leb it.total it.consumed h)

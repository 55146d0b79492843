-- ===== src/Block/Invariant.antt =====
-- An invariant of the closures' state through `next_tx`.
use blockchain_zc_parser.Base.{ℕ, ◌≤◌, ◌<◌, ◌⊎◌, inl, inr, List, arith}
use blockchain_zc_parser.Error.{ParseResult, ok, err, fault}
use blockchain_zc_parser.Action.{after}
use blockchain_zc_parser.Target.{Target}
use blockchain_zc_parser.Cursor.{Cursor, new, as_slice, position, skip}
use blockchain_zc_parser.Transaction.{TxInput, TxOutput, Callback, Streaming, on_cursor, parse_with}
use blockchain_zc_parser.Transaction.Tail.{Summary}
use blockchain_zc_parser.Transaction.Invariant.{IsKept, Keeps, after_keeps, parse_with-Keeps}
use blockchain_zc_parser.Block.{BlockTxIter, parse_next, next_tx}
use blockchain_zc_parser.Block.Next.{next_tx_done, next_tx_more, count}

module _ (t : Target) {S : Type 0} (on_input : Callback S TxInput) (on_output : Callback S TxOutput)
    (P : S → Type 0) (keep_in : IsKept P on_input) (keep_out : IsKept P on_output) where
  -- What `parse_next` does with the unread slice.
  abbrev on_rest : List ℕ → Streaming S (Unit {0})
  on_rest rest (c, s) =
      let (r, (p, s')) = parse_with t on_input on_output (new rest, s) in
      after (r, (c, s')) λ _. on_cursor (skip t (position p))

  skip-Keeps : (p : Cursor) → Keeps P (on_cursor (skip t (position p)))
  skip-Keeps p = record { keeps = λ c s h. h }

  on_rest-Keeps : (rest : List ℕ) → Keeps P (on_rest rest)
  on_rest-Keeps rest = record {
    keeps = λ c s h.
        let d : ParseResult Summary × (Cursor × S) =
          parse_with t on_input on_output (new rest, s) in
        after_keeps (d.0, (c, d.1.1))
          ((parse_with-Keeps t on_input on_output P keep_in keep_out).keeps (new rest) s h)
          (λ _. skip-Keeps d.1.0);
  }

  parse_next-Keeps : Keeps P (parse_next t on_input on_output)
  unfolding parse_next
  parse_next-Keeps = record { keeps = λ c s h. after_keeps (as_slice c, (c, s)) h on_rest-Keeps }

  counted :
      (it : BlockTxIter) (d : ParseResult (Unit {0}) × (Cursor × S))
      → P d.1.1
      → P (count t on_input on_output it d).1.1
  counted it (ok u, d) h = h
  counted it (err e, d) h = h
  counted it (fault, d) h = h

  -- What every call of the two closures keeps of their state, `next_tx` keeps, on any iterator, whatever
  -- its bytes, and whatever its result.
  pub next_tx-Keeps :
      (it : BlockTxIter) (s : S) → P s → P (next_tx t on_input on_output (it, s)).1.1
  next_tx-Keeps it s h = go (omega arith)
    where
      go :
          (it.total ≤ it.consumed) ⊎ (it.consumed < it.total)
          → P (next_tx t on_input on_output (it, s)).1.1
      go (inl l) = rw (next_tx_done t on_input on_output it s l) h
      go (inr l) = rw (next_tx_more t on_input on_output it s l) (
          counted it (parse_next t on_input on_output (it.cursor, s))
            (parse_next-Keeps.keeps it.cursor s h))

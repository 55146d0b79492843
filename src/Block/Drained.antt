-- ===== src/Block/Drained.antt =====
-- `next_tx` called again and again, as in `while iter.next_tx(…)? {}`, up to its `Ok(false)`.
use blockchain_zc_parser.Base.{
  ℕ, suc, ◌+◌, ◌≤◌, ◌<◌, ◌≡◌, ◌⊎◌, inl, inr, refl, sym, ap, ◌∙◌, subst, List, [], ◌∷◌, ◌++◌, length,
  append_assoc, true, false, arith,
}
use blockchain_zc_parser.Error.{ParseResult, ok, err, fault}
use blockchain_zc_parser.Target.{Target}
use blockchain_zc_parser.Cursor.{Cursor}
use blockchain_zc_parser.Cursor.Format.{unread, advance, IsValid, unread-advance, advance-IsValid}
use blockchain_zc_parser.Cursor.Rules.{advance-advance}
use blockchain_zc_parser.Cursor.Checks.{Many, advance_zero}
use blockchain_zc_parser.Transaction.{TxInput, TxOutput, Callback}
use blockchain_zc_parser.Transaction.Loops.{IsTotal}
use blockchain_zc_parser.Transaction.Whole.{Tx, TxFormat}
use blockchain_zc_parser.Block.{BlockTxIter, parse_next, next_tx, rounds}
use blockchain_zc_parser.Block.Next.{Handled, parse_next-Streams, next_tx_more, next_tx_done, count}
use blockchain_zc_parser.Block.StrictRounds.{HandledAll}

-- `n` calls of `next_tx`, one behind another, that all return `Ok(true)`.
pub data Calls (t : Target) {S : Type 0} (on_input : Callback S TxInput)
    (on_output : Callback S TxOutput) : ℕ → BlockTxIter × S → BlockTxIter × S → Type 0 where
  no_call : {d : BlockTxIter × S} → Calls t on_input on_output 0 d d
  then_call :
      {n : ℕ} {d e f : BlockTxIter × S}
      → next_tx t on_input on_output d ≡ (ok true, e)
      → Calls t on_input on_output n e f
      → Calls t on_input on_output (suc n) d f

-- The iterator and the closures' state behind the last transaction, from where the next call returns
-- `Ok(false)` and changes nothing.
pub record Drained (t : Target) {S : Type 0} (on_input : Callback S TxInput)
    (on_output : Callback S TxOutput) (it : BlockTxIter) (s : S) (n size : ℕ) (s' : S)
    : Type 0 where
  pub last : BlockTxIter
  pub calls : Calls t on_input on_output n (it, s) (last, s')
  pub all : last.consumed ≡ it.total
  pub same_total : last.total ≡ it.total
  pub stands : last.cursor ≡ advance it.cursor size
  pub ended : next_tx t on_input on_output (last, s') ≡ (ok false, (last, s'))

module _ (t : Target) {S : Type 0} (on_input : Callback S TxInput)
    (on_output : Callback S TxOutput) where
  count-true :
      (it : BlockTxIter) (d : ParseResult (Unit {0}) × (Cursor × S)) (e : BlockTxIter × S)
      → count t on_input on_output it d ≡ (ok true, e)
      → (e.0.consumed ≡ it.consumed + 1) × (e.0.total ≡ it.total)
  count-true it (ok u, (c, s)) e q =
      (sym (ap (λ k. k.1.0.consumed) q), sym (ap (λ k. k.1.0.total) q))
  count-true it (err x, d) e q = absurd (cc)
  count-true it (fault, d) e q = absurd (cc)

  call_counted :
      (it : BlockTxIter) (s : S) (e : BlockTxIter × S)
      → next_tx t on_input on_output (it, s) ≡ (ok true, e)
      → (it.consumed < it.total) × (e.0.consumed ≡ it.consumed + 1) × (e.0.total ≡ it.total)
  call_counted it s e q = go (omega arith)
    where
      go :
          (it.total ≤ it.consumed) ⊎ (it.consumed < it.total)
          → (it.consumed < it.total) × (e.0.consumed ≡ it.consumed + 1) × (e.0.total ≡ it.total)
      go (inl l) = absurd (cc (q, next_tx_done t on_input on_output it s l))
      go (inr l) =
          let (a, b) =
            count-true it (parse_next t on_input on_output (it.cursor, s)) e
              (sym (next_tx_more t on_input on_output it s l) ∙ q) in
          (l, a, b)

  -- Of the calls of `next_tx` made one behind another on any iterator, whatever its bytes and the
  -- closures, at most `total - consumed` return `Ok(true)`: each of them counts one transaction more
  -- and leaves the total as it was, so a loop that goes on while they do has no more rounds.
  pub calls_bounded :
      (n : ℕ) (d e : BlockTxIter × S)
      → Calls t on_input on_output n d e
      → (n ≤ rounds d.0) × (e.0.consumed ≡ d.0.consumed + n) × (e.0.total ≡ d.0.total)
  calls_bounded _ d _ no_call = (omega arith, omega arith, refl)
  calls_bounded _ (it, s) f (then_call {n} {e} q k) =
      let (l, a, b) = call_counted it s e q in
      let (m, c, g) = calls_bounded n e f k in
      (omega (arith, l, a, b, m), omega (arith, a, c), g ∙ b)

  module _ (total_in : IsTotal on_input) (total_out : IsTotal on_output) where
    next_tx_taken :
        (it : BlockTxIter) (s m : S) (x : Tx) (bs rest : List ℕ)
        → IsValid t it.cursor
        → it.consumed < it.total
        → TxFormat x bs
        → Handled on_input on_output x s m
        → unread it.cursor ≡ bs ++ rest
        → next_tx t on_input on_output (it, s) ≡ (
          ok true,
          (
            record {
              cursor = advance it.cursor (length bs);
              total = it.total;
              consumed = it.consumed + 1;
            },
            m,
          ),
        )
    next_tx_taken it s m x bs rest v l f h u =
        next_tx_more t on_input on_output it s l
        ∙ ap (count t on_input on_output it) (
            (parse_next-Streams t on_input on_output total_in total_out).complete it.cursor s tt bs
              rest m v (x, f, h) u)

    -- As many transactions as are left to read, whole and one behind another at the cursor, are all
    -- taken, if the closures take their elements: so many calls of `next_tx` return `Ok(true)`, and the
    -- next returns `Ok(false)`, with the cursor behind the last transaction. The cursor is valid and the
    -- closures do not panic.
    pub next_tx-Drained :
        (txs : List Tx) (it : BlockTxIter) (s s' : S) (bs rest : List ℕ)
        → IsValid t it.cursor
        → it.total ≡ it.consumed + length txs
        → Many TxFormat txs bs
        → unread it.cursor ≡ bs ++ rest
        → HandledAll on_input on_output txs s s'
        → Drained t on_input on_output it s (length txs) (length bs) s'
    next_tx-Drained [] it s s' bs rest v l many u h = record {
      last = it;
      calls = subst (λ k. Calls t on_input on_output 0 (it, s) (it, k)) (sym h) no_call;
      all = omega arith;
      same_total = refl;
      stands = rw many (advance_zero it.cursor);
      ended = next_tx_done t on_input on_output it s' (omega arith);
    }
    next_tx-Drained (x ∷ txs) it s s' bs rest v l (xs, ys, fx, many, g) u (m, hx, h) =
        let first : unread it.cursor ≡ xs ++ (ys ++ rest) =
          u ∙ (ap (λ k. k ++ rest) g ∙ append_assoc xs ys rest) in
        let next : BlockTxIter = record {
          cursor = advance it.cursor (length xs);
          total = it.total;
          consumed = it.consumed + 1;
        } in
        let d =
          next_tx-Drained txs next m s' ys rest
            (advance-IsValid t it.cursor v xs (ys ++ rest) first) (omega (arith, l)) many
            (unread-advance t it.cursor v xs (ys ++ rest) first) h in
        record {
          last = d.last;
          calls =
              then_call (next_tx_taken it s m x xs (ys ++ rest) v (omega (arith, l)) fx hx first)
                d.calls;
          all = d.all;
          same_total = d.same_total;
          stands =
              d.stands
              ∙ (advance-advance it.cursor xs ys ∙ ap (λ k. advance it.cursor (length k)) (sym g));
          ended = d.ended;
        }

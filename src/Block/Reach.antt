-- ===== src/Block/Reach.antt =====
-- The states of `BlockTxIter` that calls of `next_tx` lead to, in any number, whether they succeed or
-- not, and with whatever the caller does to its own state between them.
use blockchain_zc_parser.Base.{
  ℕ, ◌+◌, ◌≤◌, ◌<◌, ◌≡◌, ◌⊎◌, inl, inr, refl, sym, ap, ◌∙◌, subst, List, [], ◌∷◌, ◌++◌, length,
  length-append, append_assoc, append-nil, arith,
}
use blockchain_zc_parser.Error.{ParseResult, ok, err, fault}
use blockchain_zc_parser.Target.{Target}
use blockchain_zc_parser.Cursor.{Cursor}
use blockchain_zc_parser.Cursor.Format.{
  unread, advance, IsValid, Format, unread-advance, advance-IsValid,
}
use blockchain_zc_parser.Cursor.Rules.{advance-advance}
use blockchain_zc_parser.Cursor.Checks.{Many, advance_zero}
use blockchain_zc_parser.Transaction.{TxInput, TxOutput, Callback}
use blockchain_zc_parser.Transaction.Stream.{StreamRan, accepted}
use blockchain_zc_parser.Transaction.Loops.{IsTotal}
use blockchain_zc_parser.Transaction.Whole.{Tx, TxFormat}
use blockchain_zc_parser.Block.{BlockTxIter, parse_next, next_tx}
use blockchain_zc_parser.Block.Next.{Taken, parse_next-Streams, next_tx_more, next_tx_done, count}
use blockchain_zc_parser.Block.Accepted.{next_tx_err}

pub data Reaches (t : Target) {S : Type 0} (on_input : Callback S TxInput)
    (on_output : Callback S TxOutput) (start : BlockTxIter × S) : BlockTxIter × S → Type 0 where
  here : Reaches t on_input on_output start start
  called :
      {d e : BlockTxIter × S}
      → Reaches t on_input on_output start d
      → (next_tx t on_input on_output d).1 ≡ e
      → Reaches t on_input on_output start e
  changed :
      {it : BlockTxIter} {s s' : S}
      → Reaches t on_input on_output start (it, s)
      → Reaches t on_input on_output start (it, s')

-- The iterator `it` stands behind whole transactions that it has counted, from where `from` stands.
pub record Reading (from it : BlockTxIter) : Type 0 where
  pub txs : List Tx
  pub read : List ℕ
  pub rest : List ℕ
  pub parsed : Many TxFormat txs read
  pub counted : it.consumed ≡ from.consumed + length txs
  pub within : it.consumed ≤ it.total
  pub same_total : it.total ≡ from.total
  pub begun : unread from.cursor ≡ read ++ rest
  pub stands : it.cursor ≡ advance from.cursor (length read)

Many-append :
    {A : Type 0} (F : Format A) (xs : List A) (a : A) (bs ys : List ℕ)
    → Many F xs bs
    → F a ys
    → Many F (xs ++ (a ∷ [])) (bs ++ ys)
Many-append F [] a bs ys h f = rw h (ys, [], f, refl, sym (append-nil ys))
Many-append F (x ∷ xs) a bs ys (us, vs, g, h, e) f =
    (us, vs ++ ys, g, Many-append F xs a vs ys h f, rw e (append_assoc us vs ys))

module _ (t : Target) {S : Type 0} (on_input : Callback S TxInput) (on_output : Callback S TxOutput)
    (total_in : IsTotal on_input) (total_out : IsTotal on_output) (from : BlockTxIter)
    (v : IsValid t from.cursor) where
  reading-IsValid : {it : BlockTxIter} → Reading from it → IsValid t it.cursor
  reading-IsValid r =
      subst (IsValid t) (sym r.stands) (advance-IsValid t from.cursor v r.read r.rest r.begun)

  one_more :
      {it : BlockTxIter} (r : Reading from it) (c : Cursor) (x : Tx) (bs rest : List ℕ)
      → it.consumed < it.total
      → TxFormat x bs
      → unread it.cursor ≡ bs ++ rest
      → c ≡ advance it.cursor (length bs)
      → Reading from (record { cursor = c; total = it.total; consumed = it.consumed + 1 })
  one_more {it} r c x bs rest l f u q = record {
    txs = r.txs ++ (x ∷ []);
    read = r.read ++ bs;
    rest = rest;
    parsed = Many-append TxFormat r.txs x r.read bs r.parsed f;
    counted = omega (arith, r.counted, length-append r.txs (x ∷ []));
    within = omega arith;
    same_total = r.same_total;
    begun = r.begun ∙ (ap (λ k. r.read ++ k) left ∙ sym (append_assoc r.read bs rest));
    stands = q ∙ (ap (λ k. advance k (length bs)) r.stands ∙ advance-advance from.cursor r.read bs);
  }
    where
      left : r.rest ≡ bs ++ rest
      left =
          sym (unread-advance t from.cursor v r.read r.rest r.begun)
          ∙ (ap unread (sym r.stands) ∙ u)

  one_call :
      {it : BlockTxIter} (s : S)
      → Reading from it
      → Reading from (next_tx t on_input on_output (it, s)).1.0
  one_call {it} s r = by_left (omega arith)
    where
      by_result :
          it.consumed < it.total
          → (d : ParseResult (Unit {0}) × (Cursor × S))
          → StreamRan (Taken on_input on_output) it.cursor s d.0 d.1
          → parse_next t on_input on_output (it.cursor, s) ≡ d
          → Reading from (count t on_input on_output it d).1.0
      by_result l (ok u, (c, m)) (accepted bs rest (x, f, h) e q) k = one_more r c x bs rest l f e q
      by_result l (err e, (c, m)) h k =
          subst (Reading from)
            (sym (
              next_tx_err t on_input on_output total_in total_out it s (reading-IsValid r)
                (record it { cursor = c }) m e
                (next_tx_more t on_input on_output it s l ∙ ap (count t on_input on_output it) k)))
            r
      by_result l (fault, d) h k = elim h [ ]

      by_left :
          (it.total ≤ it.consumed) ⊎ (it.consumed < it.total)
          → Reading from (next_tx t on_input on_output (it, s)).1.0
      by_left (inl h) = rw (next_tx_done t on_input on_output it s h) r
      by_left (inr h) = rw (next_tx_more t on_input on_output it s h) (
          by_result h (parse_next t on_input on_output (it.cursor, s))
            ((parse_next-Streams t on_input on_output total_in total_out).sound it.cursor s
              (reading-IsValid r))
            refl)

  nothing_read : from.consumed ≤ from.total → Reading from from
  nothing_read l = record {
    txs = [];
    read = [];
    rest = unread from.cursor;
    parsed = refl;
    counted = omega arith;
    within = l;
    same_total = refl;
    begun = refl;
    stands = advance_zero from.cursor;
  }

  -- Whatever calls of `next_tx` a program makes on an iterator, in any number, failed calls included,
  -- and whatever it does to its own state between them: the iterator's cursor stands behind as many
  -- whole transactions as were counted since the start, no more than the total, which has not changed.
  -- At the start the cursor is valid and no more is consumed than the total; the closures do not panic.
  pub Reaches-Reading :
      (s : S) (it : BlockTxIter) (s' : S)
      → from.consumed ≤ from.total
      → Reaches t on_input on_output (from, s) (it, s')
      → Reading from it
  Reaches-Reading s it s' l h = reached h
    where
      reached : {d : BlockTxIter × S} → Reaches t on_input on_output (from, s) d → Reading from d.0
      reached here = nothing_read l
      reached (called {d} k q) = subst (λ e. Reading from e.0) q (one_call d.1 (reached k))
      reached (changed k) = reached k

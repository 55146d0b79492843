-- ===== src/Example/Summary.antt =====
-- `main` over the bytes of a block: when it succeeds, and what its counters hold.
use blockchain_zc_parser.Base.{
  ℕ, suc, ◌+◌, ◌≤◌, ◌≡◌, ◌↔◌, refl, sym, ap, ◌∙◌, subst, List, [], ◌∷◌, ◌++◌, append-nil, length,
  length-append, arith,
}
use blockchain_zc_parser.Error.{ParseResult, ok, err, fault}
use blockchain_zc_parser.Action.{after}
use blockchain_zc_parser.Target.{Target}
use blockchain_zc_parser.Cursor.{new}
use blockchain_zc_parser.Cursor.Format.{
  IsValid, unread, advance, length-unread, unread-advance, advance-IsValid,
}
use blockchain_zc_parser.Cursor.Checks.{Many}
use blockchain_zc_parser.Transaction.Whole.{Tx, TxFormat}
use blockchain_zc_parser.Block.{BlockHeader, BlockTxIter, new_iter, rounds}
use blockchain_zc_parser.Block.Header.{PrefixFormat}
use blockchain_zc_parser.Block.Accepted.{new_iter_iff}
use blockchain_zc_parser.Block.Rounds.{at_end}
use blockchain_zc_parser.Example.Opts.{Opts}
use blockchain_zc_parser.Example.Loop.{
  while_next, Ended, ended, while_next_sound, while_next_complete,
}
use blockchain_zc_parser.Example.Report.{
  opened, on_input, on_output, count_tx, close, drop_iter, summarise_from, summarise,
}
use blockchain_zc_parser.Example.Lines.{Report}
use blockchain_zc_parser.Example.Tally.{
  tally, passed, Passed-passes, on_input-IsTotal, on_output-IsTotal,
}
use blockchain_zc_parser.Example.Listing.{coinbases_of}
use blockchain_zc_parser.Example.Closing.{BlockFormat, Totals, close-inv, close-ok, tally-Totals}

module _ (t : Target) (o : Opts) (size : ℕ) (h : BlockHeader) (it : BlockTxIter)
    (fresh : it.consumed ≡ 0) (v : IsValid t it.cursor) where
  abbrev closing : ParseResult (Unit {0}) × (BlockTxIter × Report) → ParseResult (Unit {0}) × Report
  closing d = drop_iter (after d (λ _. close o size))

  abbrev looped : ParseResult (Unit {0}) × (BlockTxIter × Report)
  looped = while_next t (on_input o) (on_output o) count_tx (suc (rounds it)) (it, opened h it)

  -- All the unread bytes.
  whole :
      (bs rest : List ℕ)
      → unread it.cursor ≡ bs ++ rest
      → length it.cursor.bytes ≤ it.cursor.pos + length bs
      → unread it.cursor ≡ bs
  whole bs [] e z = e ∙ append-nil bs
  whole bs (x ∷ rest) e z = absurd (
      omega
        (arith, z, ap length e, length-append bs (x ∷ rest), length-unread t it.cursor v, v.fits))

  closing_sound :
      (d : ParseResult (Unit {0}) × (BlockTxIter × Report))
      → Ended (on_input o) (on_output o) count_tx it (opened h it) d.0 d.1
      → (closing d).0 ≡ ok tt
      → (txs : List Tx) × (length txs ≡ it.total)
        × Many TxFormat txs (unread it.cursor)
        × (coinbases_of txs ≡ 1)
  closing_sound (ok u, (e, r)) (ended txs bs rest l many g pass q) k =
      let (_, full, one) = close-inv o size e r k in
      let all : unread it.cursor ≡ bs = whole bs rest g (rw q at full) in
      let (i, c, w) =
        tally-Totals txs r (tally (opened h it)) refl refl refl refl
          (Passed-passes o txs (opened h it) r pass) in
      (txs, omega (arith, l, fresh), rw all many, sym c ∙ one)
  closing_sound (err x, d) p k = absurd (cc)
  closing_sound (fault, d) p k = elim p [ ]

  closing_complete :
      (txs : List Tx)
      → length txs ≡ it.total
      → Many TxFormat txs (unread it.cursor)
      → coinbases_of txs ≡ 1
      → ((closing looped).0 ≡ ok tt) × Totals txs (closing looped).1
  closing_complete txs l many one =
      let (m, p, q) = passed o txs (opened h it) in
      let tot : Totals txs m = tally-Totals txs m (tally (opened h it)) refl refl refl refl q in
      let run : looped ≡ (ok tt, (at_end it (length (unread it.cursor)), m)) =
        while_next_complete t (on_input o) (on_output o) count_tx (on_input-IsTotal o)
          (on_output-IsTotal o) txs (suc (rounds it)) it (opened h it) m (unread it.cursor) [] v
          (omega (arith, l, fresh)) (omega (arith, l, fresh)) many (sym (append-nil _)) p in
      let (c, w) =
        close-ok o size (at_end it (length (unread it.cursor))) m refl
          (omega (arith, length-unread t it.cursor v, v.fits)) (tot.1 ∙ one) in
      rw run (
        c,
        (ap (λ k. k.idx) w ∙ tot.0, ap (λ k. k.coinbases) w ∙ tot.1, ap (λ k. k.value) w ∙ tot.2),
      )

module _ (t : Target) (o : Opts) (bytes : List ℕ) (v : IsValid t (new bytes)) where
  -- On the bytes of a block with one coinbase, wherever it stands, `main` succeeds whatever the options,
  -- and its counters hold the number of the transactions, that of the coinbases, and the sum of all the
  -- outputs' values, or the largest `u64` if the sum is above it. The bytes make a valid cursor.
  pub summarise-Totals :
      (h : BlockHeader) (txs : List Tx)
      → BlockFormat h txs bytes
      → coinbases_of txs ≡ 1
      → ((summarise t o bytes).0 ≡ ok tt) × Totals txs (summarise t o bytes).1
  unfolding summarise summarise_from
  summarise-Totals h txs (xs, ys, f, many, e) one =
      rw ((new_iter_iff t bytes h it v).1 ((xs, ys, f, e, refl), refl)) (
        closing_complete t o (length bytes) h it refl (advance-IsValid t (new bytes) v xs ys e) txs
          refl (subst (Many TxFormat txs) (sym (unread-advance t (new bytes) v xs ys e)) many) one)
    where
      it : BlockTxIter
      it = record { cursor = advance (new bytes) (length xs); total = length txs; consumed = 0 }

  from_header :
      (k : ParseResult (BlockHeader × BlockTxIter))
      → new_iter t bytes ≡ k
      → (summarise_from t o (length bytes) k).0 ≡ ok tt
      → (h : BlockHeader) × (txs : List Tx) × BlockFormat h txs bytes × (coinbases_of txs ≡ 1)
  unfolding summarise_from
  from_header (ok (h, it)) e k =
      let ((xs, rest, f, u, c), fresh) = (new_iter_iff t bytes h it v).0 e in
      let w : IsValid t it.cursor = rw c (advance-IsValid t (new bytes) v xs rest u) in
      let (txs, l, many, one) =
        closing_sound t o (length bytes) h it fresh w _
          (while_next_sound t (on_input o) (on_output o) count_tx (on_input-IsTotal o)
            (on_output-IsTotal o) (suc (rounds it)) it (opened h it) w (omega (arith, fresh))
            (omega arith))
          k in
      (
        h,
        txs,
        (
          xs,
          rest,
          subst (λ n. PrefixFormat (h, n) xs) (sym l) f,
          subst (Many TxFormat txs) (ap unread c ∙ unread-advance t (new bytes) v xs rest u) many,
          u,
        ),
        one,
      )
  from_header (err x) e k = absurd (cc)
  from_header fault e k = absurd (cc)

  -- `main` succeeds on the bytes of a block, whatever the options, exactly when they are a header, an
  -- encoding of a number within the limit and as many transactions, and nothing more, and exactly one
  -- of the transactions is a coinbase. The bytes make a valid cursor.
  pub summarise_iff :
      ((summarise t o bytes).0 ≡ ok tt)
      ↔ ((h : BlockHeader) × (txs : List Tx) × BlockFormat h txs bytes × (coinbases_of txs ≡ 1))
  unfolding summarise
  summarise_iff =
      (from_header (new_iter t bytes) refl, λ (h, txs, f, one). (summarise-Totals h txs f one).0)

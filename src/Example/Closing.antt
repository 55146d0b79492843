-- ===== src/Example/Closing.antt =====
-- What `main` does behind its loop: the checks, and the totals.
use Prim.Native.Nat.{min}
use blockchain_zc_parser.Base.{
  ◌-◌, ◌^◌, ℕ, ◌≤◌, ◌≡◌, refl, sym, ap, ◌∙◌, List, ◌++◌, length, false, not, ◌==◌, if◌then◌else◌,
  arith,
}
use blockchain_zc_parser.Error.{ParseResult, ok, err, fault, invalid_coinbase_count}
use blockchain_zc_parser.Action.{after}
use blockchain_zc_parser.Cursor.Checks.{Many}
use blockchain_zc_parser.Transaction.Whole.{Tx, TxFormat}
use blockchain_zc_parser.Block.{
  BlockHeader, BlockTxIter, finish_strict, bytes_remaining, bytes_consumed,
}
use blockchain_zc_parser.Block.Header.{PrefixFormat}
use blockchain_zc_parser.Block.Accepted.{finish_strict_iff}
use blockchain_zc_parser.Example.Opts.{Opts}
use blockchain_zc_parser.Example.Report.{stats, totals, missing_tx, close}
use blockchain_zc_parser.Example.Lines.{Report, print, after_strict_check}
use blockchain_zc_parser.Example.Tally.{Tally, tally, tally-print_if, passes}
use blockchain_zc_parser.Example.Listing.{coinbases_of, outputs_of, sum_of}
use blockchain_zc_parser.Example.Totals.{passes_lem, sum_from_lem}

-- The bytes of a block: its header, the number of its transactions and the transactions, and no more.
abbrev pub BlockFormat : BlockHeader → List Tx → List ℕ → Type 0
BlockFormat h txs bytes =
    (xs : List ℕ) × (ys : List ℕ) × PrefixFormat (h, length txs) xs
    × Many TxFormat txs ys
    × (bytes ≡ xs ++ ys)

tally-missing_tx : (o : Opts) (r : Report) → tally (missing_tx o r) ≡ tally r
unfolding missing_tx
tally-missing_tx o r = ground arith

pub tally-stats :
    (o : Opts) (size : ℕ) (it : BlockTxIter) (r : Report) → tally (stats o size it r) ≡ tally r
unfolding stats
tally-stats o size it r = tally-missing_tx o r

tally-totals : (o : Opts) (r : Report) → tally (totals o r) ≡ tally r
unfolding totals
tally-totals o r = tally-print_if o o.summary _ r

module _ (o : Opts) (it : BlockTxIter) where
  -- `close` behind the statistics.
  abbrev pub closed :
      ParseResult (Unit {0}) → Report → ParseResult (Unit {0}) × (BlockTxIter × Report)
  closed fin r =
      after (fin, (it, r))
        λ _ (it, r).
          let checked = print (after_strict_check (bytes_consumed it) (bytes_remaining it)) r in
          if not (r.coinbase_txs == 1)
          then (err (invalid_coinbase_count r.coinbase_txs), (it, checked))
          else (ok tt, (it, totals o checked))

  closed-ok :
      (r : Report)
      → r.coinbase_txs ≡ 1
      → ((closed (ok tt) r).0 ≡ ok tt) × (tally (closed (ok tt) r).1.1 ≡ tally r)
  closed-ok r c = rw c (refl, tally-totals o _)

  closed-inv :
      (fin : ParseResult (Unit {0})) (r : Report)
      → (closed fin r).0 ≡ ok tt
      → (fin ≡ ok tt) × (r.coinbase_txs ≡ 1)
  closed-inv (ok u) r h = (refl, ground arith)
  closed-inv (err e) r h = absurd (cc)
  closed-inv fault r h = absurd (cc)

module _ (o : Opts) (size : ℕ) (it : BlockTxIter) (r : Report) where
  pub close-ok :
      it.consumed ≡ it.total
      → length it.cursor.bytes ≤ it.cursor.pos
      → r.coinbase_txs ≡ 1
      → ((close o size (it, r)).0 ≡ ok tt) × (tally (close o size (it, r)).1.1 ≡ tally r)
  unfolding close
  close-ok e l c =
      let (q, w) =
        closed-ok o it (stats o size it r) (ap (λ k. k.coinbases) (tally-stats o size it r) ∙ c) in
      rw ((finish_strict_iff it).1 (e, l)) (q, w ∙ tally-stats o size it r)

  pub close-inv :
      (close o size (it, r)).0 ≡ ok tt
      → (it.consumed ≡ it.total) × (length it.cursor.bytes ≤ it.cursor.pos) × (r.coinbase_txs ≡ 1)
  unfolding close
  close-inv h =
      let (f, c) = closed-inv o it (finish_strict it) (stats o size it r) h in
      let (e, l) = (finish_strict_iff it).0 f in
      (e, l, sym (ap (λ k. k.coinbases) (tally-stats o size it r)) ∙ c)

-- The counters behind transactions.
abbrev pub Totals : List Tx → Report → Type 0
Totals txs r =
    (r.tx_idx ≡ length txs)
    × (r.coinbase_txs ≡ coinbases_of txs)
    × (r.total_value ≡ min (sum_of (outputs_of txs)) (2 ^ 64 - 1))

pub tally-Totals :
    (txs : List Tx) (r : Report) (a : Tally)
    → a.idx ≡ 0
    → a.coinbases ≡ 0
    → a.saw ≡ false
    → a.value ≡ 0
    → tally r ≡ passes txs a
    → Totals txs r
tally-Totals txs r a i c w z q =
    let (i', c', v') = passes_lem txs a w in
    (
      ap (λ k. k.idx) q ∙ (i' ∙ omega (arith, i)),
      ap (λ k. k.coinbases) q ∙ (c' ∙ omega (arith, c)),
      ap (λ k. k.value) q
          ∙ (v' ∙ (sum_from_lem a.value (outputs_of txs) (omega (arith, z)) ∙ omega (arith, z))),
    )

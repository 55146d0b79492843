-- ===== src/Example/Listed.antt =====
-- `main` over the bytes of a block prints its listing.
use blockchain_zc_parser.Base.{
  ℕ, suc, ◌≡◌, ◌⊎◌, inl, inr, refl, sym, ap, ◌∙◌, subst, List, [], ◌∷◌, ◌++◌, append_assoc,
  append-nil, length, true, false, leb, ◌==◌, Bool-cases, if◌then◌else◌, Option, none, some, arith,
}
use blockchain_zc_parser.Error.{ParseResult, ok, err, invalid_coinbase_count}
use blockchain_zc_parser.Action.{after}
use blockchain_zc_parser.Target.{Target}
use blockchain_zc_parser.Cursor.{new}
use blockchain_zc_parser.Cursor.Format.{
  IsValid, unread, advance, length-unread, unread-advance, advance-IsValid,
}
use blockchain_zc_parser.Cursor.Checks.{Many}
use blockchain_zc_parser.Transaction.Whole.{Tx, TxFormat}
use blockchain_zc_parser.Block.{
  BlockHeader, BlockTxIter, rounds, finish_strict, bytes_consumed, bytes_remaining,
}
use blockchain_zc_parser.Block.Accepted.{new_iter_iff, finish_strict_iff}
use blockchain_zc_parser.Block.Rounds.{at_end}
use blockchain_zc_parser.Example.Opts.{Opts}
use blockchain_zc_parser.Example.Loop.{while_next, while_next_complete}
use blockchain_zc_parser.Example.Report.{
  opened, on_input, on_output, count_tx, missing_tx, stats, totals, close, drop_iter,
  summarise_from, summarise,
}
use blockchain_zc_parser.Example.Lines.{
  Line, Report, parse_stats, before_strict_check, after_strict_check, counts, total_output_value,
  no_such_transaction,
}
use blockchain_zc_parser.Example.Tally.{tally, passed, on_input-IsTotal, on_output-IsTotal}
use blockchain_zc_parser.Example.Closing.{BlockFormat, Totals, tally-Totals, tally-stats, closed}
use blockchain_zc_parser.Example.Listing.{chosen, all_lines, missing_lines, listing}
use blockchain_zc_parser.Example.Chosen.{taken-chosen}
use blockchain_zc_parser.Example.Outputs.{print_if-lines}
use blockchain_zc_parser.Example.Printed.{Passed-taken}

-- The result and the lines.
abbrev pub shown : ParseResult (Unit {0}) × Report → ParseResult (Unit {0}) × List Line
shown (r, report) = (r, report.lines)

-- One after the other, as `print` adds them.
three_more :
    (xs ys zs : List Line) (a b c : Line)
    → zs ≡ xs ++ ys
    → ((zs ++ (a ∷ [])) ++ (b ∷ [])) ++ (c ∷ []) ≡ xs ++ (ys ++ (a ∷ b ∷ c ∷ []))
three_more xs ys zs a b c e =
    ap (λ l. ((l ++ (a ∷ [])) ++ (b ∷ [])) ++ (c ∷ [])) e
    ∙ ap (λ l. l ++ (c ∷ [])) (append_assoc (xs ++ ys) (a ∷ []) (b ∷ []))
    ∙ (append_assoc (xs ++ ys) (a ∷ b ∷ []) (c ∷ []) ∙ append_assoc xs ys (a ∷ b ∷ c ∷ []))

module _ (o : Opts) where
  -- The end of the run, from the coinbases, the transactions, the total value and the lines before.
  abbrev finished : ℕ → ℕ → ℕ → List Line → ParseResult (Unit {0}) × List Line
  finished k n value ls =
      if k == 1
      then (
        ok tt,
        ls ++ ((if o.summary then counts k n ∷ [] else []) ++ (total_output_value value ∷ [])),
      )
      else (err (invalid_coinbase_count k), ls)

  totals-lines :
      (r : Report)
      → (totals o r).lines
        ≡ r.lines
          ++ ((if o.summary then counts r.coinbase_txs r.tx_idx ∷ [] else [])
              ++ (total_output_value r.total_value ∷ []))
  unfolding totals
  totals-lines r =
      ap (λ l. l ++ (total_output_value r.total_value ∷ []))
        (print_if-lines o.summary (counts r.coinbase_txs r.tx_idx) r)
      ∙ append_assoc r.lines _ _

  missing_tx-lines :
      (r : Report) → (missing_tx o r).lines ≡ r.lines ++ missing_lines o.only_tx r.tx_idx
  unfolding missing_tx
  missing_tx-lines r = go o.only_tx refl
    where
      go :
          (only : Option ℕ)
          → o.only_tx ≡ only
          → (missing_tx o r).lines ≡ r.lines ++ missing_lines o.only_tx r.tx_idx
      go none e = rw e (sym (append-nil r.lines))
      go (some only) e =
          rw e (print_if-lines (leb r.tx_idx only) (no_such_transaction only r.tx_idx) r)

  closed-finished :
      (e : BlockTxIter) (s : Report)
      → shown (drop_iter (closed o e (ok tt) s))
        ≡ finished s.coinbase_txs s.tx_idx s.total_value
            (s.lines ++ (after_strict_check (bytes_consumed e) (bytes_remaining e) ∷ []))
  closed-finished e s = go (Bool-cases (s.coinbase_txs == 1))
    where
      go :
          ((s.coinbase_txs == 1) ≡ true) ⊎ ((s.coinbase_txs == 1) ≡ false)
          → shown (drop_iter (closed o e (ok tt) s))
            ≡ finished s.coinbase_txs s.tx_idx s.total_value
                (s.lines ++ (after_strict_check (bytes_consumed e) (bytes_remaining e) ∷ []))
      go (inl a) = rw a (ap (λ l. (ok tt, l)) (totals-lines _))
      go (inr a) = rw a

  -- The lines behind the transactions.
  abbrev behind : ℕ → ℕ → ℕ → ℕ → ℕ → List Line → List Line
  behind size n total consumed left ls =
      ls
      ++ (missing_lines o.only_tx n
          ++ (parse_stats total n size
              ∷ before_strict_check n total consumed left
              ∷ after_strict_check consumed left
              ∷ []))

  close-finished :
      (size : ℕ) (e : BlockTxIter) (m : Report)
      → finish_strict e ≡ ok tt
      → shown (drop_iter (close o size (e, m)))
        ≡ finished m.coinbase_txs m.tx_idx m.total_value
            (behind size m.tx_idx e.total (bytes_consumed e) (bytes_remaining e) m.lines)
  unfolding close stats
  close-finished size e m h =
      ap (λ k. shown (drop_iter (closed o e k (stats o size e m)))) h
      ∙ (closed-finished e (stats o size e m) ∙ λ k.
          finished (same k).coinbases (same k).idx (same k).value (ls k))
    where
      same : tally (stats o size e m) ≡ tally m
      same = tally-stats o size e m

      ls :
          (stats o size e m).lines
            ++ (after_strict_check (bytes_consumed e) (bytes_remaining e) ∷ [])
          ≡ behind size m.tx_idx e.total (bytes_consumed e) (bytes_remaining e) m.lines
      ls =
          three_more m.lines (missing_lines o.only_tx m.tx_idx) (missing_tx o m).lines
            (parse_stats e.total m.tx_idx size)
            (before_strict_check m.tx_idx e.total (bytes_consumed e) (bytes_remaining e))
            (after_strict_check (bytes_consumed e) (bytes_remaining e)) (missing_tx-lines m)

module _ (t : Target) (o : Opts) (size : ℕ) (h : BlockHeader) (it : BlockTxIter)
    (fresh : it.consumed ≡ 0) (v : IsValid t it.cursor) (txs : List Tx)
    (total : it.total ≡ length txs) (many : Many TxFormat txs (unread it.cursor))
    (sized : length it.cursor.bytes ≡ size) where
  abbrev end : BlockTxIter
  end = at_end it (length (unread it.cursor))

  looped :
      (m : Report) × Totals txs m
      × (while_next t (on_input o) (on_output o) count_tx (suc (rounds it)) (it, opened h it)
          ≡ (ok tt, (end, m)))
      × (m.lines ≡ (opened h it).lines ++ all_lines o (chosen o txs))
  looped =
      let (m, p, q) = passed o txs (opened h it) in
      (
        m,
        tally-Totals txs m (tally (opened h it)) refl refl refl refl q,
        while_next_complete t (on_input o) (on_output o) count_tx (on_input-IsTotal o)
            (on_output-IsTotal o) txs (suc (rounds it)) it (opened h it) m (unread it.cursor) [] v
            (omega (arith, total, fresh)) (omega (arith, total, fresh)) many (sym (append-nil _)) p,
        Passed-taken o txs (opened h it) m refl p
            ∙ ap (λ l. (opened h it).lines ++ l) (taken-chosen o txs),
      )

  consumed_lem : bytes_consumed end ≡ size
  consumed_lem = omega (arith, sized, length-unread t it.cursor v, v.fits)

  remaining_lem : bytes_remaining end ≡ 0
  remaining_lem = omega (arith, sized, length-unread t it.cursor v, v.fits)

  run-listing :
      shown (
        drop_iter (
          after
            (while_next t (on_input o) (on_output o) count_tx (suc (rounds it)) (it, opened h it))
            (λ _. close o size)))
      ≡ listing o h txs size
  run-listing =
      let (m, c, run, ls) = looped in
      ap (λ d. shown (drop_iter (after d (λ _. close o size)))) run
      ∙ (close-finished o size end m (
            (finish_strict_iff end).1
              (refl, omega (arith, sized, length-unread t it.cursor v, v.fits)))
          ∙ λ k. finished o (c.1 k) (c.0 k) (c.2 k) (
              behind o size (c.0 k) (total k) (consumed_lem k) (remaining_lem k) (
                (ls
                    ∙ ap
                        (λ n.
                          (opened h (record it { total = n })).lines ++ all_lines o (chosen o txs))
                        total)
                  k)))

module _ (t : Target) (o : Opts) (bytes : List ℕ) (v : IsValid t (new bytes)) where
  -- On the bytes of a block, and whatever the options, `main` prints exactly these lines: the summary of
  -- the header; of each transaction that `--summary`, `--tx` and `--limit-tx` choose, in their order, its
  -- index and whether its first input is a coinbase's, and behind it, without `--no-outputs`, a line for
  -- each output with its value, its kind and its script's length, save the OP_RETURNs that
  -- `--no-opreturn` leaves out; that the transaction of `--tx` is missing, if so; and the statistics. With
  -- one coinbase it succeeds and prints the counts that `--summary` asks for and the sum of the values of
  -- all the outputs, printed or not, or the largest `u64` if the sum is above it; else it fails with the
  -- number of the coinbases. The bytes make a valid cursor.
  pub summarise-listing :
      (h : BlockHeader) (txs : List Tx)
      → BlockFormat h txs bytes
      → shown (summarise t o bytes) ≡ listing o h txs (length bytes)
  unfolding summarise summarise_from
  summarise-listing h txs (xs, ys, f, many, e) =
      ap (λ k. shown (summarise_from t o (length bytes) k))
        ((new_iter_iff t bytes h it v).1 ((xs, ys, f, e, refl), refl))
      ∙ run-listing t o (length bytes) h it refl (advance-IsValid t (new bytes) v xs ys e) txs refl
          (subst (Many TxFormat txs) (sym (unread-advance t (new bytes) v xs ys e)) many) refl
    where
      it : BlockTxIter
      it = record { cursor = advance (new bytes) (length xs); total = length txs; consumed = 0 }

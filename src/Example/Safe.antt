-- ===== src/Example/Safe.antt =====
-- The program ends without a panic.
use Prim.Native.String.{String}
use blockchain_zc_parser.Base.{ℕ, suc, ◌≡◌, ◌≢◌, refl, List, length, arith}
use blockchain_zc_parser.Error.{ParseResult, ok, err, fault}
use blockchain_zc_parser.Error.Truthful.{Truthful}
use blockchain_zc_parser.Action.{after}
use blockchain_zc_parser.Target.{Target}
use blockchain_zc_parser.Cursor.{new}
use blockchain_zc_parser.Cursor.Format.{IsValid}
use blockchain_zc_parser.Block.{BlockHeader, BlockTxIter, new_iter, rounds, finish_strict}
use blockchain_zc_parser.Block.Triples.{Over, new_iter-Ends}
use blockchain_zc_parser.Block.Accepted.{new_iter_iff}
use blockchain_zc_parser.Action.Triple.{Ends}
use blockchain_zc_parser.Example.Opts.{Opts}
use blockchain_zc_parser.Example.Loop.{while_next_sound, Ended}
use blockchain_zc_parser.Example.Report.{
  opened, on_input, on_output, count_tx, stats, close, drop_iter, summarise_from, summarise,
}
use blockchain_zc_parser.Example.Lines.{Report}
use blockchain_zc_parser.Example.Tally.{on_input-IsTotal, on_output-IsTotal}
use blockchain_zc_parser.Example.Closing.{closed}

module _ (t : Target) (o : Opts) where
  finish_strict-returns : (it : BlockTxIter) → finish_strict it ≢ fault
  unfolding finish_strict
  finish_strict-returns it h = ground arith

  closed-returns :
      (it : BlockTxIter) (k : ParseResult (Unit {0})) (r : Report)
      → k ≢ fault
      → (closed o it k r).0 ≢ fault
  closed-returns it (ok u) r n h = ground arith
  closed-returns it (err e) r n h = cc
  closed-returns it fault r n h = n refl

  close-returns : (size : ℕ) (it : BlockTxIter) (r : Report) → (close o size (it, r)).0 ≢ fault
  unfolding close
  close-returns size it r =
      closed-returns it (finish_strict it) (stats o size it r) (finish_strict-returns it)

  -- `main` from the loop on.
  looped-returns :
      (size : ℕ) (it : BlockTxIter) (r : Report)
      (d : ParseResult (Unit {0}) × (BlockTxIter × Report))
      → Ended (on_input o) (on_output o) count_tx it r d.0 d.1
      → (drop_iter (after d (λ _. close o size))).0 ≢ fault
  looped-returns size it r (ok u, (e, m)) k = close-returns size e m
  looped-returns size it r (err x, d) k = λ h. cc
  looped-returns size it r (fault, d) k = elim k [ ]

  module _ (bytes : List ℕ) (v : IsValid t (new bytes)) where
    from_header :
        (k : ParseResult (BlockHeader × BlockTxIter))
        → new_iter t bytes ≡ k
        → Ends (Truthful t) (Over t bytes) k
        → (summarise_from t o (length bytes) k).0 ≢ fault
    unfolding summarise_from
    from_header (ok (h, it)) e w = looped-returns (length bytes) it (opened h it) _ (
        while_next_sound t (on_input o) (on_output o) count_tx (on_input-IsTotal o)
          (on_output-IsTotal o) (suc (rounds it)) it (opened h it) w.valid
          (omega (arith, ((new_iter_iff t bytes h it v).0 e).1)) (omega arith))
    from_header (err x) e w = λ h. cc
    from_header fault e w = elim w [ ]

    pub summarise-returns : (summarise t o bytes).0 ≢ fault
    unfolding summarise
    summarise-returns = from_header (new_iter t bytes) refl (new_iter-Ends t bytes v)

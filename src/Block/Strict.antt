-- ===== src/Block/Strict.antt =====
-- `BlockTxIter::consume_all_strict`: every transaction, with the closures wrapped to find coinbases.
use blockchain_zc_parser.Base.{ℕ, ◌+◌, Bool, true, false, not, ◌&&◌, ◌==◌, if◌then◌else◌}
use blockchain_zc_parser.Error.{ParseResult, err, invalid_coinbase_count}
use blockchain_zc_parser.Action.{Action, pure, lift, ◌>>=◌, ◌>>◌, refuse_if}
use blockchain_zc_parser.Target.{Target}
use blockchain_zc_parser.Transaction.{TxInput, TxOutput, Callback, out_point_is_coinbase}
use blockchain_zc_parser.Block.{BlockTxIter, next_tx, while_unconsumed, rounds, finish_strict}

-- The variables that the wrapped closures capture, and the state of the user's closures.
pub record Strict (S : Type 0) : Type 0 where
  pub user : S
  pub coinbase_txs : ℕ
  pub saw_first_input : Bool
  pub is_coinbase_tx : Bool

module _ {S : Type 0} where
  -- A call of the user's closure.
  abbrev pub lifted : Action S (Unit {0}) → Action (Strict S) (Unit {0})
  lifted m st = let (r, u) = m st.user in (r, record st { user = u })

  -- The variables after the first input of a transaction.
  abbrev pub enter : Bool → Strict S → Strict S
  enter is_coinbase st = record {
    user = st.user;
    coinbase_txs = if is_coinbase then st.coinbase_txs + 1 else st.coinbase_txs;
    saw_first_input = true;
    is_coinbase_tx = is_coinbase;
  }

  unfoldable pub wrapped_on_input : Callback S TxInput → ℕ → Callback (Strict S) TxInput
  wrapped_on_input on_input tx_index input st =
      let is_coinbase = out_point_is_coinbase input.previous_output in
      let entered = enter is_coinbase st in
      if not st.saw_first_input
      then (if is_coinbase && not (tx_index == 0)
          then (err (invalid_coinbase_count entered.coinbase_txs), entered)
          else lifted (on_input input) entered)
      else lifted (on_input input) st

  abbrev pub wrapped_on_output : Callback S TxOutput → Callback (Strict S) TxOutput
  wrapped_on_output on_output output = lifted (on_output output)

  -- `let mut saw_first_input = false; let mut is_coinbase_tx = false;`
  abbrev pub reset : Strict S → Strict S
  reset st = record st { saw_first_input = false; is_coinbase_tx = false }

-- The captured variables go out of scope.
abbrev pub leave :
    {S : Type 0}
    → ParseResult (Unit {0}) × (BlockTxIter × Strict S)
    → ParseResult (Unit {0}) × (BlockTxIter × S)
leave (r, (it, st)) = (r, (it, st.user))

module _ (t : Target) {S : Type 0} (on_input : Callback S TxInput)
    (on_output : Callback S TxOutput) where
  unfoldable pub strict_round : Action (BlockTxIter × Strict S) (Unit {0})
  strict_round (it, st) =
      (next_tx t (wrapped_on_input on_input it.consumed) (wrapped_on_output on_output) >>= λ _.
      pure tt)
        (it, reset st)

  -- The checks behind the loop.
  unfoldable pub strict_checks : Action (BlockTxIter × Strict S) (Unit {0})
  strict_checks (it, st) =
      (do
        lift (finish_strict it)
        refuse_if (not (st.coinbase_txs == 1)) (invalid_coinbase_count st.coinbase_txs))
        (it, st)

  unfoldable pub consume_all_strict : Action (BlockTxIter × S) (Unit {0})
  consume_all_strict (it, s) =
      let start : Strict S = record {
        user = s;
        coinbase_txs = 0;
        saw_first_input = false;
        is_coinbase_tx = false;
      } in
      leave ((while_unconsumed (rounds it) strict_round >> strict_checks) (it, start))

-- ===== src/Block/Consume.antt =====
-- `consume_all_strict` as a whole.
use blockchain_zc_parser.Base.{
  ℕ, ◌≡◌, ◌↔◌, refl, sym, ap, ◌∙◌, subst, List, [], ◌∷◌, ◌++◌, append-nil, length, length-append,
  false, arith,
}
use blockchain_zc_parser.Error.{ParseResult, ok, err, fault}
use blockchain_zc_parser.Action.{after}
use blockchain_zc_parser.Target.{Target}
use blockchain_zc_parser.Cursor.Format.{unread, IsValid, length-unread}
use blockchain_zc_parser.Transaction.{TxInput, TxOutput, Callback}
use blockchain_zc_parser.Transaction.Loops.{IsTotal}
use blockchain_zc_parser.Block.{
  BlockTxIter, while_unconsumed, rounds, finish_strict, bytes_remaining,
}
use blockchain_zc_parser.Block.Strict.{
  Strict, reset, wrapped_on_input, wrapped_on_output, strict_round, strict_checks,
  consume_all_strict, leave,
}
use blockchain_zc_parser.Block.Rounds.{
  round, Rounds, Looped, looped, loop_sound, loop_complete, at_end,
}
use blockchain_zc_parser.Block.StrictRounds.{
  HandledAll, StrictBlock, rounds_whole, whole_rounds, wrapped-IsTotal,
}

module _ (it : BlockTxIter) {S : Type 0} (st : Strict S) (t : Target)
    (on_input : Callback S TxInput) (on_output : Callback S TxOutput) where
  checks-ok :
      it.consumed ≡ it.total
      → bytes_remaining it ≡ 0
      → st.coinbase_txs ≡ 1
      → strict_checks t on_input on_output (it, st) ≡ (ok tt, (it, st))
  unfolding strict_checks finish_strict
  checks-ok e r c = ground arith

  checks-inv :
      (d : BlockTxIter × Strict S)
      → strict_checks t on_input on_output (it, st) ≡ (ok tt, d)
      → (bytes_remaining it ≡ 0) × (st.coinbase_txs ≡ 1) × (st ≡ d.1)
  unfolding strict_checks finish_strict
  checks-inv d h = ground arith

module _ (t : Target) {S : Type 0} (on_input : Callback S TxInput) (on_output : Callback S TxOutput)
    (total_in : IsTotal on_input) (total_out : IsTotal on_output) (it : BlockTxIter) (s s' : S)
    (fresh : it.consumed ≡ 0) (v : IsValid t it.cursor) where
  abbrev start : Strict S
  start = record { user = s; coinbase_txs = 0; saw_first_input = false; is_coinbase_tx = false }

  abbrev Accepted : ParseResult (Unit {0}) × (BlockTxIter × Strict S) → Type 0
  Accepted d =
      (e : BlockTxIter) × (leave (after d (λ _. strict_checks t on_input on_output))
        ≡ (ok tt, (e, s')))

  whole_payload :
      (bs rest : List ℕ)
      → unread it.cursor ≡ bs ++ rest
      → bytes_remaining (at_end it (length bs)) ≡ 0
      → unread it.cursor ≡ bs
  whole_payload bs [] e z = e ∙ append-nil bs
  whole_payload bs (x ∷ rest) e z = absurd (
      omega
        (arith, z, ap length e, length-append bs (x ∷ rest), length-unread t it.cursor v, v.fits))

  strict_if_run :
      (d : ParseResult (Unit {0}) × (BlockTxIter × Strict S))
      → Looped
          (wrapped_on_input on_input)
          (wrapped_on_output on_output)
          reset
          it
          start
          (rounds it)
          d.0
          d.1
      → Accepted d
      → StrictBlock on_input on_output it s s'
  strict_if_run (ok u, (it', st)) (looped txs bs rest l many e rnds q) (d, h) =
      let checked =
        checks-inv it' st t on_input on_output
          (d, (strict_checks t on_input on_output (it', st)).1.1)
          (leave-inv (strict_checks t on_input on_output (it', st)) d h).0 in
      let whole : unread it.cursor ≡ bs = whole_payload bs rest e (rw q at checked.0) in
      let (first, all) =
        rounds_whole on_input on_output txs bs start st many
          (subst
            (λ k.
              Rounds (wrapped_on_input on_input) (wrapped_on_output on_output) reset k txs start st)
            fresh rnds)
          refl checked.1 in
      let user : st.user ≡ s' =
        ap (λ k. k.user) checked.2
        ∙ (leave-inv (strict_checks t on_input on_output (it', st)) d h).1 in
      (
        txs,
        l ∙ rw fresh (omega arith),
        rw whole many,
        first,
        subst (λ k. HandledAll on_input on_output txs s k) user all,
      )
    where
      leave-inv :
          (k : ParseResult (Unit {0}) × (BlockTxIter × Strict S)) (e : BlockTxIter)
          → leave k ≡ (ok tt, (e, s'))
          → (k ≡ (ok tt, (e, k.1.1))) × (k.1.1.user ≡ s')
      leave-inv k e p = (λ i. ((p i).0, ((p i).1.0, k.1.1)), ap (λ j. j.1.1) p)
  strict_if_run (err x, d) p (e, h) = absurd (cc)
  strict_if_run (fault, d) p h = elim p [ ]

  run_if_strict :
      StrictBlock on_input on_output it s s'
      → Accepted (
          while_unconsumed
            (rounds it)
            (round t (wrapped_on_input on_input) (wrapped_on_output on_output) reset)
            (it, start))
  run_if_strict (txs, l, many, first, all) =
      let (st, rnds, user, one) =
        whole_rounds on_input on_output txs (unread it.cursor) start s' many first all refl in
      let run =
        loop_complete t (wrapped_on_input on_input) (wrapped_on_output on_output) reset
          (wrapped-IsTotal on_input on_output total_in) (λ a st. total_out a st.user) txs it start
          st (unread it.cursor) [] v (omega (arith, fresh, l)) many
          (sym (append-nil (unread it.cursor)))
          (subst
            (λ k.
              Rounds (wrapped_on_input on_input) (wrapped_on_output on_output) reset k txs start st)
            (sym fresh) rnds) in
      let enough : rounds it ≡ length txs = rw (fresh, l) (omega arith) in
      (
        end,
        ap
              (λ n. leave (
                after
                  (while_unconsumed n
                    (round t (wrapped_on_input on_input) (wrapped_on_output on_output) reset)
                    (it, start))
                  (λ _. strict_checks t on_input on_output)))
              enough
            ∙ (ap (λ k. leave (after k (λ _. strict_checks t on_input on_output))) run
                ∙ (ap leave (
                      checks-ok end st t on_input on_output refl
                        (omega (arith, length-unread t it.cursor v, v.fits)) one)
                    ∙ ap (λ u. (ok tt, (end, u))) user)),
      )
    where
      end : BlockTxIter
      end = at_end it (length (unread it.cursor))

  -- From an iterator that has consumed nothing, `consume_all_strict` succeeds with the closures' state
  -- taken from `s` to `s'` exactly when the unread bytes are the declared number of transactions and
  -- nothing more, the first transaction is a coinbase and no other is, and the closures took the
  -- inputs and outputs of each transaction in turn. The iterator's cursor is valid and the closures do
  -- not panic.
  pub consume_all_strict_iff :
      ((d : BlockTxIter) × (consume_all_strict t on_input on_output (it, s) ≡ (ok tt, (d, s'))))
      ↔ StrictBlock on_input on_output it s s'
  unfolding consume_all_strict strict_round
  consume_all_strict_iff = (
    strict_if_run
        (while_unconsumed (rounds it)
          (round t (wrapped_on_input on_input) (wrapped_on_output on_output) reset) (it, start))
        (loop_sound t (wrapped_on_input on_input) (wrapped_on_output on_output) reset
          (wrapped-IsTotal on_input on_output total_in) (λ a st. total_out a st.user) (rounds it) it
          start v (omega (arith, fresh))),
    run_if_strict,
  )

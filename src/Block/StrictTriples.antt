-- ===== src/Block/StrictTriples.antt =====
-- `consume_all_strict` on any bytes: what it keeps, and the errors that it can give.
use blockchain_zc_parser.Base.{
  ℕ, zero, suc, ◌+◌, ◌≤◌, ◌<◌, ◌≡◌, ◌⊎◌, inl, inr, List, Bool, true, false, not, ◌&&◌, ◌==◌, ltb,
  ltb→lt, le→ltb, ltb→le, ==_iff, Bool-cases, if◌then◌else◌, arith,
}
use blockchain_zc_parser.Error.{
  ParseError, ParseResult, ok, err, fault, trailing_bytes, invalid_coinbase_count,
}
use blockchain_zc_parser.Error.Truthful.{Truthful}
use blockchain_zc_parser.Action.{Action, after, pure}
use blockchain_zc_parser.Action.Triple.{
  Ends, Triple, Any, any-Triple, after_triple, refuse_if-Triple,
}
use blockchain_zc_parser.Target.{Target}
use blockchain_zc_parser.Cursor.{Cursor}
use blockchain_zc_parser.Cursor.Triples.{Within, Found}
use blockchain_zc_parser.Transaction.{TxInput, TxOutput, Callback, out_point_is_coinbase}
use blockchain_zc_parser.Transaction.Wire.{InputFormat, OutputFormat}
use blockchain_zc_parser.Block.{
  BlockTxIter, parse_next, while_unconsumed, rounds, finish_strict, bytes_remaining,
}
use blockchain_zc_parser.Block.Next.{next_tx_more, count}
use blockchain_zc_parser.Block.Strict.{
  Strict, lifted, enter, reset, wrapped_on_input, wrapped_on_output, strict_round, strict_checks,
  consume_all_strict, leave,
}
use blockchain_zc_parser.Block.Triples.{Iterates, parse_next-Triple}

-- An iterator that has not consumed more than its total.
abbrev pub Counting : {S : Type 0} → Target → List ℕ → (S → Type 0) → BlockTxIter × S → Type 0
Counting t bs P x = Iterates t bs P x × (x.0.consumed ≤ x.0.total)

module _ (t : Target) (E : ParseError → Type 0) (honest : (e : ParseError) → Truthful t e → E e)
    (trailing : (n : ℕ) → 0 < n → E (trailing_bytes n))
    (coinbases : (n : ℕ) → E (invalid_coinbase_count n)) (bs : List ℕ) {S : Type 0} (P : S → Type 0)
    (on_input : Callback S TxInput) (on_output : Callback S TxOutput)
    (keep_in : (i : TxInput) → Found InputFormat bs i → Triple P E Any (on_input i))
    (keep_out : (o : TxOutput) → Found OutputFormat bs o → Triple P E Any (on_output o)) where
  -- Of the captured variables, only the user's state matters.
  abbrev User : Strict S → Type 0
  User st = P st.user

  lifted-Triple : {m : Action S (Unit {0})} → Triple P E Any m → Triple User E Any (lifted m)
  lifted-Triple h = record { triple = λ st i. h.triple st.user i }

  wrapped-Triple :
      (index : ℕ) (i : TxInput)
      → Found InputFormat bs i
      → Triple User E Any (wrapped_on_input on_input index i)
  unfolding wrapped_on_input
  wrapped-Triple index i f = record {
    triple = λ st h.
        go st h (not st.saw_first_input) (out_point_is_coinbase i.previous_output)
          (out_point_is_coinbase i.previous_output && not (index == 0));
  }
    where
      go :
          (st : Strict S)
          → P st.user
          → (unseen is_coinbase late : Bool)
          → let d =
              if unseen
              then (if late
                  then (
                    err (invalid_coinbase_count (enter is_coinbase st).coinbase_txs),
                    enter is_coinbase st,
                  )
                  else lifted (on_input i) (enter is_coinbase st))
              else lifted (on_input i) st in
            P d.1.user × Ends E Any d.0
      go st h true b true = (h, coinbases (enter b st).coinbase_txs)
      go st h true b false = (lifted-Triple (keep_in i f)).triple (enter b st) h
      go st h false b late = (lifted-Triple (keep_in i f)).triple st h

  abbrev body : Action (BlockTxIter × Strict S) (Unit {0})
  body = strict_round t on_input on_output

  -- Behind the loop everything is consumed.
  abbrev Consumed : ParseResult (Unit {0}) × (BlockTxIter × Strict S) → Type 0
  Consumed d = Counting t bs User d.1 × Ends E (λ _. d.1.0.consumed ≡ d.1.0.total) d.0

  round-Consumed :
      (n : ℕ) (it : BlockTxIter) (st : Strict S)
      → Counting t bs User (it, st)
      → it.consumed < it.total
      → it.total ≤ it.consumed + suc n
      → ((x : BlockTxIter × Strict S)
          → Counting t bs User x
          → x.0.total ≤ x.0.consumed + n
          → Consumed (while_unconsumed n body x))
      → Consumed (after (body (it, st)) (λ _. while_unconsumed n body))
  unfolding strict_round
  round-Consumed n it st ((w, p), l) more few ih =
      rw
        (next_tx_more t (wrapped_on_input on_input it.consumed) (wrapped_on_output on_output) it
          (reset st) more)
        (let ((w', p'), q) =
            (parse_next-Triple t E honest bs User (wrapped_on_input on_input it.consumed)
                (wrapped_on_output on_output) (wrapped-Triple it.consumed)
                (λ o f. lifted-Triple (keep_out o f))).triple
              (it.cursor, reset st) (w, p) in
          go
            (parse_next t (wrapped_on_input on_input it.consumed) (wrapped_on_output on_output)
              (it.cursor, reset st))
            w' p' q)
    where
      go :
          (d : ParseResult (Unit {0}) × (Cursor × Strict S))
          → Within t bs d.1.0
          → User d.1.1
          → Ends E Any d.0
          → Consumed (
              after
                (after
                  (count t
                    (wrapped_on_input on_input it.consumed)
                    (wrapped_on_output on_output)
                    it
                    d)
                  (λ _. pure tt))
                (λ _. while_unconsumed n body))
      go (ok u, (c, m)) w p q =
          ih (record { cursor = c; total = it.total; consumed = it.consumed + 1 }, m)
            ((w, p), omega (arith, more)) (omega (arith, few))
      go (err e, (c, m)) w p q = (((w, p), l), q)
      go (fault, (c, m)) w p q = elim q [ ]

  loop-Consumed :
      (n : ℕ) (x : BlockTxIter × Strict S)
      → Counting t bs User x
      → x.0.total ≤ x.0.consumed + n
      → Consumed (while_unconsumed n body x)
  unfolding while_unconsumed
  loop-Consumed zero (it, st) (h, l) few =
      rw (le→ltb it.consumed it.total (omega (arith, few))) ((h, l), omega (arith, l, few))
  loop-Consumed (suc n) (it, st) (h, l) few =
      go (Bool-cases (ltb it.consumed it.total)) (λ x. loop-Consumed n x)
    where
      go :
          (ltb it.consumed it.total ≡ true) ⊎ (ltb it.consumed it.total ≡ false)
          → ((x : BlockTxIter × Strict S)
              → Counting t bs User x
              → x.0.total ≤ x.0.consumed + n
              → Consumed (while_unconsumed n body x))
          → Consumed (
              if ltb it.consumed it.total
              then after (body (it, st)) (λ _. while_unconsumed n body)
              else (ok tt, (it, st)))
      go (inl more) ih =
          rw more (round-Consumed n it st (h, l) (ltb→lt it.consumed it.total more) few ih)
      go (inr none) ih = rw none ((h, l), omega (arith, l, ltb→le it.consumed it.total none))

  finish-Ends : (it : BlockTxIter) → it.consumed ≡ it.total → Ends E Any (finish_strict it)
  unfolding finish_strict
  finish-Ends it e =
      rw ((==_iff it.consumed it.total).1 e) (go (Bool-cases (bytes_remaining it == 0)))
    where
      go :
          ((bytes_remaining it == 0) ≡ true) ⊎ ((bytes_remaining it == 0) ≡ false)
          → Ends E Any (
              if not (bytes_remaining it == 0)
              then err (trailing_bytes (bytes_remaining it))
              else ok tt)
      go (inl h) = rw h tt
      go (inr h) = rw h (trailing (bytes_remaining it) (ground arith))

  checks-Triple :
      (it : BlockTxIter) (st : Strict S)
      → it.consumed ≡ it.total
      → Counting t bs User (it, st)
      → Counting t bs User (strict_checks t on_input on_output (it, st)).1
        × Ends E Any (strict_checks t on_input on_output (it, st)).0
  unfolding strict_checks
  checks-Triple it st e h =
      after_triple {I = Counting t bs User} (finish_strict it, (it, st)) h (finish-Ends it e)
        λ _ _. any-Triple (
          refuse_if-Triple (not (st.coinbase_txs == 1)) (invalid_coinbase_count st.coinbase_txs)
            (λ _. coinbases st.coinbase_txs))

  -- `consume_all_strict` on any bytes and an iterator that has not consumed more than its total, with
  -- closures as for `next_tx`, does not panic, leaves a valid cursor over the same bytes and a count
  -- within the total, keeps `P` of the closures' state, and fails only with errors of `E`, which has to
  -- hold of the truthful errors, of `TrailingBytes` of more than none and of `InvalidCoinbaseCount`. So
  -- it does not give `IncompleteTransactions`, unless a closure does: its loop reads them all.
  pub consume_all_strict-Triple :
      Triple (Counting t bs P) E Any (consume_all_strict t on_input on_output)
  unfolding consume_all_strict
  consume_all_strict-Triple = record {
    triple = λ (it, s) (h, l).
        let start : Strict S = record {
          user = s;
          coinbase_txs = 0;
          saw_first_input = false;
          is_coinbase_tx = false;
        } in
        go (while_unconsumed (rounds it) body (it, start))
          (loop-Consumed (rounds it) (it, start) (h, l) (omega arith));
  }
    where
      go :
          (d : ParseResult (Unit {0}) × (BlockTxIter × Strict S))
          → Consumed d
          → Counting t bs P (leave (after d (λ _. strict_checks t on_input on_output))).1
            × Ends E Any (leave (after d (λ _. strict_checks t on_input on_output))).0
      go (ok u, (it, st)) (h, e) = checks-Triple it st e h
      go (err x, (it, st)) (h, e) = (h, e)
      go (fault, (it, st)) (h, e) = elim e [ ]

-- ===== src/Block/Rounds.antt =====
-- The loops over the transactions of a block: a round parses one transaction, with closures that may
-- depend on its index and on a preparation of the captured state.
use blockchain_zc_parser.Base.{
  ℕ, zero, suc, ◌+◌, ◌<◌, ◌≡◌, refl, sym, ap, ◌∙◌, List, [], ◌∷◌, ◌++◌, append_assoc, length, true,
  lt→ltb, le→ltb, arith,
}
use blockchain_zc_parser.Error.{ParseError, ParseResult, ok, err, fault}
use blockchain_zc_parser.Action.{Action, pure, after, ◌>>=◌}
use blockchain_zc_parser.Target.{Target}
use blockchain_zc_parser.Cursor.{Cursor}
use blockchain_zc_parser.Cursor.Format.{unread, advance, IsValid, unread-advance, advance-IsValid}
use blockchain_zc_parser.Cursor.Rules.{advance-advance}
use blockchain_zc_parser.Cursor.Checks.{Many, advance_zero}
use blockchain_zc_parser.Transaction.{TxInput, TxOutput, Callback}
use blockchain_zc_parser.Transaction.Stream.{StreamRan, accepted}
use blockchain_zc_parser.Transaction.Loops.{IsTotal}
use blockchain_zc_parser.Transaction.Whole.{Tx, TxFormat}
use blockchain_zc_parser.Block.{BlockTxIter, parse_next, next_tx, while_unconsumed}
use blockchain_zc_parser.Block.Next.{Handled, Taken, parse_next-Streams, next_tx_more}

-- The iterator behind its last transaction.
abbrev pub at_end : BlockTxIter → ℕ → BlockTxIter
at_end it n = record { cursor = advance it.cursor n; total = it.total; consumed = it.total }

module _ (t : Target) {S : Type 0} (f : ℕ → Callback S TxInput) (g : Callback S TxOutput)
    (prepare : S → S) where
  abbrev pub round : Action (BlockTxIter × S) (Unit {0})
  round (it, s) = (next_tx t (f it.consumed) g >>= λ _. pure tt) (it, prepare s)

  step :
      BlockTxIter
      → ParseResult (Unit {0}) × (Cursor × S)
      → ParseResult (Unit {0}) × (BlockTxIter × S)
  step it (r, (c, s)) =
      after (r, (record it { cursor = c }, s))
        λ _ (it, s). (ok tt, (record it { consumed = it.consumed + 1 }, s))

  round-step :
      (it : BlockTxIter) (s : S)
      → it.consumed < it.total
      → round (it, s) ≡ step it (parse_next t (f it.consumed) g (it.cursor, prepare s))
  unfolding step
  round-step it s h =
      rw (next_tx_more t (f it.consumed) g it (prepare s) h)
        (go (parse_next t (f it.consumed) g (it.cursor, prepare s)))
    where
      go :
          (d : ParseResult (Unit {0}) × (Cursor × S))
          → after
              (after
                (d.0, (record it { cursor = d.1.0 }, d.1.1))
                (λ _ (it, s). (ok true, (record it { consumed = it.consumed + 1 }, s))))
              (λ _. pure tt)
            ≡ step it d
      go (ok u, (c, m)) = refl
      go (err e, (c, m)) = refl
      go (fault, (c, m)) = refl

-- The transactions that the closures took, from the index `i` on.
abbrev pub Rounds :
    {S : Type 0}
    → (ℕ → Callback S TxInput)
    → Callback S TxOutput
    → (S → S)
    → ℕ
    → List Tx
    → S
    → S
    → Type 0
Rounds f g prepare i [] s s' = s' ≡ s
Rounds {S} f g prepare i (x ∷ xs) s s' =
    (m : S) × Handled (f i) g x (prepare s) m × Rounds f g prepare (i + 1) xs m s'

-- A loop that took `n` transactions and is at the end, or that stopped with an error.
pub data Looped {S : Type 0} (f : ℕ → Callback S TxInput) (g : Callback S TxOutput)
    (prepare : S → S) (it : BlockTxIter) (s : S) (n : ℕ)
    : ParseResult (Unit {0}) → BlockTxIter × S → Type 0 where
  looped :
      {d : BlockTxIter × S} (txs : List Tx) (bs rest : List ℕ)
      → length txs ≡ n
      → Many TxFormat txs bs
      → unread it.cursor ≡ bs ++ rest
      → Rounds f g prepare it.consumed txs s d.1
      → d.0 ≡ at_end it (length bs)
      → Looped f g prepare it s n (ok tt) d
  stopped : {e : ParseError} {d : BlockTxIter × S} → Looped f g prepare it s n (err e) d

module _ (t : Target) {S : Type 0} (f : ℕ → Callback S TxInput) (g : Callback S TxOutput)
    (prepare : S → S) (total_f : (i : ℕ) → IsTotal (f i)) (total_g : IsTotal g) where
  one_more :
      (it : BlockTxIter) (s m : S) (c : Cursor) (n : ℕ) (x : Tx) (bs rest : List ℕ)
      → IsValid t it.cursor
      → TxFormat x bs
      → Handled (f it.consumed) g x (prepare s) m
      → unread it.cursor ≡ bs ++ rest
      → c ≡ advance it.cursor (length bs)
      → {r : ParseResult (Unit {0})} {d : BlockTxIter × S}
      → Looped f g prepare
          (record { cursor = c; total = it.total; consumed = it.consumed + 1 })
          m
          n
          r
          d
      → Looped f g prepare it s (suc n) r d
  one_more it s m c n x bs rest v fx hx u q (looped txs ys rest₂ l many u₂ rounds e) =
      looped (x ∷ txs) (bs ++ ys) rest₂ (ap suc l) (bs, ys, fx, many, refl) whole (m, hx, rounds)
        (e
          ∙ rw q (
              ap (λ k. record { cursor = k; total = it.total; consumed = it.total })
                (advance-advance it.cursor bs ys)))
    where
      whole : unread it.cursor ≡ (bs ++ ys) ++ rest₂
      whole =
          u
          ∙ rw (sym (unread-advance t it.cursor v bs rest u) ∙ rw q at u₂)
              (sym (append_assoc bs ys rest₂))
  one_more it s m c n x bs rest v fx hx u q stopped = stopped

  one_behind :
      (n : ℕ) (it : BlockTxIter) (s : S)
      → IsValid t it.cursor
      → it.total ≡ it.consumed + suc n
      → (d : ParseResult (Unit {0}) × (Cursor × S))
      → StreamRan (Taken (f it.consumed) g) it.cursor (prepare s) d.0 d.1
      → ((e : BlockTxIter × S)
          → IsValid t e.0.cursor
          → e.0.total ≡ e.0.consumed + n
          → Looped f g prepare e.0 e.1 n
              (while_unconsumed n (round t f g prepare) e).0
              (while_unconsumed n (round t f g prepare) e).1)
      → let r = after (step t f g prepare it d) (λ _. while_unconsumed n (round t f g prepare)) in
        Looped f g prepare it s (suc n) r.0 r.1
  unfolding step
  one_behind n it s v h (ok u, (c, m)) (accepted bs rest (x, fx, hx) e q) ih =
      one_more it s m c n x bs rest v fx hx e q (
        ih (record { cursor = c; total = it.total; consumed = it.consumed + 1 }, m)
          (rw q (advance-IsValid t it.cursor v bs rest e)) (omega arith))
  one_behind n it s v h (err e, d) k ih = stopped
  one_behind n it s v h (fault, d) k ih = elim k [ ]

  nothing_left : (it : BlockTxIter) → it.total ≡ it.consumed + 0 → it ≡ at_end it 0
  nothing_left it h =
      λ k. record { cursor = advance_zero it.cursor k; total = it.total; consumed = same k }
    where
      same : it.consumed ≡ it.total
      same = omega arith

  pub loop_sound :
      (n : ℕ) (it : BlockTxIter) (s : S)
      → IsValid t it.cursor
      → it.total ≡ it.consumed + n
      → Looped f g prepare it s n
          (while_unconsumed n (round t f g prepare) (it, s)).0
          (while_unconsumed n (round t f g prepare) (it, s)).1
  unfolding while_unconsumed
  loop_sound zero it s v h =
      rw (le→ltb it.consumed it.total (omega arith))
        (looped [] [] (unread it.cursor) refl refl refl refl (nothing_left it h))
  loop_sound (suc n) it s v h =
      rw (lt→ltb it.consumed it.total (omega arith), round-step t f g prepare it s (omega arith))
        (one_behind n it s v h (parse_next t (f it.consumed) g (it.cursor, prepare s))
          ((parse_next-Streams t (f it.consumed) g (total_f it.consumed) total_g).sound it.cursor
            (prepare s) v)
          (λ e w k. loop_sound n e.0 e.1 w k))

  pub loop_complete :
      (txs : List Tx) (it : BlockTxIter) (s s' : S) (bs rest : List ℕ)
      → IsValid t it.cursor
      → it.total ≡ it.consumed + length txs
      → Many TxFormat txs bs
      → unread it.cursor ≡ bs ++ rest
      → Rounds f g prepare it.consumed txs s s'
      → while_unconsumed (length txs) (round t f g prepare) (it, s)
        ≡ (ok tt, (at_end it (length bs), s'))
  unfolding while_unconsumed step
  loop_complete [] it s s' bs rest v h many u rounds =
      rw (le→ltb it.consumed it.total (omega arith), many, rounds)
        (ap (λ k. (ok tt, (k, s))) (nothing_left it h))
  loop_complete (x ∷ txs) it s s' bs rest v h (xs, ys, fx, many, e) u (m, hx, rounds) =
      rw
        (
          lt→ltb it.consumed it.total (omega arith),
          round-step t f g prepare it s (omega arith),
          (parse_next-Streams t (f it.consumed) g (total_f it.consumed) total_g).complete it.cursor
              (prepare s) tt xs (ys ++ rest) m v (x, fx, hx) regrouped,
        )
        (loop_complete txs behind m s' ys rest (advance-IsValid t it.cursor v xs _ regrouped)
            (omega arith) many (unread-advance t it.cursor v xs _ regrouped) rounds
          ∙ ap (λ k. (ok tt, (record { cursor = k; total = it.total; consumed = it.total }, s')))
              (advance-advance it.cursor xs ys ∙ rw e))
    where
      regrouped : unread it.cursor ≡ xs ++ (ys ++ rest)
      regrouped = u ∙ rw e (append_assoc xs ys rest)

      behind : BlockTxIter
      behind = record {
        cursor = advance it.cursor (length xs);
        total = it.total;
        consumed = it.consumed + 1;
      }

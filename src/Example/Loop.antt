-- ===== src/Example/Loop.antt =====
-- `while iter.next_tx(…)? { … }`: the loop of the program over a block's transactions.
use blockchain_zc_parser.Base.{
  ℕ, zero, suc, ◌+◌, ◌-◌, ◌≤◌, ◌<◌, ◌≡◌, ◌⊎◌, inl, inr, refl, sym, ap, ◌∙◌, List, [], ◌∷◌, ◌++◌,
  append_assoc, length, true, false, arith,
}
use blockchain_zc_parser.Error.{ParseError, ParseResult, ok, err, fault}
use blockchain_zc_parser.Action.{Action, after}
use blockchain_zc_parser.Target.{Target}
use blockchain_zc_parser.Cursor.{Cursor}
use blockchain_zc_parser.Cursor.Format.{unread, advance, IsValid, unread-advance, advance-IsValid}
use blockchain_zc_parser.Cursor.Rules.{advance-advance}
use blockchain_zc_parser.Cursor.Checks.{Many, advance_zero}
use blockchain_zc_parser.Transaction.{TxInput, TxOutput, Callback}
use blockchain_zc_parser.Transaction.Stream.{StreamRan, accepted}
use blockchain_zc_parser.Transaction.Loops.{IsTotal}
use blockchain_zc_parser.Transaction.Whole.{Tx, TxFormat}
use blockchain_zc_parser.Block.{BlockTxIter, parse_next, next_tx}
use blockchain_zc_parser.Block.Next.{
  Handled, Taken, parse_next-Streams, next_tx_more, next_tx_done, count,
}
use blockchain_zc_parser.Block.Rounds.{at_end}

module _ (t : Target) {S : Type 0} (on_input : Callback S TxInput) (on_output : Callback S TxOutput)
    (body : S → S) where
  -- With fuel; a `fault` says that it ran out.
  unfoldable pub while_next : ℕ → Action (BlockTxIter × S) (Unit {0})
  while_next zero (it, s) = (fault, (it, s))
  while_next (suc fuel) (it, s) =
      after (next_tx t on_input on_output (it, s))
        λ more (it, s). elim more [ true ↦ while_next fuel (it, body s) | false ↦ (ok tt, (it, s)) ]

module _ {S : Type 0} (on_input : Callback S TxInput) (on_output : Callback S TxOutput)
    (body : S → S) where
  -- The closures over the transactions in their order, and the body behind each.
  abbrev pub Passed : List Tx → S → S → Type 0
  Passed [] s s' = s' ≡ s
  Passed (x ∷ xs) s s' = (m : S) × Handled on_input on_output x s m × Passed xs (body m) s'

  -- The loop took every transaction that was left, or stopped with an error.
  pub data Ended (it : BlockTxIter) (s : S)
      : ParseResult (Unit {0}) → BlockTxIter × S → Type 0 where
    ended :
        {d : BlockTxIter × S} (txs : List Tx) (bs rest : List ℕ)
        → it.consumed + length txs ≡ it.total
        → Many TxFormat txs bs
        → unread it.cursor ≡ bs ++ rest
        → Passed txs s d.1
        → d.0 ≡ at_end it (length bs)
        → Ended it s (ok tt) d
    stopped : {e : ParseError} {d : BlockTxIter × S} → Ended it s (err e) d

module _ (t : Target) {S : Type 0} (on_input : Callback S TxInput) (on_output : Callback S TxOutput)
    (body : S → S) (total_in : IsTotal on_input) (total_out : IsTotal on_output) where
  abbrev run : ℕ → BlockTxIter × S → ParseResult (Unit {0}) × (BlockTxIter × S)
  run = while_next t on_input on_output body

  nothing_left : (it : BlockTxIter) → it.consumed ≡ it.total → it ≡ at_end it 0
  nothing_left it h =
      λ k. record { cursor = advance_zero it.cursor k; total = it.total; consumed = h k }

  one_more :
      (it : BlockTxIter) (s m : S) (c : Cursor) (x : Tx) (bs rest : List ℕ)
      → IsValid t it.cursor
      → TxFormat x bs
      → Handled on_input on_output x s m
      → unread it.cursor ≡ bs ++ rest
      → c ≡ advance it.cursor (length bs)
      → {r : ParseResult (Unit {0})} {d : BlockTxIter × S}
      → Ended on_input on_output body
          (record { cursor = c; total = it.total; consumed = it.consumed + 1 })
          (body m)
          r
          d
      → Ended on_input on_output body it s r d
  one_more it s m c x bs rest v fx hx u q (ended txs ys rest₂ l many u₂ passed e) =
      ended (x ∷ txs) (bs ++ ys) rest₂ (omega (arith, l)) (bs, ys, fx, many, refl) whole
        (m, hx, passed)
        (e
          ∙ rw q (
              ap (λ k. record { cursor = k; total = it.total; consumed = it.total })
                (advance-advance it.cursor bs ys)))
    where
      whole : unread it.cursor ≡ (bs ++ ys) ++ rest₂
      whole =
          u
          ∙ rw (sym (unread-advance t it.cursor v bs rest u) ∙ rw q at u₂)
              (sym (append_assoc bs ys rest₂))
  one_more it s m c x bs rest v fx hx u q stopped = stopped

  abbrev continued :
      ℕ
      → BlockTxIter
      → ParseResult (Unit {0}) × (Cursor × S)
      → ParseResult (Unit {0}) × (BlockTxIter × S)
  continued fuel it d =
      after (count t on_input on_output it d)
        λ more (it, s). elim more [ true ↦ run fuel (it, body s) | false ↦ (ok tt, (it, s)) ]

  one_behind :
      (fuel : ℕ) (it : BlockTxIter) (s : S)
      → IsValid t it.cursor
      → it.consumed < it.total
      → (d : ParseResult (Unit {0}) × (Cursor × S))
      → StreamRan (Taken on_input on_output) it.cursor s d.0 d.1
      → ((e : BlockTxIter) (m : S)
          → IsValid t e.cursor
          → e.consumed ≡ it.consumed + 1
          → e.total ≡ it.total
          → Ended on_input on_output body e m (run fuel (e, m)).0 (run fuel (e, m)).1)
      → Ended on_input on_output body it s (continued fuel it d).0 (continued fuel it d).1
  one_behind fuel it s v h (ok u, (c, m)) (accepted bs rest (x, fx, hx) e q) ih =
      one_more it s m c x bs rest v fx hx e q (
        ih (record { cursor = c; total = it.total; consumed = it.consumed + 1 }) (body m)
          (rw q (advance-IsValid t it.cursor v bs rest e)) refl refl)
  one_behind fuel it s v h (err e, d) k ih = stopped
  one_behind fuel it s v h (fault, d) k ih = elim k [ ]

  step :
      (fuel : ℕ) (it : BlockTxIter) (s : S)
      → it.consumed < it.total
      → run (suc fuel) (it, s) ≡ continued fuel it (parse_next t on_input on_output (it.cursor, s))
  unfolding while_next
  step fuel it s h = rw (next_tx_more t on_input on_output it s h)

  stop :
      (fuel : ℕ) (it : BlockTxIter) (s : S)
      → it.total ≤ it.consumed
      → run (suc fuel) (it, s) ≡ (ok tt, (it, s))
  unfolding while_next
  stop fuel it s h = rw (next_tx_done t on_input on_output it s h)

  pub while_next_sound :
      (fuel : ℕ) (it : BlockTxIter) (s : S)
      → IsValid t it.cursor
      → it.consumed ≤ it.total
      → it.total - it.consumed < fuel
      → Ended on_input on_output body it s (run fuel (it, s)).0 (run fuel (it, s)).1
  while_next_sound zero it s v h l = absurd (omega arith)
  while_next_sound (suc fuel) it s v h l =
      by_left (omega arith) (λ k e m w q r. while_next_sound fuel e m w (omega arith) (omega arith))
    where
      by_left :
          (it.total ≤ it.consumed) ⊎ (it.consumed < it.total)
          → (it.consumed < it.total
              → (e : BlockTxIter) (m : S) → IsValid t e.cursor
              → e.consumed ≡ it.consumed + 1
              → e.total ≡ it.total
              → Ended on_input on_output body e m (run fuel (e, m)).0 (run fuel (e, m)).1)
          → Ended on_input on_output body it s (run (suc fuel) (it, s)).0 (run (suc fuel) (it, s)).1
      by_left (inl k) ih = rw (stop fuel it s k) (
          ended [] [] (unread it.cursor) (omega arith) refl refl refl
            (nothing_left it (omega arith)))
      by_left (inr k) ih = rw (step fuel it s k) (
          one_behind fuel it s v k (parse_next t on_input on_output (it.cursor, s))
            ((parse_next-Streams t on_input on_output total_in total_out).sound it.cursor s v)
            (ih k))

  pub while_next_complete :
      (txs : List Tx) (fuel : ℕ) (it : BlockTxIter) (s s' : S) (bs rest : List ℕ)
      → IsValid t it.cursor
      → it.consumed + length txs ≡ it.total
      → length txs < fuel
      → Many TxFormat txs bs
      → unread it.cursor ≡ bs ++ rest
      → Passed on_input on_output body txs s s'
      → run fuel (it, s) ≡ (ok tt, (at_end it (length bs), s'))
  while_next_complete txs zero it s s' bs rest v h l many u passed = absurd (omega arith)
  while_next_complete [] (suc fuel) it s s' bs rest v h l many u passed =
      stop fuel it s (omega arith)
      ∙ rw (many, passed) (ap (λ k. (ok tt, (k, s))) (nothing_left it (omega arith)))
  while_next_complete (x ∷ txs) (suc fuel) it s s' bs rest v h l (xs, ys, fx, many, e) u
        (m, hx, passed) =
      step fuel it s (omega arith)
      ∙ (ap (continued fuel it) (
            (parse_next-Streams t on_input on_output total_in total_out).complete it.cursor s tt xs
              (ys ++ rest) m v (x, fx, hx) regrouped)
          ∙ (while_next_complete txs fuel behind (body m) s' ys rest
                (advance-IsValid t it.cursor v xs _ regrouped) (omega arith) (omega arith) many
                (unread-advance t it.cursor v xs _ regrouped) passed
              ∙ ap
                  (λ k. (ok tt, (record { cursor = k; total = it.total; consumed = it.total }, s')))
                  (advance-advance it.cursor xs ys ∙ rw e)))
    where
      regrouped : unread it.cursor ≡ xs ++ (ys ++ rest)
      regrouped = u ∙ rw e (append_assoc xs ys rest)

      behind : BlockTxIter
      behind = record {
        cursor = advance it.cursor (length xs);
        total = it.total;
        consumed = it.consumed + 1;
      }

-- ===== src/Block/Replay.antt =====
-- `next_tx` and the closures of its caller: the calls that it makes, recorded and replayed.
use blockchain_zc_parser.Base.{
  ℕ, ◌+◌, ◌≡◌, refl, sym, ap, ◌∙◌, Bool, true, false, leb, List, [], if◌then◌else◌,
}
use blockchain_zc_parser.Error.{ParseResult, ok, err, fault}
use blockchain_zc_parser.Action.{after}
use blockchain_zc_parser.Target.{Target}
use blockchain_zc_parser.Cursor.{Cursor, new, as_slice, position, skip}
use blockchain_zc_parser.Transaction.{TxInput, TxOutput, Callback, on_cursor, parse_with}
use blockchain_zc_parser.Transaction.Events.{Log, record_input, record_output, replay, outcome}
use blockchain_zc_parser.Transaction.Replay.{parse_with-outcome}
use blockchain_zc_parser.Transaction.Tail.{Summary}
use blockchain_zc_parser.Block.{BlockTxIter, parse_next, next_tx}

-- The rest of `parse_next` behind the parse: the skip over what the parser read.
abbrev behind :
    {A L : Type 0}
    → Target
    → Cursor
    → ParseResult A × (Cursor × L)
    → ParseResult (Unit {0}) × (Cursor × L)
behind t c (r, (p, s)) = after (r, (c, s)) λ _. on_cursor (skip t (position p))

behind-outcome :
    {S A : Type 0} (t : Target) (w : ParseResult (Unit {0}) × S)
    (d : ParseResult A × (Cursor × Log)) (c k : Cursor)
    → behind t c (outcome w d.0 d.1.0 k) ≡ outcome w (behind t c d).0 (behind t c d).1.0 c
behind-outcome t (ok u, m) (ok a, (p, l)) c k = refl
behind-outcome t (ok u, m) (err e, (p, l)) c k = refl
behind-outcome t (ok u, m) (fault, (p, l)) c k = refl
behind-outcome t (err e, m) d c k = refl
behind-outcome t (fault, m) d c k = refl

behind_log :
    {A : Type 0} (t : Target) (d : ParseResult A × (Cursor × Log)) (c : Cursor)
    → (behind t c d).1.1 ≡ d.1.1
behind_log t (ok a, (p, l)) c = refl
behind_log t (err e, (p, l)) c = refl
behind_log t (fault, (p, l)) c = refl

-- The rest of `next_tx` behind `parse_next`.
abbrev counted :
    {L : Type 0}
    → BlockTxIter
    → ParseResult (Unit {0}) × (Cursor × L)
    → ParseResult Bool × (BlockTxIter × L)
counted it (r, (c, s)) =
    after (r, (record it { cursor = c }, s))
      λ _ (it, s). (ok true, (record it { consumed = it.consumed + 1 }, s))

counted-outcome :
    {S : Type 0} (it : BlockTxIter) (w : ParseResult (Unit {0}) × S)
    (d : ParseResult (Unit {0}) × (Cursor × Log))
    → counted it (outcome w d.0 d.1.0 it.cursor) ≡ outcome w (counted it d).0 (counted it d).1.0 it
counted-outcome it (ok u, m) (ok a, (c, l)) = refl
counted-outcome it (ok u, m) (err e, (c, l)) = refl
counted-outcome it (ok u, m) (fault, (c, l)) = refl
counted-outcome it (err e, m) d = refl
counted-outcome it (fault, m) d = refl

counted_log :
    (it : BlockTxIter) (d : ParseResult (Unit {0}) × (Cursor × Log)) → (counted it d).1.1 ≡ d.1.1
counted_log it (ok a, (c, l)) = refl
counted_log it (err e, (c, l)) = refl
counted_log it (fault, (c, l)) = refl

module _ (t : Target) {S : Type 0} (on_input : Callback S TxInput)
    (on_output : Callback S TxOutput) where
  parse_next-replay :
      (c : Cursor) (s : S)
      → parse_next t on_input on_output (c, s) ≡ (
          let (r, (c', es)) = parse_next t record_input record_output (c, []) in
          outcome (replay on_input on_output es s) r c' c)
  unfolding parse_next
  parse_next-replay c s = go (as_slice c)
    where
      go :
          (r : ParseResult (List ℕ))
          → after
              (r, (c, s))
              (λ rest (c, s). behind t c (parse_with t on_input on_output (new rest, s)))
            ≡ (let (r, (c', es)) =
                  after {S = Cursor × Log}
                    (r, (c, []))
                    (λ rest (c, s).
                      behind t c (parse_with t record_input record_output (new rest, s))) in
                outcome (replay on_input on_output es s) r c' c)
      go (ok rest) =
          let d : ParseResult Summary × (Cursor × Log) =
            parse_with t record_input record_output (new rest, []) in
          let (k, m) = parse_with-outcome t on_input on_output (new rest) s in
          ap (behind t c) m
          ∙ (behind-outcome t (replay on_input on_output d.1.1 s) d c k
              ∙ ap
                  (λ l.
                    outcome (replay on_input on_output l s) (behind t c d).0 (behind t c d).1.0 c)
                  (sym (behind_log t d c)))
      go (err e) = refl
      go fault = refl

  -- On any iterator, `next_tx` does what it does with closures that only record their calls, and then a
  -- replay of the record: if the replay goes through, the result and the iterator are those of the
  -- recording run; at the first call that fails, its error is the result and the iterator is the old
  -- one, so a closure's error leaves the iterator at the transaction that it refused.
  pub next_tx-replay :
      (it : BlockTxIter) (s : S)
      → next_tx t on_input on_output (it, s) ≡ (
          let (r, (it', es)) = next_tx t record_input record_output (it, []) in
          outcome (replay on_input on_output es s) r it' it)
  unfolding next_tx
  next_tx-replay it s = go (leb it.total it.consumed)
    where
      go :
          (b : Bool)
          → (if b
              then (ok false, (it, s))
              else counted it (parse_next t on_input on_output (it.cursor, s)))
            ≡ (let (r, (it', es)) =
                  (if b
                    then (ok false, (it, []))
                    else counted it (parse_next t record_input record_output (it.cursor, []))) in
                outcome (replay on_input on_output es s) r it' it)
      go true = refl
      go false =
          let d : ParseResult (Unit {0}) × (Cursor × Log) =
            parse_next t record_input record_output (it.cursor, []) in
          ap (counted it) (parse_next-replay it.cursor s)
          ∙ (counted-outcome it (replay on_input on_output d.1.1 s) d
              ∙ ap
                  (λ l.
                    outcome (replay on_input on_output l s) (counted it d).0 (counted it d).1.0 it)
                  (sym (counted_log it d)))

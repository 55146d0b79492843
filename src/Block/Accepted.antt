-- ===== src/Block/Accepted.antt =====
-- The iterator over a block's transactions, call by call: what its construction, `next_tx` and
-- `finish_strict` accept, and what an error leaves.
use blockchain_zc_parser.Base.{
  ℕ, ◌+◌, ◌≤◌, ◌<◌, ◌≡◌, ◌≢◌, ◌⊎◌, inl, inr, ◌↔◌, refl, sym, ap, ◌∙◌, List, length, true, false,
  arith,
}
use blockchain_zc_parser.Error.{ParseError, ParseResult, ok, err, fault, and_then}
use blockchain_zc_parser.Target.{Target}
use blockchain_zc_parser.Cursor.{Cursor, new, position, skip}
use blockchain_zc_parser.Cursor.Format.{IsValid, unread, advance}
use blockchain_zc_parser.Cursor.Accepted.{Begins, Decodes-iff}
use blockchain_zc_parser.Transaction.{TxInput, TxOutput, Callback, on_cursor}
use blockchain_zc_parser.Transaction.Witnesses.{new-IsValid}
use blockchain_zc_parser.Transaction.Skip.{skip_front}
use blockchain_zc_parser.Transaction.Stream.{StreamRan}
use blockchain_zc_parser.Transaction.Loops.{IsTotal}
use blockchain_zc_parser.Transaction.Tail.{Summary}
use blockchain_zc_parser.Transaction.Whole.{Parsed}
use blockchain_zc_parser.Transaction.Parse.{parse_with-Streams}
use blockchain_zc_parser.Transaction.Accepted.{StreamBegins, Streams-iff}
use blockchain_zc_parser.Block.{
  BlockHeader, BlockTxIter, read_prefix, new_iter, parse_next, next_tx, finish_strict,
}
use blockchain_zc_parser.Block.Header.{PrefixFormat, read_prefix-Decodes}
use blockchain_zc_parser.Block.Next.{
  Taken, parse_next-Streams, next_tx_done, next_tx_more, count, resume, parse_next-resume,
}
use native.Mathlib.Nat.{zero-add}

ok-ne-err : {A : Type 0} (a : A) (e : ParseError) → ok a ≢ err e
ok-ne-err a e q = cc

module _ (t : Target) (bs : List ℕ) (h : BlockHeader) (it : BlockTxIter) where
  abbrev started : ParseResult (BlockHeader × ℕ) × Cursor → ParseResult (BlockHeader × BlockTxIter)
  started (r, c) =
      and_then r
        λ (header, tx_count). ok (header, record { cursor = c; total = tx_count; consumed = 0 })

  started-inv :
      (r : ParseResult (BlockHeader × ℕ) × Cursor)
      → started r ≡ ok (h, it)
      → (r ≡ (ok (h, it.total), it.cursor)) × (it.consumed ≡ 0)
  started-inv (ok (header, n), c) q = (
    λ i. (ok ((pair i).0, (pair i).1.total), (pair i).1.cursor),
    sym (ap (λ p. p.1.consumed) pair),
  )
    where
      built : BlockHeader × BlockTxIter
      built = (header, record { cursor = c; total = n; consumed = 0 })

      pair : built ≡ (h, it)
      pair = cc
  started-inv (err e, c) q = absurd (cc)
  started-inv (fault, c) q = absurd (cc)

  -- `BlockTxIter::new` gives the header `h` and the iterator `it` exactly when the bytes begin with the
  -- 80 bytes of `h` and an encoding of the iterator's total, which is within the limit, its cursor
  -- stands behind them, and it has consumed nothing. The bytes make a valid cursor.
  pub new_iter_iff :
      IsValid t (new bs)
      → (new_iter t bs ≡ ok (h, it))
        ↔ Begins PrefixFormat (new bs) (h, it.total) it.cursor × (it.consumed ≡ 0)
  unfolding new_iter
  new_iter_iff v = (
    λ q.
        let (r, z) = started-inv (read_prefix t (new bs)) q in
        ((Decodes-iff (read_prefix-Decodes t) (new bs) v (h, it.total) it.cursor).0 r, z),
    λ (b, z).
        ap started ((Decodes-iff (read_prefix-Decodes t) (new bs) v (h, it.total) it.cursor).1 b)
        ∙ ap (λ n. ok (h, record it { consumed = n })) (sym z),
  )

-- `finish_strict` succeeds exactly when every declared transaction is consumed and no byte is unread.
pub finish_strict_iff :
    (it : BlockTxIter)
    → (finish_strict it ≡ ok tt)
      ↔ (it.consumed ≡ it.total) × (length it.cursor.bytes ≤ it.cursor.pos)
unfolding finish_strict
finish_strict_iff it = (λ h. ground arith, λ h. ground arith)

module _ (t : Target) {S : Type 0} (on_input : Callback S TxInput) (on_output : Callback S TxOutput)
    (total_in : IsTotal on_input) (total_out : IsTotal on_output) (it : BlockTxIter) (s : S)
    (v : IsValid t it.cursor) where
  abbrev pub Took : BlockTxIter → S → Type 0
  Took it' s' =
      (it.consumed < it.total)
      × StreamBegins (Taken on_input on_output) it.cursor s tt it'.cursor s'
      × (it'.total ≡ it.total)
      × (it'.consumed ≡ it.consumed + 1)

  counted :
      (r : ParseResult (Unit {0}) × (Cursor × S)) (it' : BlockTxIter) (s' : S)
      → count t on_input on_output it r ≡ (ok true, (it', s'))
      → (r ≡ (ok tt, (it'.cursor, s'))) × (it'.total ≡ it.total) × (it'.consumed ≡ it.consumed + 1)
  counted (ok u, (c, m)) it' s' q = (
    λ i. (ok tt, ((q i).1.0.cursor, (q i).1.1)),
    sym (ap (λ k. k.1.0.total) q),
    sym (ap (λ k. k.1.0.consumed) q),
  )
  counted (err e, d) it' s' q = absurd (cc)
  counted (fault, d) it' s' q = absurd (cc)

  taken_next :
      (it' : BlockTxIter) (s' : S)
      → (it.total ≤ it.consumed) ⊎ (it.consumed < it.total)
      → next_tx t on_input on_output (it, s) ≡ (ok true, (it', s'))
      → Took it' s'
  taken_next it' s' (inl h) q =
      absurd (differ (ap (λ k. k.0) (sym (next_tx_done t on_input on_output it s h) ∙ q)))
    where
      differ : ok false ≢ ok true
      differ p = cc
  taken_next it' s' (inr h) q =
      let (r, same, one) =
        counted (parse_next t on_input on_output (it.cursor, s)) it' s'
          (sym (next_tx_more t on_input on_output it s h) ∙ q) in
      (
        h,
        (Streams-iff (parse_next-Streams t on_input on_output total_in total_out) it.cursor s v tt
              it'.cursor s').0
            r,
        same,
        one,
      )

  -- `next_tx` says that it parsed a transaction, with the iterator `it'` and the closures' state `s'`,
  -- exactly when a declared transaction is left, the unread bytes begin with one that the closures take
  -- from `s` to `s'`, and `it'` stands behind it with one more consumed. The iterator's cursor is valid
  -- and the closures do not panic.
  pub next_tx_iff :
      (it' : BlockTxIter) (s' : S)
      → (next_tx t on_input on_output (it, s) ≡ (ok true, (it', s'))) ↔ Took it' s'
  next_tx_iff it' s' = (
    taken_next it' s' (omega arith),
    λ (h, b, same, one).
        next_tx_more t on_input on_output it s h
        ∙ ap (count t on_input on_output it) (
            (Streams-iff (parse_next-Streams t on_input on_output total_in total_out) it.cursor s v
                tt it'.cursor s').1
              b)
        ∙ λ i. (
          ok true,
          (record { cursor = it'.cursor; total = sym same i; consumed = sym one i }, s'),
        ),
  )

  resume-err :
      (d : ParseResult Summary × (Cursor × S))
      → StreamRan (Parsed on_input on_output) (new (unread it.cursor)) s d.0 d.1
      → (e : ParseError) (k : Cursor × S)
      → resume t on_input on_output total_in total_out it.cursor d ≡ (err e, k)
      → k.0 ≡ it.cursor
  resume-err (ok r, (p, m)) (StreamRan.accepted bs rest f u q) e k w =
      absurd (ok-ne-err tt e (ap (λ j. j.0) (sym skipped) ∙ ap (λ j. j.0) w))
    where
      skipped :
          on_cursor (skip t (position p)) (it.cursor, m)
          ≡ (ok tt, (advance it.cursor (length bs), m))
      skipped =
          ap (λ j. (j.0, (j.1, m)))
            (skip_front t it.cursor v (position p) bs rest u
              (ap (λ j. j.pos) q ∙ zero-add (length bs)))
  resume-err (err x, (p, m)) h e k w = sym (ap (λ j. j.1.0) w)
  resume-err (fault, d) h e k w = elim h [ ]

  taken_err :
      (it' : BlockTxIter) (s' : S) (e : ParseError)
      → (it.total ≤ it.consumed) ⊎ (it.consumed < it.total)
      → next_tx t on_input on_output (it, s) ≡ (err e, (it', s'))
      → it' ≡ it
  taken_err it' s' e (inl h) q =
      absurd
        (ok-ne-err false e (ap (λ k. k.0) (sym (next_tx_done t on_input on_output it s h) ∙ q)))
  taken_err it' s' e (inr h) q =
      failed (parse_next t on_input on_output (it.cursor, s)) refl
        (sym (next_tx_more t on_input on_output it s h) ∙ q)
    where
      failed :
          (r : ParseResult (Unit {0}) × (Cursor × S))
          → parse_next t on_input on_output (it.cursor, s) ≡ r
          → count t on_input on_output it r ≡ (err e, (it', s'))
          → it' ≡ it
      failed (ok u, d) w p = absurd (ok-ne-err true e (ap (λ k. k.0) p))
      failed (err x, (c, m)) w p =
          sym (ap (λ k. k.1.0) p)
          ∙ ap (λ k. record it { cursor = k })
              (resume-err _
                ((parse_with-Streams t on_input on_output total_in total_out).sound
                  (new (unread it.cursor)) s (new-IsValid t it.cursor v))
                x (c, m)
                (sym (parse_next-resume t on_input on_output total_in total_out it.cursor s v) ∙ w))
      failed (fault, d) w p = absurd (cc)

  -- When `next_tx` fails, the iterator is as it was: neither its cursor nor its count has moved. The
  -- iterator's cursor is valid and the closures do not panic.
  pub next_tx_err :
      (it' : BlockTxIter) (s' : S) (e : ParseError)
      → next_tx t on_input on_output (it, s) ≡ (err e, (it', s'))
      → it' ≡ it
  next_tx_err it' s' e q = taken_err it' s' e (omega arith) q

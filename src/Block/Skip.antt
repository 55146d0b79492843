-- ===== src/Block/Skip.antt =====
-- `skip_remaining`: the loop over the transactions with closures that take everything.
use blockchain_zc_parser.Base.{
  ℕ, ◌+◌, ◌≤◌, ◌≡◌, ◌↔◌, refl, sym, ap, ◌∙◌, List, [], ◌∷◌, ◌++◌, length, arith,
}
use blockchain_zc_parser.Error.{ParseResult, ok, err, fault}
use blockchain_zc_parser.Target.{Target}
use blockchain_zc_parser.Cursor.Format.{unread, IsValid}
use blockchain_zc_parser.Cursor.Checks.{Many}
use blockchain_zc_parser.Transaction.Loops.{IsTotal, for_each}
use blockchain_zc_parser.Transaction.Whole.{Tx, TxFormat}
use blockchain_zc_parser.Block.{BlockTxIter, accept, while_unconsumed, rounds, skip_remaining}
use blockchain_zc_parser.Block.Rounds.{
  round, Rounds, Looped, looped, loop_sound, loop_complete, at_end,
}

accept-IsTotal : {A : Type 0} → IsTotal (accept {A = A})
accept-IsTotal a s h = cc

for_each-accept : {A : Type 0} (as' : List A) → for_each accept as' tt ≡ (ok tt, tt)
for_each-accept [] = refl
for_each-accept (a ∷ as') = for_each-accept as'

abbrev outcome :
    ParseResult (Unit {0}) × (BlockTxIter × Unit {0}) → ParseResult (Unit {0}) × BlockTxIter
outcome d = (d.0, d.1.0)

abbrev same : Unit {0} → Unit {0}
same s = s

accepts : (i : ℕ) (txs : List Tx) → Rounds (λ _. accept) accept same i txs tt tt
accepts i [] = refl
accepts i (x ∷ txs) =
    (tt, (tt, for_each-accept x.inputs, for_each-accept x.outputs), accepts (i + 1) txs)

module _ (t : Target) (it : BlockTxIter) (v : IsValid t it.cursor)
    (h : it.consumed ≤ it.total) where
  -- The unread bytes begin with the transactions that are not yet consumed, and `it'` stands behind them.
  abbrev pub Skips : BlockTxIter → Type 0
  Skips it' =
      (txs : List Tx) × (bs : List ℕ) × (rest : List ℕ) × (it.consumed + length txs ≡ it.total)
      × Many TxFormat txs bs
      × (unread it.cursor ≡ bs ++ rest)
      × (it' ≡ at_end it (length bs))

  skipped :
      (it' : BlockTxIter) (d : ParseResult (Unit {0}) × (BlockTxIter × Unit {0}))
      → Looped (λ _. accept) accept same it tt (rounds it) d.0 d.1
      → outcome d ≡ (ok tt, it')
      → Skips it'
  skipped it' (ok u, (e, s)) (looped txs bs rest l many g rnds q) p =
      (txs, bs, rest, omega (arith, l), many, g, sym (ap (λ k. k.1) p) ∙ q)
  skipped it' (err x, d) k p = absurd (cc)
  skipped it' (fault, d) k p = elim k [ ]

  -- `skip_remaining` succeeds and leaves `it'` exactly when the unread bytes begin with as many
  -- transactions as are not yet consumed, and `it'` stands behind them with all of them consumed. The
  -- iterator's cursor is valid and it has not consumed more than its total.
  pub skip_remaining_iff : (it' : BlockTxIter) → (skip_remaining t it ≡ (ok tt, it')) ↔ Skips it'
  unfolding skip_remaining
  skip_remaining_iff it' = (
    skipped it' (while_unconsumed (rounds it) (round t (λ _. accept) accept same) (it, tt)) (
        loop_sound t (λ _. accept) accept same (λ _. accept-IsTotal) accept-IsTotal (rounds it) it
          tt v (omega arith)),
    λ (txs, bs, rest, l, many, g, q).
        ap (λ n. run n) (count txs l)
        ∙ (ap outcome (
              loop_complete t (λ _. accept) accept same (λ _. accept-IsTotal) accept-IsTotal txs it
                tt tt bs rest v (sym l) many g (accepts it.consumed txs))
            ∙ ap (λ k. (ok tt, k)) (sym q)),
  )
    where
      run : ℕ → ParseResult (Unit {0}) × BlockTxIter
      run n = outcome (while_unconsumed n (round t (λ _. accept) accept same) (it, tt))

      count : (txs : List Tx) → it.consumed + length txs ≡ it.total → rounds it ≡ length txs
      count txs l = omega (arith, l)

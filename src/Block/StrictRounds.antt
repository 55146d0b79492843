-- ===== src/Block/StrictRounds.antt =====
-- The rounds of `consume_all_strict`: what its wrapped closures make of the transactions.
use blockchain_zc_parser.Base.{
  ℕ, suc, ◌+◌, ◌≡◌, refl, sym, ap, ◌∙◌, subst, List, [], ◌∷◌, length, Bool, true, false,
  if◌then◌else◌, arith,
}
use blockchain_zc_parser.Cursor.Format.{unread}
use blockchain_zc_parser.Cursor.Checks.{Many}
use blockchain_zc_parser.Transaction.{TxInput, TxOutput, Callback}
use blockchain_zc_parser.Transaction.Loops.{IsTotal}
use blockchain_zc_parser.Transaction.Whole.{Tx, TxFormat}
use blockchain_zc_parser.Block.{BlockTxIter}
use blockchain_zc_parser.Block.Next.{Handled}
use blockchain_zc_parser.Block.Strict.{Strict, reset, wrapped_on_input, wrapped_on_output}
use blockchain_zc_parser.Block.Wrapped.{starts_coinbase, Handled-wrapped, wrapped-Handled}
use blockchain_zc_parser.Block.Rounds.{Rounds}

abbrev pub NoCoinbase : List Tx → Type 0
NoCoinbase [] = Unit
NoCoinbase (x ∷ xs) = (starts_coinbase x.inputs ≡ false) × NoCoinbase xs

-- A coinbase, and no other behind it.
abbrev pub CoinbaseFirst : List Tx → Type 0
CoinbaseFirst [] = ⊥
CoinbaseFirst (x ∷ xs) = (starts_coinbase x.inputs ≡ true) × NoCoinbase xs

-- The closures over the transactions in their order.
abbrev pub HandledAll :
    {S : Type 0} → Callback S TxInput → Callback S TxOutput → List Tx → S → S → Type 0
HandledAll on_input on_output [] s s' = s' ≡ s
HandledAll {S} on_input on_output (x ∷ xs) s s' =
    (m : S) × Handled on_input on_output x s m × HandledAll on_input on_output xs m s'

-- The unread bytes are `total` transactions, the first the only coinbase, and the closures take them.
abbrev pub StrictBlock :
    {S : Type 0} → Callback S TxInput → Callback S TxOutput → BlockTxIter → S → S → Type 0
StrictBlock on_input on_output it s s' =
    (txs : List Tx) × (length txs ≡ it.total)
    × Many TxFormat txs (unread it.cursor)
    × CoinbaseFirst txs
    × HandledAll on_input on_output txs s s'

module _ {S : Type 0} (on_input : Callback S TxInput) (on_output : Callback S TxOutput) where
  abbrev Strictly : ℕ → List Tx → Strict S → Strict S → Type 0
  Strictly = Rounds (wrapped_on_input on_input) (wrapped_on_output on_output) reset

  -- Behind the first transaction no coinbase passes.
  rounds_behind :
      (i : ℕ) (txs : List Tx) (bs : List ℕ) (st st' : Strict S)
      → Many TxFormat txs bs
      → Strictly (suc i) txs st st'
      → NoCoinbase txs
        × HandledAll on_input on_output txs st.user st'.user
        × (st'.coinbase_txs ≡ st.coinbase_txs)
  rounds_behind i [] bs st st' many e = (tt, ap (λ k. k.user) e, ap (λ k. k.coinbase_txs) e)
  rounds_behind i (x ∷ txs) bs st st' (xs, ys, fx, many, g) (m, h, rest) =
      let (handled, first, count) =
        Handled-wrapped on_input on_output (suc i) x fx.some_input st m h in
      let plain : starts_coinbase x.inputs ≡ false = not_first (starts_coinbase x.inputs) first in
      let (none, all, count₂) =
        rounds_behind (suc i) txs ys m st' many
          (subst (λ k. Strictly k txs m st') (omega arith) rest) in
      ((plain, none), (m.user, handled, all), count₂ ∙ (count ∙ rw plain))
    where
      not_first : (b : Bool) → (b ≡ true → suc i ≡ 0) → b ≡ false
      not_first true f = absurd (omega (arith, f refl))
      not_first false f = refl

  behind_rounds :
      (i : ℕ) (txs : List Tx) (bs : List ℕ) (st : Strict S) (s' : S)
      → Many TxFormat txs bs
      → NoCoinbase txs
      → HandledAll on_input on_output txs st.user s'
      → (st' : Strict S) × Strictly (suc i) txs st st'
        × (st'.user ≡ s')
        × (st'.coinbase_txs ≡ st.coinbase_txs)
  behind_rounds i [] bs st s' many none e = (st, refl, sym e, refl)
  behind_rounds i (x ∷ txs) bs st s' (xs, ys, fx, many, g) (plain, none) (m, handled, all) =
      let (mid, h, user, count) =
        wrapped-Handled on_input on_output (suc i) x fx.some_input st m handled
          (λ c. absurd (cc)) in
      let (st', rest, user₂, count₂) =
        behind_rounds (suc i) txs ys mid s' many none
          (subst (λ k. HandledAll on_input on_output txs k s') (sym user) all) in
      (
        st',
        (mid, h, subst (λ k. Strictly k txs mid st') (omega arith) rest),
        user₂,
        count₂ ∙ (count ∙ rw plain),
      )

  pub rounds_whole :
      (txs : List Tx) (bs : List ℕ) (st st' : Strict S)
      → Many TxFormat txs bs
      → Strictly 0 txs st st'
      → st.coinbase_txs ≡ 0
      → st'.coinbase_txs ≡ 1
      → CoinbaseFirst txs × HandledAll on_input on_output txs st.user st'.user
  rounds_whole [] bs st st' many e z one = absurd (omega (arith, ap (λ k. k.coinbase_txs) e))
  rounds_whole (x ∷ txs) bs st st' (xs, ys, fx, many, g) (m, h, rest) z one =
      let (handled, first, count) = Handled-wrapped on_input on_output 0 x fx.some_input st m h in
      let (none, all, count₂) = rounds_behind 0 txs ys m st' many rest in
      (
        (counted (starts_coinbase x.inputs) (sym count ∙ (sym count₂ ∙ one)), none),
        (m.user, handled, all),
      )
    where
      counted : (b : Bool) → (if b then st.coinbase_txs + 1 else st.coinbase_txs) ≡ 1 → b ≡ true
      counted true e = refl
      counted false e = absurd (omega arith)

  pub whole_rounds :
      (txs : List Tx) (bs : List ℕ) (st : Strict S) (s' : S)
      → Many TxFormat txs bs
      → CoinbaseFirst txs
      → HandledAll on_input on_output txs st.user s'
      → st.coinbase_txs ≡ 0
      → (st' : Strict S) × Strictly 0 txs st st' × (st'.user ≡ s') × (st'.coinbase_txs ≡ 1)
  whole_rounds [] bs st s' many c all z = elim c [ ]
  whole_rounds (x ∷ txs) bs st s' (xs, ys, fx, many, g) (c, none) (m, handled, all) z =
      let (mid, h, user, count) =
        wrapped-Handled on_input on_output 0 x fx.some_input st m handled (λ _. refl) in
      let (st', rest, user₂, count₂) =
        behind_rounds 0 txs ys mid s' many none
          (subst (λ k. HandledAll on_input on_output txs k s') (sym user) all) in
      (st', (mid, h, rest), user₂, count₂ ∙ (count ∙ rw (c, z) (omega arith)))

  pub wrapped-IsTotal : IsTotal on_input → (i : ℕ) → IsTotal (wrapped_on_input on_input i)
  unfolding wrapped_on_input
  wrapped-IsTotal total i a st = ground (arith, total a st.user)

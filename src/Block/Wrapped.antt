-- ===== src/Block/Wrapped.antt =====
-- What the wrapped closures of `consume_all_strict` do over the inputs of one transaction.
use blockchain_zc_parser.Base.{
  ℕ, ◌+◌, ◌≡◌, ◌≢◌, refl, sym, ap, ◌∙◌, List, [], ◌∷◌, length, Bool, true, false, not, ◌&&◌, ◌==◌,
  if◌then◌else◌, Bool-cases, inl, inr, arith,
}
use blockchain_zc_parser.Error.{ParseResult, ok, err, fault, invalid_coinbase_count}
use blockchain_zc_parser.Action.{Action, after}
use blockchain_zc_parser.Transaction.{TxInput, TxOutput, Callback, out_point_is_coinbase}
use blockchain_zc_parser.Transaction.Loops.{for_each}
use blockchain_zc_parser.Transaction.Whole.{Tx}
use blockchain_zc_parser.Block.Next.{Handled}
use blockchain_zc_parser.Block.Strict.{
  Strict, lifted, enter, reset, wrapped_on_input, wrapped_on_output,
}

-- Whether a transaction is a coinbase: by its first input.
abbrev pub starts_coinbase : List TxInput → Bool
starts_coinbase [] = false
starts_coinbase (i ∷ _) = out_point_is_coinbase i.previous_output

module _ {S : Type 0} where
  abbrev put_user : Strict S → ParseResult (Unit {0}) × S → ParseResult (Unit {0}) × Strict S
  put_user st (r, s) = (r, record st { user = s })

  after-lifted :
      (st : Strict S) (r : ParseResult (Unit {0}) × S) (k : Action (Strict S) (Unit {0}))
      (k' : Action S (Unit {0}))
      → ((s : S) → k (record st { user = s }) ≡ lifted k' (record st { user = s }))
      → after (put_user st r) (λ _. k) ≡ put_user st (after r (λ _. k'))
  after-lifted st (ok u, s) k k' h = h s
  after-lifted st (err e, s) k k' h = refl
  after-lifted st (fault, s) k k' h = refl

  -- A loop of calls of the user's closure is a call of its loop.
  pub for_each-lifted :
      {A : Type 0} (f : Callback S A) (as' : List A) (st : Strict S)
      → for_each (λ a. lifted (f a)) as' st ≡ lifted (for_each f as') st
  for_each-lifted f [] st = refl
  for_each-lifted f (a ∷ as') st =
      after-lifted st (f a st.user) _ (for_each f as')
        (λ s. for_each-lifted f as' (record st { user = s }))

  lifted-inv :
      (m : Action S (Unit {0})) (st st' : Strict S)
      → lifted m st ≡ (ok tt, st')
      → (u : S) × (m st.user ≡ (ok tt, u)) × (st' ≡ record st { user = u })
  lifted-inv m st st' e = go (m st.user) refl e
    where
      go :
          (r : ParseResult (Unit {0}) × S)
          → m st.user ≡ r
          → put_user st r ≡ (ok tt, st')
          → (u : S) × (m st.user ≡ (ok tt, u)) × (st' ≡ record st { user = u })
      go (ok w, u) q h = (u, q, sym (ap (λ k. k.1) h))
      go (err x, u) q h = absurd (cc)
      go (fault, u) q h = absurd (cc)

  module _ (on_input : Callback S TxInput) (i : ℕ) where
    seen_once :
        (a : TxInput) (st : Strict S)
        → st.saw_first_input ≡ true
        → wrapped_on_input on_input i a st ≡ lifted (on_input a) st
    unfolding wrapped_on_input
    seen_once a st h = skip_if st.saw_first_input h _ _
      where
        skip_if :
            (b : Bool)
            → b ≡ true
            → (x y : ParseResult (Unit {0}) × Strict S) → (if not b then x else y) ≡ y
        skip_if true e x y = refl
        skip_if false e x y = cc

    -- Behind the first input the wrapped closure is the user's.
    wrapped_seen :
        (inputs : List TxInput) (st : Strict S)
        → st.saw_first_input ≡ true
        → for_each (wrapped_on_input on_input i) inputs st ≡ lifted (for_each on_input inputs) st
    wrapped_seen [] st h = refl
    wrapped_seen (a ∷ as') st h =
        ap (λ r. after r (λ _. for_each (wrapped_on_input on_input i) as')) (seen_once a st h)
        ∙ (after-lifted st (on_input a st.user) _ (for_each on_input as')
            (λ s. wrapped_seen as' (record st { user = s }) h))

    -- Over a whole transaction: a coinbase behind the first transaction is refused.
    wrapped_all :
        (a : TxInput) (as' : List TxInput) (st : Strict S)
        → let is_coinbase = starts_coinbase (a ∷ as') in
          for_each (wrapped_on_input on_input i) (a ∷ as') (reset st) ≡ (
            if is_coinbase && not (i == 0)
            then (
              err (invalid_coinbase_count (enter is_coinbase (reset st)).coinbase_txs),
              enter is_coinbase (reset st),
            )
            else lifted (for_each on_input (a ∷ as')) (enter is_coinbase (reset st)))
    unfolding wrapped_on_input
    wrapped_all a as' st =
        elim (Bool-cases (out_point_is_coinbase a.previous_output && not (i == 0))) [
          | inl h ↦ rw h
          | inr h ↦ rw h (
              after-lifted entered (on_input a st.user) _ (for_each on_input as')
                (λ s. wrapped_seen as' (record entered { user = s }) refl))
        ]
      where
        entered : Strict S
        entered = enter (out_point_is_coinbase a.previous_output) (reset st)

module _ {S : Type 0} (on_input : Callback S TxInput) (on_output : Callback S TxOutput) (i : ℕ)
    (x : Tx) (some_input : length x.inputs ≢ 0) where
  abbrev is_coinbase : Bool
  is_coinbase = starts_coinbase x.inputs

  abbrev entered : Strict S → Strict S
  entered st = enter is_coinbase (reset st)

  inputs_wrapped :
      (inputs : List TxInput) (st : Strict S)
      → length inputs ≢ 0
      → for_each (wrapped_on_input on_input i) inputs (reset st) ≡ (
          if starts_coinbase inputs && not (i == 0)
          then (
            err (invalid_coinbase_count (enter (starts_coinbase inputs) (reset st)).coinbase_txs),
            enter (starts_coinbase inputs) (reset st),
          )
          else lifted (for_each on_input inputs) (enter (starts_coinbase inputs) (reset st)))
  inputs_wrapped [] st h = absurd (h refl)
  inputs_wrapped (a ∷ as') st h = wrapped_all on_input i a as' st

  Bounded : Strict S → Strict S → Type 0
  Bounded st st' =
      Handled on_input on_output x st.user st'.user
      × (is_coinbase ≡ true → i ≡ 0)
      × (st'.coinbase_txs ≡ (if is_coinbase then st.coinbase_txs + 1 else st.coinbase_txs))

  passed :
      (st m st' : Strict S)
      → is_coinbase && not (i == 0) ≡ false
      → lifted (for_each on_input x.inputs) (entered st) ≡ (ok tt, m)
      → lifted (for_each on_output x.outputs) m ≡ (ok tt, st')
      → Bounded st st'
  unfolding Bounded
  passed st m st' h run hrun =
      let (u, q, e) = lifted-inv (for_each on_input x.inputs) (entered st) m run in
      let (w, q₂, e₂) = lifted-inv (for_each on_output x.outputs) m st' hrun in
      (
        (
          u,
          q,
          ap (for_each on_output x.outputs) (sym (ap (λ k. k.user) e))
              ∙ (q₂ ∙ ap (λ k. (ok tt, k)) (sym (ap (λ k. k.user) e₂))),
        ),
        (λ c. only_first is_coinbase h c),
        ap (λ k. k.coinbase_txs) e₂ ∙ ap (λ k. k.coinbase_txs) e,
      )
    where
      only_first : (b : Bool) → b && not (i == 0) ≡ false → b ≡ true → i ≡ 0
      only_first b p c = ground arith

  -- A transaction that the wrapped closures take is one that the user's take, and a coinbase only if
  -- it is the first; the coinbases are counted.
  pub Handled-wrapped :
      (st st' : Strict S)
      → Handled (wrapped_on_input on_input i) (wrapped_on_output on_output) x (reset st) st'
      → Handled on_input on_output x st.user st'.user
        × (is_coinbase ≡ true → i ≡ 0)
        × (st'.coinbase_txs ≡ (if is_coinbase then st.coinbase_txs + 1 else st.coinbase_txs))
  unfolding Bounded
  Handled-wrapped st st' (m, run, hrun) = elim (Bool-cases (is_coinbase && not (i == 0))) [
    | inl h ↦ absurd (cc (rw h at (sym (inputs_wrapped x.inputs st some_input) ∙ run)))
    | inr h ↦
        passed st m st' h (rw h at (sym (inputs_wrapped x.inputs st some_input) ∙ run))
          (sym (for_each-lifted on_output x.outputs m) ∙ hrun)
  ]

  pub wrapped-Handled :
      (st : Strict S) (s' : S)
      → Handled on_input on_output x st.user s'
      → (is_coinbase ≡ true → i ≡ 0)
      → (st' : Strict S) × Handled
          (wrapped_on_input on_input i)
          (wrapped_on_output on_output)
          x
          (reset st)
          st'
        × (st'.user ≡ s')
        × (st'.coinbase_txs ≡ (if is_coinbase then st.coinbase_txs + 1 else st.coinbase_txs))
  wrapped-Handled st s' (m, run, hrun) first = (
    record (entered st) { user = s' },
    (
      record (entered st) { user = m },
      inputs_wrapped x.inputs st some_input
          ∙ rw (allowed is_coinbase first) (ap (put_user (entered st)) run),
      for_each-lifted on_output x.outputs (record (entered st) { user = m })
          ∙ ap (put_user (entered st)) hrun,
    ),
    refl,
    refl,
  )
    where
      allowed : (b : Bool) → (b ≡ true → i ≡ 0) → b && not (i == 0) ≡ false
      allowed true f = rw (f refl)
      allowed false f = refl

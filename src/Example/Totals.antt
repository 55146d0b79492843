-- ===== src/Example/Totals.antt =====
-- The counters of `main` in closed form.
use Prim.Native.Nat.{min}
use blockchain_zc_parser.Base.{
  ◌-◌, ◌^◌, ◌≤◌, ℕ, ◌+◌, ◌≡◌, refl, sym, ap, ◌∙◌, List, [], ◌∷◌, ◌++◌, length, true, false,
  if◌then◌else◌, arith,
}
use blockchain_zc_parser.Transaction.{TxInput, TxOutput, is_coinbase}
use blockchain_zc_parser.Transaction.Whole.{Tx}
use blockchain_zc_parser.Block.Wrapped.{starts_coinbase}
use blockchain_zc_parser.Example.Lines.{saturating_add}
use blockchain_zc_parser.Example.Listing.{coinbases_of, outputs_of, sum_of}
use blockchain_zc_parser.Example.Tally.{Tally, add, sees, adds, pass, passes}

-- The values of outputs, summed up from `n` as the program does it.
abbrev sum_from : ℕ → List TxOutput → ℕ
sum_from n [] = n
sum_from n (out ∷ outs) = sum_from (saturating_add n out.value) outs

saturating_add-min : (a b : ℕ) → saturating_add a b ≡ min (a + b) (2 ^ 64 - 1)
saturating_add-min a b = ground arith

-- It stops at the largest `u64`.
pub sum_from_lem :
    (n : ℕ) (outs : List TxOutput)
    → n ≤ 2 ^ 64 - 1
    → sum_from n outs ≡ min (n + sum_of outs) (2 ^ 64 - 1)
sum_from_lem n [] h = omega (arith, h)
sum_from_lem n (out ∷ outs) h =
    sum_from_lem (saturating_add n out.value) outs (omega (arith, saturating_add-min n out.value))
    ∙ omega (arith, saturating_add-min n out.value)

sum_from-append :
    (n : ℕ) (xs ys : List TxOutput) → sum_from n (xs ++ ys) ≡ sum_from (sum_from n xs) ys
sum_from-append n [] ys = refl
sum_from-append n (x ∷ xs) ys = sum_from-append (saturating_add n x.value) xs ys

abbrev first_seen : TxInput → Tally → Tally
first_seen i a = record a {
  coinbases = (if is_coinbase i then a.coinbases + 1 else a.coinbases);
  saw = true;
}

sees_shut : (is : List TxInput) (a : Tally) → a.saw ≡ true → sees is a ≡ a
sees_shut [] a h = refl
sees_shut (i ∷ is) a h = ap (λ b. sees is (if b then a else first_seen i a)) h ∙ sees_shut is a h

-- The first input decides.
sees_open :
    (is : List TxInput) (a : Tally)
    → a.saw ≡ false
    → ((sees is a).idx ≡ a.idx)
      × ((sees is a).value ≡ a.value)
      × ((sees is a).coinbases ≡ (if starts_coinbase is then 1 else 0) + a.coinbases)
unfolding is_coinbase
sees_open [] a h = (refl, refl, omega arith)
sees_open (i ∷ is) a h =
    let e : sees (i ∷ is) a ≡ first_seen i a =
      ap (λ b. sees is (if b then a else first_seen i a)) h ∙ sees_shut is (first_seen i a) refl in
    (ap (λ k. k.idx) e, ap (λ k. k.value) e, ap (λ k. k.coinbases) e ∙ ground arith)

adds_lem :
    (outs : List TxOutput) (a : Tally) → adds outs a ≡ record a { value = sum_from a.value outs }
adds_lem [] a = refl
adds_lem (out ∷ outs) a = adds_lem outs (add out a)

pub passes_lem :
    (txs : List Tx) (a : Tally)
    → a.saw ≡ false
    → ((passes txs a).idx ≡ a.idx + length txs)
      × ((passes txs a).coinbases ≡ a.coinbases + coinbases_of txs)
      × ((passes txs a).value ≡ sum_from a.value (outputs_of txs))
passes_lem [] a h = (omega arith, omega arith, refl)
passes_lem (x ∷ txs) a h =
    let (i, v, c) = sees_open x.inputs a h in
    let b : Tally = pass x a in
    let same : adds x.outputs (sees x.inputs a)
        ≡ record (sees x.inputs a) { value = sum_from (sees x.inputs a).value x.outputs } =
      adds_lem x.outputs (sees x.inputs a) in
    let (i', c', v') = passes_lem txs (pass x a) refl in
    (
      i' ∙ omega (arith, ap (λ k. k.idx) same, i),
      c' ∙ omega (arith, ap (λ k. k.coinbases) same, c),
      v'
          ∙ (ap (λ n. sum_from n (outputs_of txs))
                (ap (λ k. k.value) same ∙ ap (λ n. sum_from n x.outputs) v)
              ∙ sym (sum_from-append a.value x.outputs (outputs_of txs))),
    )

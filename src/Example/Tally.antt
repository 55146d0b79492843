-- ===== src/Example/Tally.antt =====
-- What the closures of `main` do to its counters, whatever they print.
use Prim.Native.String.{String}
use blockchain_zc_parser.Base.{
  ℕ, ◌+◌, ◌≡◌, ◌≢◌, refl, sym, ap, ◌∙◌, List, [], ◌∷◌, Bool, true, false, ◌||◌, if◌then◌else◌,
  Bool-cases, ◌⊎◌, inl, inr, arith,
}
use blockchain_zc_parser.Error.{ParseResult, ok, fault}
use blockchain_zc_parser.Script.Classify.{
  ScriptType, p2pkh, p2sh, p2wpkh, p2wsh, p2tr, p2pk, op_return, multisig, unknown, classify,
}
use blockchain_zc_parser.Script.Templates.{classify-ok}
use blockchain_zc_parser.Transaction.{TxInput, TxOutput, is_coinbase}
use blockchain_zc_parser.Transaction.Loops.{for_each, for_each-cons, IsTotal}
use blockchain_zc_parser.Transaction.Whole.{Tx}
use blockchain_zc_parser.Example.Opts.{Opts}
use blockchain_zc_parser.Example.Loop.{Passed}
use blockchain_zc_parser.Example.Report.{print_output, print_typed, on_input, on_output, count_tx}
use blockchain_zc_parser.Example.Lines.{Line, Report, saturating_add, print_if}

ok-ne-fault : (u : Unit {0}) → ok u ≢ fault
ok-ne-fault u z = cc

-- The counters without the lines.
pub record Tally : Type 0 where
  pub idx : ℕ
  pub coinbases : ℕ
  pub saw : Bool
  pub value : ℕ

abbrev pub tally : Report → Tally
tally r = record {
  idx = r.tx_idx;
  coinbases = r.coinbase_txs;
  saw = r.saw_first_input_in_tx;
  value = r.total_value;
}

abbrev pub see : TxInput → Tally → Tally
see i a = if a.saw then a else record a {
  coinbases = (if is_coinbase i then a.coinbases + 1 else a.coinbases);
  saw = true;
}

abbrev pub add : TxOutput → Tally → Tally
add out a = record a { value = saturating_add a.value out.value }

module _ (o : Opts) where
  pub tally-print_if : (b : Bool) (l : Line) (r : Report) → tally (print_if b l r) ≡ tally r
  tally-print_if true l r = refl
  tally-print_if false l r = refl

  on_input-see :
      (i : TxInput) (r : Report)
      → (m : Report) × (on_input o i r ≡ (ok tt, m)) × (tally m ≡ see i (tally r))
  unfolding on_input
  on_input-see i r = ((on_input o i r).1, ground arith, ground arith)

  tally-print_output :
      (out : TxOutput) (kind : String) (r : Report) → tally (print_output o out kind r) ≡ tally r
  unfolding print_output
  tally-print_output out kind r = ground arith

  tally-print_typed :
      (out : TxOutput) (s : ScriptType) (r : Report) → tally (print_typed o out s r) ≡ tally r
  unfolding print_typed
  tally-print_typed out (p2pkh h) r = tally-print_output out _ r
  tally-print_typed out (p2sh h) r = tally-print_output out _ r
  tally-print_typed out (p2wpkh h) r = tally-print_output out _ r
  tally-print_typed out (p2wsh h) r = tally-print_output out _ r
  tally-print_typed out (p2tr h) r = tally-print_output out _ r
  tally-print_typed out (p2pk h) r = tally-print_output out _ r
  tally-print_typed out (op_return d) r = tally-print_output out _ r
  tally-print_typed out (multisig m n) r = tally-print_if _ _ r
  tally-print_typed out unknown r = tally-print_output out _ r

  on_output-add :
      (out : TxOutput) (r : Report)
      → (m : Report) × (on_output o out r ≡ (ok tt, m)) × (tally m ≡ add out (tally r))
  unfolding on_output
  on_output-add out r =
      quiet (Bool-cases (o.summary || o.no_outputs)) (classify-ok out.script_pubkey.bytes)
    where
      added : Report
      added = record r { total_value = saturating_add r.total_value out.value }

      quiet :
          ((o.summary || o.no_outputs) ≡ true) ⊎ ((o.summary || o.no_outputs) ≡ false)
          → ((s : ScriptType) × (classify out.script_pubkey.bytes ≡ ok s))
          → (m : Report) × (on_output o out r ≡ (ok tt, m)) × (tally m ≡ add out (tally r))
      quiet (inl h) k = (added, rw h, refl)
      quiet (inr h) (s, e) = (print_typed o out s added, rw (h, e), tally-print_typed out s added)

abbrev pub sees : List TxInput → Tally → Tally
sees [] a = a
sees (i ∷ is) a = sees is (see i a)

abbrev pub adds : List TxOutput → Tally → Tally
adds [] a = a
adds (out ∷ outs) a = adds outs (add out a)

-- One transaction, with the body of the loop.
abbrev pub pass : Tx → Tally → Tally
pass x a = let b = adds x.outputs (sees x.inputs a) in record b { idx = b.idx + 1; saw = false }

abbrev pub passes : List Tx → Tally → Tally
passes [] a = a
passes (x ∷ xs) a = passes xs (pass x a)

module _ (o : Opts) where
  pub on_input-IsTotal : IsTotal (on_input o)
  on_input-IsTotal i r h =
      let (m, e, q) = on_input-see o i r in absurd (ok-ne-fault tt (sym (ap (λ k. k.0) e) ∙ h))

  pub on_output-IsTotal : IsTotal (on_output o)
  on_output-IsTotal out r h =
      let (m, e, q) = on_output-add o out r in absurd (ok-ne-fault tt (sym (ap (λ k. k.0) e) ∙ h))

  for_each-sees :
      (is : List TxInput) (r : Report)
      → (m : Report) × (for_each (on_input o) is r ≡ (ok tt, m)) × (tally m ≡ sees is (tally r))
  for_each-sees [] r = (r, refl, refl)
  for_each-sees (i ∷ is) r =
      let (m, e, q) = on_input-see o i r in
      let (m', e', q') = for_each-sees is m in
      (m', for_each-cons (on_input o) i is r m e ∙ e', q' ∙ ap (sees is) q)

  for_each-adds :
      (outs : List TxOutput) (r : Report)
      → (m : Report) × (for_each (on_output o) outs r ≡ (ok tt, m))
        × (tally m ≡ adds outs (tally r))
  for_each-adds [] r = (r, refl, refl)
  for_each-adds (out ∷ outs) r =
      let (m, e, q) = on_output-add o out r in
      let (m', e', q') = for_each-adds outs m in
      (m', for_each-cons (on_output o) out outs r m e ∙ e', q' ∙ ap (adds outs) q)

  -- The closures take every transaction.
  pub passed :
      (txs : List Tx) (r : Report)
      → (m : Report) × Passed (on_input o) (on_output o) count_tx txs r m
        × (tally m ≡ passes txs (tally r))
  passed [] r = (r, refl, refl)
  passed (x ∷ txs) r =
      let (a, ea, qa) = for_each-sees x.inputs r in
      let (b, eb, qb) = for_each-adds x.outputs a in
      let (m, p, q) = passed txs (count_tx b) in
      (
        m,
        (b, (a, ea, eb), p),
        q
            ∙ ap (λ k. passes txs (record k { idx = k.idx + 1; saw = false }))
                (qb ∙ ap (adds x.outputs) qa),
      )

  same_state :
      {r : ParseResult (Unit {0}) × Report} {m m' : Report}
      → r ≡ (ok tt, m)
      → r ≡ (ok tt, m')
      → m ≡ m'
  same_state p q = ap (λ k. k.1) (sym p ∙ q)

  pub Passed-passes :
      (txs : List Tx) (r m : Report)
      → Passed (on_input o) (on_output o) count_tx txs r m
      → tally m ≡ passes txs (tally r)
  Passed-passes [] r m e = ap tally e
  Passed-passes (x ∷ txs) r m (b, (a, ea, eb), p) =
      let (a', ea', qa) = for_each-sees x.inputs r in
      let (b', eb', qb) = for_each-adds x.outputs a in
      Passed-passes txs (count_tx b) m p
      ∙ ap (λ k. passes txs (record k { idx = k.idx + 1; saw = false }))
          (ap tally (same_state eb eb')
            ∙ (qb ∙ ap (adds x.outputs) (ap tally (same_state ea ea') ∙ qa)))

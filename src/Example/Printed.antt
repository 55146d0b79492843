-- ===== src/Example/Printed.antt =====
-- What the closures of `main` print of the transactions that they are called with.
use blockchain_zc_parser.Base.{
  ℕ, ◌+◌, ◌≡◌, refl, sym, ap, ◌∙◌, subst, List, [], ◌∷◌, ◌++◌, append_assoc, append-nil, Bool, true,
  false, if◌then◌else◌,
}
use blockchain_zc_parser.Error.{ok}
use blockchain_zc_parser.Transaction.{TxInput, TxOutput, out_point_is_coinbase, is_coinbase}
use blockchain_zc_parser.Transaction.Loops.{for_each, for_each-cons}
use blockchain_zc_parser.Transaction.Whole.{Tx}
use blockchain_zc_parser.Example.Opts.{Opts}
use blockchain_zc_parser.Example.Loop.{Passed}
use blockchain_zc_parser.Example.Report.{
  should_print_tx, should_print_outputs_for_tx, on_input, on_output, count_tx,
}
use blockchain_zc_parser.Example.Lines.{Report}
use blockchain_zc_parser.Example.Listing.{output_lines, first_line, tx_lines}
use blockchain_zc_parser.Example.Chosen.{taken}
use blockchain_zc_parser.Example.Outputs.{
  when, when_append, when_nil, Adds, Adds-nil, Adds-append, lines_of_output, on_output-Adds,
}

-- The state behind a call that returns.
state_of : {A : Type 0} {x : A × Report} {a : A} {m : Report} → x ≡ (a, m) → x.1 ≡ m
state_of e = ap (λ k. k.1) e

module _ (o : Opts) where
  outputs-Adds :
      (outs : List TxOutput) (r m : Report)
      → for_each (on_output o) outs r ≡ (ok tt, m)
      → Adds (when (should_print_outputs_for_tx o r.tx_idx) (output_lines o outs)) r m
  outputs-Adds [] r m h =
      rw (sym (state_of h), when_nil (should_print_outputs_for_tx o r.tx_idx)) (Adds-nil r)
  outputs-Adds (out ∷ outs) r m h =
      let (a, e, (i, q)) = on_output-Adds o out r in
      let rest : Adds (when (should_print_outputs_for_tx o a.tx_idx) (output_lines o outs)) a m =
        outputs-Adds outs a m (sym (for_each-cons (on_output o) out outs r a e) ∙ h) in
      rw
        (when_append (should_print_outputs_for_tx o r.tx_idx) (lines_of_output o out)
          (output_lines o outs))
        (Adds-append _ _ r a m (i, q)
          (subst (λ k. Adds (when (should_print_outputs_for_tx o k) (output_lines o outs)) a m) i
            rest))

  inputs_shut :
      (is : List TxInput) (r : Report)
      → r.saw_first_input_in_tx ≡ true
      → for_each (on_input o) is r ≡ (ok tt, r)
  unfolding on_input
  inputs_shut [] r h = refl
  inputs_shut (i ∷ is) r h = for_each-cons (on_input o) i is r r (rw h) ∙ inputs_shut is r h

  first_input :
      (i : TxInput) (is : List TxInput) (r : Report)
      → r.saw_first_input_in_tx ≡ false
      → (m : Report) × (on_input o i r ≡ (ok tt, m))
        × (m.saw_first_input_in_tx ≡ true)
        × Adds (when (should_print_tx o r.tx_idx) (first_line r.tx_idx (i ∷ is))) r m
  unfolding on_input is_coinbase
  first_input i is r h =
      let (e, s, q) =
        go (out_point_is_coinbase i.previous_output) (should_print_tx o r.tx_idx) refl refl in
      ((on_input o i r).1, e, s, q)
    where
      go :
          (c w : Bool)
          → out_point_is_coinbase i.previous_output ≡ c
          → should_print_tx o r.tx_idx ≡ w
          → (on_input o i r ≡ (ok tt, (on_input o i r).1))
            × ((on_input o i r).1.saw_first_input_in_tx ≡ true)
            × Adds
                (when (should_print_tx o r.tx_idx) (first_line r.tx_idx (i ∷ is)))
                r
                (on_input o i r).1
      go true true e f = rw (h, e, f) (refl, refl, (refl, refl))
      go true false e f = rw (h, e, f) (refl, refl, Adds-nil r)
      go false true e f = rw (h, e, f) (refl, refl, (refl, refl))
      go false false e f = rw (h, e, f) (refl, refl, Adds-nil r)

  inputs-Adds :
      (is : List TxInput) (r m : Report)
      → r.saw_first_input_in_tx ≡ false
      → for_each (on_input o) is r ≡ (ok tt, m)
      → Adds (when (should_print_tx o r.tx_idx) (first_line r.tx_idx is)) r m
  inputs-Adds [] r m h k = rw (sym (state_of k), when_nil (should_print_tx o r.tx_idx)) (Adds-nil r)
  inputs-Adds (i ∷ is) r m h k =
      let (a, e, s, q) = first_input i is r h in
      subst (Adds (when (should_print_tx o r.tx_idx) (first_line r.tx_idx (i ∷ is))) r)
        (sym (state_of (for_each-cons (on_input o) i is r a e ∙ inputs_shut is a s)) ∙ state_of k) q

  -- Both parts of a transaction's lines are printed under the same condition.
  split_lines :
      (i : ℕ) (x : Tx)
      → when (should_print_tx o i) (first_line i x.inputs)
          ++ when (should_print_outputs_for_tx o i) (output_lines o x.outputs)
        ≡ when (should_print_tx o i) (tx_lines o i x)
  unfolding should_print_outputs_for_tx
  split_lines i x = go o.no_outputs (should_print_tx o i)
    where
      go :
          (b w : Bool)
          → when w (first_line i x.inputs)
              ++ when (if b then false else w) (output_lines o x.outputs)
            ≡ when w (first_line i x.inputs ++ (if b then [] else output_lines o x.outputs))
      go true true = refl
      go true false = refl
      go false true = refl
      go false false = refl

  -- The lines that the loop prints over the transactions.
  pub Passed-taken :
      (txs : List Tx) (r m : Report)
      → r.saw_first_input_in_tx ≡ false
      → Passed (on_input o) (on_output o) count_tx txs r m
      → m.lines ≡ r.lines ++ taken o (should_print_tx o) r.tx_idx txs
  Passed-taken [] r m h p = ap (λ k. k.lines) p ∙ sym (append-nil r.lines)
  Passed-taken (x ∷ txs) r m h (b, (a, ea, eb), p) =
      let (i, q) =
        Adds-append _ _ r a b (inputs-Adds x.inputs r a h ea) (outputs-Adds x.outputs a b eb) in
      let one : b.lines ≡ r.lines ++ when (should_print_tx o r.tx_idx) (tx_lines o r.tx_idx x) =
        q
        ∙ ap (λ l. r.lines ++ l)
            (ap
                (λ k.
                  when (should_print_tx o r.tx_idx) (first_line r.tx_idx x.inputs)
                  ++ when (should_print_outputs_for_tx o k) (output_lines o x.outputs))
                (inputs-Adds x.inputs r a h ea).0
              ∙ split_lines r.tx_idx x) in
      Passed-taken txs (count_tx b) m refl p
      ∙ (ap (λ k. b.lines ++ taken o (should_print_tx o) (k + 1) txs) i
          ∙ (ap (λ l. l ++ taken o (should_print_tx o) (r.tx_idx + 1) txs) one
              ∙ append_assoc r.lines _ _))

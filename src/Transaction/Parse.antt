-- ===== src/Transaction/Parse.antt =====
-- `parse_with` reads the wire format of a transaction, and hands the inputs and the outputs to the
-- closures in their order.
use blockchain_zc_parser.Base.{ℕ, refl, sym, ap, ◌∙◌, List, [], ◌++◌, length, arith, le→ltb}
use blockchain_zc_parser.Target.{Target, usize_max-ge}
use blockchain_zc_parser.Cursor.VarInt.{to_usize-ok}
use blockchain_zc_parser.Transaction.{TxInput, TxOutput, Callback, parse_with, max_io_count}
use blockchain_zc_parser.Transaction.Stream.{Streams}
use blockchain_zc_parser.Transaction.StreamRules.{change-Streams}
use blockchain_zc_parser.Transaction.Loops.{IsTotal}
use blockchain_zc_parser.Transaction.Tail.{Summary}
use blockchain_zc_parser.Transaction.Whole.{marker, Parsed}
use blockchain_zc_parser.Transaction.Head.{head_split, zero_test, regroup}
use blockchain_zc_parser.Transaction.Steps.{Steps, steps-Streams, Steps→}

module _ (t : Target) {S : Type 0} (on_input : Callback S TxInput)
    (on_output : Callback S TxOutput) where
  Steps← :
      (r : Summary) (s : S) (bs : List ℕ) (s' : S)
      → Parsed on_input on_output r s bs s'
      → Steps t on_input on_output r s bs s'
  Steps← r s bs s' (x, m, f, run, hrun, hr) =
      let n : ℕ = length x.inputs in
      let (b, xs, ys, zs, hb, hd, hc, cut) =
        head_split x.is_segwit n f.count_bytes f.input_count.0 f.some_input in
      let behind : List ℕ =
        f.output_count_bytes ++ (f.output_bytes ++ (f.witness_bytes ++ f.locktime_bytes)) in
      let rest : List ℕ = f.input_bytes ++ behind in
      (
        x.version,
        s,
        f.version_bytes,
        xs ++ (ys ++ (zs ++ rest)),
        (f.version, refl),
        (
          b,
          s,
          xs,
          ys ++ (zs ++ rest),
          (hb, refl),
          (
            x.is_segwit,
            s,
            ys,
            zs ++ rest,
            (hd, refl),
            (
              n,
              s,
              zs,
              rest,
              (hc, refl),
              (
                n,
                s,
                [],
                rest,
                ((to_usize-ok t n (omega (arith, f.input_count.1, usize_max-ge t)), refl), refl),
                (
                  tt,
                  s,
                  [],
                  rest,
                  ((zero_test n f.some_input, refl), refl),
                  (
                    tt,
                    s,
                    [],
                    rest,
                    ((le→ltb max_io_count n f.input_count.1, refl), refl),
                    (
                      tt,
                      m,
                      f.input_bytes,
                      behind,
                      (x.inputs, refl, f.inputs, run),
                      (
                        x.outputs,
                        s',
                        f.output_count_bytes,
                        f.output_bytes,
                        f.witness_bytes ++ f.locktime_bytes,
                        f.output_count,
                        f.outputs,
                        hrun,
                        (
                          x.witnesses, x.locktime, f.witness_bytes, f.locktime_bytes, f.witnesses,
                          f.locktime, hr, refl, refl,
                        ),
                        refl,
                      ),
                      refl,
                    ),
                    refl,
                  ),
                  refl,
                ),
                refl,
              ),
              refl,
            ),
            refl,
          ),
          refl,
        ),
        f.whole
            ∙ ap (λ k. f.version_bytes ++ k)
                (sym (regroup xs ys zs (marker x.is_segwit) f.count_bytes rest (sym cut))),
      )

-- `parse_with` accepts exactly the serialised transactions, whatever bytes follow: on a success the
-- bytes read are a transaction's, the closures took its inputs and then its outputs, and the summary
-- counts them; every transaction whose elements the closures take is accepted; an input that ends
-- inside one is an `UnexpectedEof`. The closures do not panic.
pub parse_with-Streams :
    (t : Target) {S : Type 0} (on_input : Callback S TxInput) (on_output : Callback S TxOutput)
    → IsTotal on_input
    → IsTotal on_output
    → Streams t (parse_with t on_input on_output) (Parsed on_input on_output)
parse_with-Streams t on_input on_output total_in total_out =
    change-Streams t (steps-Streams t on_input on_output total_in total_out)
      (Steps→ t on_input on_output) (Steps← t on_input on_output)

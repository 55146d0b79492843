-- ===== src/Transaction/Steps.antt =====
-- The steps of `parse_with` one behind the other, and the transaction that they have read.
use blockchain_zc_parser.Base.{
  ℕ, ◌≡◌, sym, ap, ◌∙◌, subst, List, ◌++◌, length, arith, false, ltb, ltb→le, ◌==◌,
}
use blockchain_zc_parser.Error.{ok, oversized_data, invalid_input_count}
use blockchain_zc_parser.Target.{Target, to_usize}
use blockchain_zc_parser.Bytes.{from_le_bytes, signed}
use blockchain_zc_parser.Cursor.Rules.{Nothing}
use blockchain_zc_parser.Cursor.Reads.{Byte, read_i32_le-Decodes, read_u8-Decodes}
use blockchain_zc_parser.Cursor.Words.{Word}
use blockchain_zc_parser.Cursor.VarInt.{VarInt, to_usize-inv, to_usize-ne-fault}
use blockchain_zc_parser.Transaction.{TxInput, TxOutput, Callback, parse_with, max_io_count}
use blockchain_zc_parser.Transaction.Wire.{InputFormat, parse_input-Decodes}
use blockchain_zc_parser.Transaction.Stream.{
  StreamFormat, Streams, StreamThen, Quiet, on_cursor-Streams,
}
use blockchain_zc_parser.Transaction.StreamRules.{bind-Streams, lift-Streams, refuse_if-Streams}
use blockchain_zc_parser.Transaction.Loops.{for_each, IsTotal, Each, for_each-Streams}
use blockchain_zc_parser.Transaction.Tail.{Summary, WitnessesFormat, OutputsFormat, outputs-Streams}
use blockchain_zc_parser.Transaction.Whole.{marker, Parsed}
use blockchain_zc_parser.Transaction.Head.{
  Detected, detect_segwit-Decodes, Counted, counted-Decodes, head_join, nonzero, regroup,
}

module _ (t : Target) {S : Type 0} (on_input : Callback S TxInput)
    (on_output : Callback S TxOutput) where
  abbrev pub Steps : StreamFormat S Summary
  Steps = StreamThen (Quiet (Word 4 (λ ws. signed 32 (from_le_bytes ws)))) λ version.
      StreamThen (Quiet Byte) λ b. StreamThen (Quiet (Detected b)) λ seg.
        StreamThen (Quiet (Counted seg b)) λ v.
          StreamThen (Quiet (Nothing (λ n. to_usize t v ≡ ok n))) λ n.
            StreamThen {A = Unit {0}} (Quiet (Nothing (λ _. (n == 0) ≡ false))) λ _.
              StreamThen {A = Unit {0}} (Quiet (Nothing (λ _. ltb max_io_count n ≡ false))) λ _.
                StreamThen (Each n InputFormat on_input) λ _. OutputsFormat on_output version seg n

  pub steps-Streams :
      IsTotal on_input → IsTotal on_output → Streams t (parse_with t on_input on_output) Steps
  unfolding parse_with
  steps-Streams total_in total_out =
      bind-Streams t (on_cursor-Streams t (read_i32_le-Decodes t)) λ version.
        bind-Streams t (on_cursor-Streams t (read_u8-Decodes t)) λ b.
          bind-Streams t (on_cursor-Streams t (detect_segwit-Decodes t b)) λ seg.
            bind-Streams t (on_cursor-Streams t (counted-Decodes t seg b)) λ v.
              bind-Streams t (lift-Streams t (to_usize t v) (to_usize-ne-fault t v)) λ n.
                bind-Streams t (refuse_if-Streams t (n == 0) invalid_input_count) λ _.
                  bind-Streams t
                    (refuse_if-Streams t (ltb max_io_count n) (oversized_data n max_io_count))
                    λ _.
                      bind-Streams t
                        (for_each-Streams t on_input (parse_input-Decodes t) total_in n)
                        λ _. outputs-Streams t on_output total_out version seg n

module _ (t : Target) {S : Type 0} (on_input : Callback S TxInput)
    (on_output : Callback S TxOutput) where
  pub Steps→ :
      (r : Summary) (s : S) (bs : List ℕ) (s' : S)
      → Steps t on_input on_output r s bs s'
      → Parsed on_input on_output r s bs s'
  Steps→ r s bs s'
        (
          version,
          m₁,
          vb,
          r₁,
          (hversion, q₁),
          (
            b,
            m₂,
            xs,
            r₂,
            (hb, q₂),
            (
              seg,
              m₃,
              ys,
              r₃,
              (hd, q₃),
              (
                v,
                m₄,
                zs,
                r₄,
                (hc, q₄),
                (
                  n,
                  m₅,
                  es,
                  r₅,
                  ((hn, e₅), q₅),
                  (
                    _,
                    m₆,
                    fs,
                    r₆,
                    ((hz, e₆), q₆),
                    (
                      _,
                      m₇,
                      gs,
                      r₇,
                      ((hl, e₇), q₇),
                      (
                        _,
                        m₈,
                        ib,
                        r₈,
                        (ins, l, many, run),
                        (
                          outs,
                          m₉,
                          ob,
                          pb,
                          wlb,
                          hcount,
                          hmany,
                          hrun,
                          (ws, lock, wb, lb, hw, hlock, hr, q₉, g₁₀),
                          g₉,
                        ),
                        g₈,
                      ),
                      g₇,
                    ),
                    g₆,
                  ),
                  g₅,
                ),
                g₄,
              ),
              g₃,
            ),
            g₂,
          ),
          g₁,
        ) =
      let (cb, hcb, joined) = head_join seg b v xs ys zs hb hd hc in
      let counted : v ≡ length ins = to_usize-inv t v n hn ∙ sym l in
      (
        record {
          version = version;
          is_segwit = seg;
          inputs = ins;
          outputs = outs;
          witnesses = ws;
          locktime = lock;
        },
        m₈,
        record {
          version_bytes = vb;
          count_bytes = cb;
          input_bytes = ib;
          output_count_bytes = ob;
          output_bytes = pb;
          witness_bytes = wb;
          locktime_bytes = lb;
          version = hversion;
          some_input = λ z. nonzero n hz (sym l ∙ z);
          input_count =
              (subst (λ k. VarInt k cb) counted hcb, omega (arith, l, ltb→le max_io_count n hl));
          inputs = many;
          output_count = hcount;
          outputs = hmany;
          witnesses = subst (λ k. WitnessesFormat seg k ws wb) (sym l) hw;
          locktime = hlock;
          whole =
              g₁
              ∙ rw (g₂, g₃, g₄, g₅, e₅, g₆, e₆, g₇, e₇, g₈, g₉, g₁₀)
                  (ap (λ k. vb ++ k) (regroup xs ys zs (marker seg) cb _ joined));
        },
        subst (λ k. for_each on_input ins k ≡ (ok tt, m₈))
            (q₇ ∙ (q₆ ∙ (q₅ ∙ (q₄ ∙ (q₃ ∙ (q₂ ∙ q₁)))))) run,
        hrun ∙ ap (λ k. (ok tt, k)) (sym q₉),
        hr ∙ ap (λ k. (version, lock, k, length outs)) (sym l),
      )

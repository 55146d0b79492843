-- ===== src/Transaction/Tail.antt =====
-- What stands behind the input count of a transaction: the loop over the outputs, the witnesses and
-- the lock time, from the last read backwards.
use blockchain_zc_parser.Base.{
  ℕ, ◌≡◌, refl, sym, ◌∙◌, subst, List, [], ◌++◌, length, append-nil, arith, Bool, true, false, ltb,
  ltb→le, le→ltb, if◌then◌else◌,
}
use blockchain_zc_parser.Base.Int.{ℤ}
use blockchain_zc_parser.Error.{ok, oversized_data}
use blockchain_zc_parser.Action.{pure, lift, ◌>>=◌, ◌>>◌, refuse_if, for_range}
use blockchain_zc_parser.Target.{Target, to_usize, usize_max-ge}
use blockchain_zc_parser.Bytes.{from_le_bytes}
use blockchain_zc_parser.Cursor.{read_varint, read_u32_le}
use blockchain_zc_parser.Cursor.Format.{Format}
use blockchain_zc_parser.Cursor.Checks.{Many}
use blockchain_zc_parser.Cursor.Reads.{read_u32_le-Decodes}
use blockchain_zc_parser.Cursor.Words.{Word}
use blockchain_zc_parser.Cursor.VarInt.{
  VarInt, UpTo, read_varint-Decodes, to_usize-ok, to_usize-inv, to_usize-ne-fault,
}
use blockchain_zc_parser.Transaction.{
  TxOutput, Streaming, Callback, on_cursor, on_user, parse_output, skip_witness, max_io_count,
}
use blockchain_zc_parser.Transaction.Wire.{OutputFormat, WitnessFormat, parse_output-Decodes}
use blockchain_zc_parser.Transaction.Skip.{skip_witness-Decodes}
use blockchain_zc_parser.Transaction.Stream.{StreamFormat, Streams, Quiet, on_cursor-Streams}
use blockchain_zc_parser.Transaction.StreamRules.{
  bind-Streams, change-Streams, pure-Streams, lift-Streams, refuse_if-Streams,
}
use blockchain_zc_parser.Transaction.Loops.{for_each, IsTotal, for_each-Streams}
use blockchain_zc_parser.Transaction.ReadLoop.{read_loop-Streams}

-- One witness for each input in the SegWit format, and none otherwise.
abbrev pub WitnessesFormat : Bool → ℕ → Format (List (List (List ℕ)))
WitnessesFormat true n ws bs = (length ws ≡ n) × Many WitnessFormat ws bs
WitnessesFormat false n ws bs = (ws ≡ []) × (bs ≡ [])

witnesses-Streams :
    (t : Target) {S : Type 0} (seg : Bool) (n : ℕ)
    → Streams t {S = S}
        (if seg then for_range n (on_cursor (skip_witness t)) else pure tt)
        (Quiet (λ _ bs. (ws : List (List (List ℕ))) × WitnessesFormat seg n ws bs))
witnesses-Streams t true n =
    change-Streams t (read_loop-Streams t (skip_witness-Decodes t) n)
      (λ u s bs s' ((ws, l, h), q). ((ws, (l, h)), q))
      (λ u s bs s' ((ws, (l, h)), q). ((ws, l, h), q))
witnesses-Streams t false n =
    change-Streams t (pure-Streams t tt) (λ u s bs s' ((_, e), q). (([], (refl, e)), q))
      (λ u s bs s' ((ws, (_, e)), q). ((refl, e), q))

-- What `parse_with` returns.
abbrev pub Summary : Type 0
Summary = ℤ × ℕ × ℕ × ℕ

module _ (t : Target) {S : Type 0} where
  abbrev pub finish : ℤ → Bool → ℕ → ℕ → Streaming S Summary
  finish version seg n o = do
    if seg then for_range n (on_cursor (skip_witness t)) else pure tt
    locktime ← on_cursor (read_u32_le t)
    pure (version, locktime, n, o)

-- The witnesses and the lock time.
abbrev pub FinishFormat : {S : Type 0} → ℤ → Bool → ℕ → ℕ → StreamFormat S Summary
FinishFormat version seg n o r s bs s' =
    (ws : List (List (List ℕ))) × (locktime : ℕ) × (xs : List ℕ) × (ys : List ℕ) × WitnessesFormat
      seg n ws xs
    × Word 4 from_le_bytes locktime ys
    × (r ≡ (version, locktime, n, o))
    × (s' ≡ s)
    × (bs ≡ xs ++ ys)

finish-Streams :
    (t : Target) {S : Type 0} (version : ℤ) (seg : Bool) (n o : ℕ)
    → Streams t {S = S} (finish t version seg n o) (FinishFormat version seg n o)
finish-Streams t version seg n o =
    change-Streams t
      (bind-Streams t (witnesses-Streams t seg n) λ _.
        bind-Streams t (on_cursor-Streams t (read_u32_le-Decodes t))
          λ l. pure-Streams t (version, l, n, o))
      (λ r s bs s' (_, m, xs, ys, ((ws, h), q), (l, m₂, ys₂, zs, (w, q₂), ((e, k), q₃), g₂), g).
        (ws, l, xs, ys₂, h, w, e, q₃ ∙ (q₂ ∙ q), rw (g, g₂, k, append-nil)))
      (λ r s bs s' (ws, l, xs, ys, h, w, e, q, g). (
        tt,
        s,
        xs,
        ys,
        ((ws, h), refl),
        (l, s, ys, [], (w, refl), ((e, refl), q), sym (append-nil ys)),
        g,
      ))

module _ (t : Target) {S : Type 0} (on_output : Callback S TxOutput) where
  abbrev pub read_outputs : ℤ → Bool → ℕ → Streaming S Summary
  read_outputs version seg n = do
    output_count_u64 ← on_cursor (read_varint t)
    output_count ← lift (to_usize t output_count_u64)
    refuse_if (ltb max_io_count output_count) (oversized_data output_count max_io_count)
    for_range output_count (do output ← on_cursor (parse_output t); on_user (on_output output))
    finish t version seg n output_count

-- The outputs behind their count, then the rest.
abbrev pub OutputsFormat :
    {S : Type 0} → Callback S TxOutput → ℤ → Bool → ℕ → StreamFormat S Summary
OutputsFormat {S} on_output version seg n r s bs s' =
    (outputs : List TxOutput) × (m : S) × (xs : List ℕ) × (ys : List ℕ) × (zs : List ℕ) × UpTo
      max_io_count (length outputs) xs
    × Many OutputFormat outputs ys
    × (for_each on_output outputs s ≡ (ok tt, m))
    × FinishFormat version seg n (length outputs) r m zs s'
    × (bs ≡ xs ++ (ys ++ zs))

pub outputs-Streams :
    (t : Target) {S : Type 0} (on_output : Callback S TxOutput)
    → IsTotal on_output
    → (version : ℤ) (seg : Bool) (n : ℕ)
    → Streams t (read_outputs t on_output version seg n) (OutputsFormat on_output version seg n)
outputs-Streams t on_output total version seg n =
    change-Streams t
      (bind-Streams t (on_cursor-Streams t (read_varint-Decodes t)) λ v.
        bind-Streams t (lift-Streams t (to_usize t v) (to_usize-ne-fault t v)) λ k.
          bind-Streams t (refuse_if-Streams t (ltb max_io_count k) (oversized_data k max_io_count))
            λ _.
              bind-Streams t (for_each-Streams t on_output (parse_output-Decodes t) total k)
                λ _. finish-Streams t version seg n k)
      (λ r s bs s'
          (
            v,
            m₁,
            xs,
            r₁,
            (hv, q₁),
            (
              k,
              m₂,
              es,
              r₂,
              ((hk, e₁), q₂),
              (_, m₃, fs, r₃, ((hl, e₂), q₃), (_, m, ys, zs, (outs, l, many, run), fin, g₄), g₃),
              g₂,
            ),
            g₁,
          ).
        (
          outs,
          m,
          xs,
          ys,
          zs,
          (
            subst (λ j. VarInt j xs) (to_usize-inv t v k hk ∙ sym l) hv,
            omega (arith, l, ltb→le max_io_count k hl),
          ),
          many,
          subst (λ j. for_each on_output outs j ≡ (ok tt, m)) (q₃ ∙ (q₂ ∙ q₁)) run,
          subst (λ j. FinishFormat version seg n j r m zs s') (sym l) fin,
          rw (g₁, g₂, e₁, g₃, e₂, g₄),
        ))
      (λ r s bs s' (outs, m, xs, ys, zs, (hv, l), many, run, fin, g).
        let k : ℕ = length outs in
        (
          k,
          s,
          xs,
          ys ++ zs,
          (hv, refl),
          (
            k,
            s,
            [],
            ys ++ zs,
            ((to_usize-ok t k (omega (arith, usize_max-ge t)), refl), refl),
            (
              tt,
              s,
              [],
              ys ++ zs,
              ((le→ltb max_io_count k l, refl), refl),
              (tt, m, ys, zs, (outs, refl, many, run), fin, refl),
              refl,
            ),
            refl,
          ),
          g,
        ))

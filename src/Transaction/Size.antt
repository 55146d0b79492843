-- ===== src/Transaction/Size.antt =====
-- How many bytes the parts of a transaction take at least.
use blockchain_zc_parser.Base.{
  ℕ, ◌+◌, ◌*◌, ◌≤◌, ◌≡◌, ap, List, [], ◌∷◌, ◌++◌, length, length-append, arith,
}
use blockchain_zc_parser.Base.Int.{ℤ}
use blockchain_zc_parser.Error.{ok}
use blockchain_zc_parser.Target.{Target}
use blockchain_zc_parser.Cursor.{Cursor}
use blockchain_zc_parser.Cursor.Format.{Format, IsValid, length-unread}
use blockchain_zc_parser.Cursor.Checks.{Many}
use blockchain_zc_parser.Cursor.VarInt.{VarInt, VarBytes}
use native.Mathlib.Nat.{mul-zero, mul-suc}
use blockchain_zc_parser.Script.{max_script_size}
use blockchain_zc_parser.Transaction.{TxInput, TxOutput, Callback, parse_with}
use blockchain_zc_parser.Transaction.Wire.{InputFormat, OutputFormat}
use blockchain_zc_parser.Transaction.Loops.{IsTotal}
use blockchain_zc_parser.Transaction.Whole.{Tx, TxFormat, marker}
use blockchain_zc_parser.Transaction.Accepted.{parse_with_iff}

VarInt-ge : (v : ℕ) (bs : List ℕ) → VarInt v bs → 1 ≤ length bs
VarInt-ge v bs (b, xs, ys, (o, e), f, q) =
    omega (arith, ap length q, length-append xs ys, ap length e)

VarBytes-ge : (max : ℕ) (d bs : List ℕ) → VarBytes max d bs → length d + 1 ≤ length bs
VarBytes-ge max d bs (n, xs, ys, (u, h), (e, l, o), q) =
    omega (arith, ap length q, length-append xs ys, VarInt-ge n xs u, ap length e)

Input-ge : (i : TxInput) (bs : List ℕ) → InputFormat i bs → 41 ≤ length bs
Input-ge i bs (xs, ys, zs, (us, ws, (e, l, o), (l₂, o₂, e₂), q), s, (l₃, o₃, e₃), q₃) = omega (
  arith,
  ap length q,
  length-append us ws,
  l,
  l₂,
  VarBytes-ge max_script_size i.script_sig.bytes ys s,
  l₃,
  ap length q₃,
  length-append xs (ys ++ zs),
  length-append ys zs,
)

Output-ge : (o : TxOutput) (bs : List ℕ) → OutputFormat o bs → 9 ≤ length bs
Output-ge o bs (xs, ys, (l, k, e), s, q) = omega (
  arith,
  l,
  VarBytes-ge max_script_size o.script_pubkey.bytes ys s,
  ap length q,
  length-append xs ys,
)

Many-ge :
    {A : Type 0} (F : Format A) (k : ℕ)
    → ((a : A) (bs : List ℕ) → F a bs → k ≤ length bs)
    → (as' : List A) (bs : List ℕ) → Many F as' bs
    → k * length as' ≤ length bs
Many-ge F k least [] bs e = omega (arith, mul-zero k)
Many-ge F k least (a ∷ as') bs (xs, ys, f, many, q) = omega (
  arith,
  least a xs f,
  Many-ge F k least as' ys many,
  ap length q,
  length-append xs ys,
  mul-suc k (length as'),
)

-- The fixed parts, and what each input and each output takes.
abbrev pub least_size : ℕ → ℕ → ℕ
least_size inputs outputs = 10 + 41 * inputs + 9 * outputs

TxFormat-ge :
    (x : Tx) (bs : List ℕ)
    → TxFormat x bs
    → least_size (length x.inputs) (length x.outputs) ≤ length bs
TxFormat-ge x bs f = omega (
  arith,
  f.version.0,
  f.locktime.0,
  VarInt-ge (length x.inputs) f.count_bytes f.input_count.0,
  VarInt-ge (length x.outputs) f.output_count_bytes f.output_count.0,
  Many-ge InputFormat 41 Input-ge x.inputs f.input_bytes f.inputs,
  Many-ge OutputFormat 9 Output-ge x.outputs f.output_bytes f.outputs,
  ap length f.whole,
  length-append f.version_bytes (
      marker x.is_segwit
      ++ (f.count_bytes
          ++ (f.input_bytes
              ++ (f.output_count_bytes
                  ++ (f.output_bytes ++ (f.witness_bytes ++ f.locktime_bytes)))))),
  length-append (marker x.is_segwit) (
      f.count_bytes
      ++ (f.input_bytes
          ++ (f.output_count_bytes ++ (f.output_bytes ++ (f.witness_bytes ++ f.locktime_bytes))))),
  length-append f.count_bytes (
      f.input_bytes
      ++ (f.output_count_bytes ++ (f.output_bytes ++ (f.witness_bytes ++ f.locktime_bytes)))),
  length-append f.input_bytes
      (f.output_count_bytes ++ (f.output_bytes ++ (f.witness_bytes ++ f.locktime_bytes))),
  length-append f.output_count_bytes (f.output_bytes ++ (f.witness_bytes ++ f.locktime_bytes)),
  length-append f.output_bytes (f.witness_bytes ++ f.locktime_bytes),
  length-append f.witness_bytes f.locktime_bytes,
)

-- When `parse_with` succeeds, the counts that it returns, of the inputs and of the outputs that the
-- closures were called with, are paid for in bytes: it read at least 10 bytes, 41 for each input and 9
-- for each output, and no more than there were. The cursor is valid and the closures do not panic.
pub parse_with_bounds :
    (t : Target) {S : Type 0} (on_input : Callback S TxInput) (on_output : Callback S TxOutput)
    (c : Cursor) (s : S) (version : ℤ) (locktime inputs outputs : ℕ) (c' : Cursor) (s' : S)
    → IsTotal on_input
    → IsTotal on_output
    → IsValid t c
    → parse_with t on_input on_output (c, s) ≡ (ok (version, locktime, inputs, outputs), (c', s'))
    → (c.pos + least_size inputs outputs ≤ c'.pos) × (c'.pos ≤ length c.bytes)
parse_with_bounds t on_input on_output c s version locktime inputs outputs c' s' total_in total_out
      v h =
    let (bs, rest, (x, m, f, run, hrun, r), u, q) =
      (parse_with_iff t on_input on_output c s (version, locktime, inputs, outputs) c' s' total_in
          total_out v).0
        h in
    (
      omega (arith, TxFormat-ge x bs f, ap (λ k. k.pos) q, ap (λ k. k.2) r, ap (λ k. k.3) r),
      omega (
        arith,
        ap (λ k. k.pos) q,
        ap length u,
        length-append bs rest,
        length-unread t c v,
        v.fits,
      ),
    )

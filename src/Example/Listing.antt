-- ===== src/Example/Listing.antt =====
-- What `main` prints of a block, from its contents: the transactions that the options choose are cut out
-- of the list of all, and the values of the outputs are summed up as numbers without a bound.
use Prim.Native.Nat.{min}
use blockchain_zc_parser.Base.{
  ℕ, ◌+◌, ◌-◌, ◌^◌, List, [], ◌∷◌, ◌++◌, length, take, drop, leb, ◌==◌, if◌then◌else◌, Option, none,
  some,
}
use blockchain_zc_parser.Error.{ParseResult, ok, err, fault, invalid_coinbase_count}
use blockchain_zc_parser.Script.Classify.{
  ScriptType, p2pkh, p2sh, p2wpkh, p2wsh, p2tr, p2pk, op_return, multisig, unknown, classify,
}
use blockchain_zc_parser.Transaction.{TxInput, TxOutput}
use blockchain_zc_parser.Transaction.Whole.{Tx}
use blockchain_zc_parser.Block.{BlockHeader}
use blockchain_zc_parser.Block.Wrapped.{starts_coinbase}
use blockchain_zc_parser.Example.Opts.{Opts}
use blockchain_zc_parser.Example.Lines.{
  Line, after_strict_check, before_strict_check, block_summary, counts, multisig_output,
  no_such_transaction, output, parse_stats, total_output_value, transaction,
}

-- The transactions with their indices.
abbrev pub numbered : ℕ → List Tx → List (ℕ × Tx)
numbered i [] = []
numbered i (x ∷ xs) = (i, x) ∷ numbered (i + 1) xs

-- `--tx` takes one of them, wherever it is, and `--limit-tx` the first ones; `--tx` goes before.
abbrev pub picked : {A : Type 0} → Option ℕ → Option ℕ → List A → List A
picked (some only) limit xs = take 1 (drop only xs)
picked none (some limit) xs = take limit xs
picked none none xs = xs

abbrev pub chosen : Opts → List Tx → List (ℕ × Tx)
chosen o txs = if o.summary then [] else picked o.only_tx o.limit_tx (numbered 0 txs)

-- The line of an output: its value, what its script is, and the script's length.
abbrev pub script_lines : Opts → ℕ → ℕ → ScriptType → List Line
script_lines o value n (p2pkh h) = output value "P2PKH" n ∷ []
script_lines o value n (p2sh h) = output value "P2SH" n ∷ []
script_lines o value n (p2wpkh h) = output value "P2WPKH" n ∷ []
script_lines o value n (p2wsh h) = output value "P2WSH" n ∷ []
script_lines o value n (p2tr h) = output value "P2TR" n ∷ []
script_lines o value n (p2pk h) = output value "P2PK" n ∷ []
script_lines o value n (op_return d) = if o.no_opreturn then [] else output value "OP_RETURN" n ∷ []
script_lines o value n (multisig required total) = multisig_output value required total n ∷ []
script_lines o value n unknown = output value "unknown" n ∷ []

abbrev pub classified_lines : Opts → ℕ → ℕ → ParseResult ScriptType → List Line
classified_lines o value n (ok kind) = script_lines o value n kind
classified_lines o value n (err e) = []
classified_lines o value n fault = []

abbrev pub output_lines : Opts → List TxOutput → List Line
output_lines o [] = []
output_lines o (out ∷ outs) =
    classified_lines o out.value (length out.script_pubkey.bytes) (classify out.script_pubkey.bytes)
    ++ output_lines o outs

-- A transaction's line says whether its first input is a coinbase's.
abbrev pub first_line : ℕ → List TxInput → List Line
first_line i [] = []
first_line i (input ∷ inputs) = transaction i (starts_coinbase (input ∷ inputs)) ∷ []

-- That line, and the outputs' lines.
abbrev pub tx_lines : Opts → ℕ → Tx → List Line
tx_lines o i x = first_line i x.inputs ++ (if o.no_outputs then [] else output_lines o x.outputs)

abbrev pub all_lines : Opts → List (ℕ × Tx) → List Line
all_lines o [] = []
all_lines o ((i, x) ∷ xs) = tx_lines o i x ++ all_lines o xs

-- What is said of a `--tx` behind the last transaction.
abbrev pub missing_lines : Option ℕ → ℕ → List Line
missing_lines (some only) n = if leb n only then no_such_transaction only n ∷ [] else []
missing_lines none n = []

-- The transactions whose first input is a coinbase's.
abbrev pub coinbases_of : List Tx → ℕ
coinbases_of [] = 0
coinbases_of (x ∷ xs) = (if starts_coinbase x.inputs then 1 else 0) + coinbases_of xs

abbrev pub outputs_of : List Tx → List TxOutput
outputs_of [] = []
outputs_of (x ∷ xs) = x.outputs ++ outputs_of xs

-- The sum of the values.
abbrev pub sum_of : List TxOutput → ℕ
sum_of [] = 0
sum_of (out ∷ outs) = out.value + sum_of outs

-- The counts, which `--summary` asks for, and the sum of all the outputs' values, or the largest `u64`.
abbrev pub ending : Opts → List Tx → List Line
ending o txs =
    (if o.summary then counts (coinbases_of txs) (length txs) ∷ [] else [])
    ++ (total_output_value (min (sum_of (outputs_of txs)) (2 ^ 64 - 1)) ∷ [])

-- The lines of a block of `size` bytes, up to the test of the coinbases.
abbrev pub body : Opts → BlockHeader → List Tx → ℕ → List Line
body o h txs size =
    (block_summary h.version h.timestamp h.nonce (length txs) ∷ all_lines o (chosen o txs))
    ++ (missing_lines o.only_tx (length txs)
        ++ (parse_stats (length txs) (length txs) size
            ∷ before_strict_check (length txs) (length txs) size 0
            ∷ after_strict_check size 0
            ∷ []))

-- A block with one coinbase is accepted and its totals follow; another is refused with their number.
abbrev pub listing : Opts → BlockHeader → List Tx → ℕ → ParseResult (Unit {0}) × List Line
listing o h txs size =
    if coinbases_of txs == 1
    then (ok tt, body o h txs size ++ ending o txs)
    else (err (invalid_coinbase_count (coinbases_of txs)), body o h txs size)

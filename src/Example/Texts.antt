-- ===== src/Example/Texts.antt =====
-- The text of the program's lines, as `println!` and `eprintln!` write it.
use Prim.Native.String.{String}
use mathlib.Core.List.{reverse}
use blockchain_zc_parser.Base.{
  ℕ, List, [], ◌∷◌, ◌++◌, Bool, true, false, not, if◌then◌else◌, some, none,
}
use blockchain_zc_parser.Bytes.{to_le_bytes}
use blockchain_zc_parser.Text.{codes, decimal, write_hex}
use blockchain_zc_parser.Error.Display.{signed_decimal}
use blockchain_zc_parser.Example.Lines.{
  Line, usage, block_summary, transaction, output, multisig_output, no_such_transaction,
  parse_stats, before_strict_check, after_strict_check, counts, total_output_value,
}

abbrev pub usage_text : String
usage_text =
    "Usage:\n  cargo run --example parse_block\n  cargo run --example parse_block -- <path>\n\nFlags:\n  --summary           Only print header + stats + total output value\n  --limit-tx N        Print only first N transactions (default: all)\n  --tx IDX            Print only a specific transaction by index\n  --no-outputs        Don't print per-output lines\n  --no-opreturn       Suppress OP_RETURN outputs (still counted in totals)\n  -h, --help          Show this help\n\nExamples:\n  cargo run --example parse_block -- --summary genesis.bin\n  cargo run --example parse_block -- --limit-tx 3 tip.bin\n"

-- `{v:#010x}` of a `u32`
abbrev nonce_hex : ℕ → List ℕ
nonce_hex v = codes "0x" ++ write_hex (reverse (to_le_bytes 4 v))

-- A part of a text and the number behind it, in front of `out`.
abbrev field : String → ℕ → List ℕ → List ℕ
field label n out = codes label ++ decimal n out

-- `btc` writes the total divided by 1e8 with `{:.8}`, as a float.
unfoldable pub line_text : (ℕ → List ℕ) → Line → List ℕ
line_text btc (usage none) = codes usage_text ++ codes "\n"
line_text btc (usage (some msg)) =
    codes "error: " ++ (codes msg ++ (codes "\n\n" ++ (codes usage_text ++ codes "\n")))
line_text btc (block_summary version timestamp nonce total) =
    codes "=== Block Summary ===\nVersion   : "
    ++ signed_decimal version (
        field "\nTimestamp : " timestamp (
          codes "\nNonce     : "
          ++ (nonce_hex nonce ++ field "\nTx count  : " total (codes "\n\n"))))
line_text btc (transaction tx_idx is_coinbase) =
    field "  [tx " tx_idx (if is_coinbase then codes "] coinbase\n" else codes "] normal\n")
line_text btc (output value kind len) =
    field "    output " value
      (codes " sat  script-type=" ++ (codes kind ++ field "  script-len=" len (codes "\n")))
line_text btc (multisig_output value required total len) = field "    output " value (
    field " sat  script-type=MULTISIG (" required
      (field "-of-" total (field ")  script-len=" len (codes "\n"))))
line_text btc (no_such_transaction only tx_idx) =
    field "requested --tx " only (field ", but block has only " tx_idx (codes " transactions\n"))
line_text btc (parse_stats total tx_idx size) =
    field "\n--- Parse Stats ---\nDeclared tx count : " total
      (field "\nParsed tx count   : " tx_idx (field "\nBlock size (bytes): " size (codes "\n")))
line_text btc (before_strict_check tx_idx total consumed remaining) =
    field "Before strict-check : tx_idx=" tx_idx (
      field " / total=" total
        (field "  bytes_consumed=" consumed (field "  bytes_remaining=" remaining (codes "\n"))))
line_text btc (after_strict_check consumed remaining) =
    field "After strict-check  : bytes_consumed=" consumed
      (field "  bytes_remaining=" remaining (codes "\n"))
line_text btc (counts coinbase_txs tx_idx) =
    field "Coinbase txs      : " coinbase_txs (field "\nTotal txs parsed  : " tx_idx (codes "\n"))
line_text btc (total_output_value total) =
    field "\nTotal output value : " total (codes " sat (" ++ (btc total ++ codes " BTC)\n"))

-- The `eprintln!` of the usage.
abbrev is_usage : Line → Bool
is_usage (usage message) = true
is_usage _ = false

-- The `eprintln!` of a transaction that is missing, and the others.
unfoldable pub is_stderr : Line → Bool
is_stderr (no_such_transaction only tx_idx) = true
is_stderr l = is_usage l

-- What a run writes to one of the two outputs.
unfoldable pub written : (ℕ → List ℕ) → (Line → Bool) → List Line → List ℕ
written btc on [] = []
written btc on (l ∷ lines) = (if on l then line_text btc l else []) ++ written btc on lines

abbrev pub stdout : (ℕ → List ℕ) → List Line → List ℕ
stdout btc lines = written btc (λ l. not (is_stderr l)) lines

abbrev pub stderr : (ℕ → List ℕ) → List Line → List ℕ
stderr btc lines = written btc is_stderr lines

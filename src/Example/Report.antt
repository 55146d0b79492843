-- ===== src/Example/Report.antt =====
-- The closures of the program's `main`, and `main` itself.
use Prim.Native.String.{String}
use text.Mathlib.Text.{◌==◌ as str_eq}
use blockchain_zc_parser.Base.{
  ℕ, suc, ◌+◌, List, [], ◌∷◌, length, Bool, true, false, not, ◌&&◌, ◌||◌, ◌==◌, leb, ltb,
  if◌then◌else◌, Option, none, some, ◌⊎◌, inl, inr,
}
use blockchain_zc_parser.Error.{ParseResult, ok, err, fault, invalid_coinbase_count, from_io}
use blockchain_zc_parser.Action.{Action, after}
use blockchain_zc_parser.Target.{Target}
use blockchain_zc_parser.Script.Classify.{
  ScriptType, p2pkh, p2sh, p2wpkh, p2wsh, p2tr, p2pk, op_return, multisig, unknown, script_type,
}
use blockchain_zc_parser.Transaction.{TxInput, TxOutput, Callback, is_coinbase}
use blockchain_zc_parser.Block.{
  BlockHeader, BlockTxIter, new_iter, finish_strict, bytes_consumed, bytes_remaining, rounds,
}
use blockchain_zc_parser.Example.Opts.{Opts, Parsed, parsed, usage_error, parse_opts}
use blockchain_zc_parser.Example.Dat.{try_first_dat_entry}
use blockchain_zc_parser.Example.Synthetic.{build_synthetic_block}
use blockchain_zc_parser.Example.Loop.{while_next}
use blockchain_zc_parser.Example.Lines.{
  Line, Report, after_strict_check, before_strict_check, block_summary, counts, multisig_output,
  no_such_transaction, output, parse_stats, print, print_if, saturating_add, start,
  total_output_value, transaction, usage,
}

unfoldable pub should_print_tx : Opts → ℕ → Bool
should_print_tx o idx = if o.summary then false else elim o.only_tx [
  | some only ↦ idx == only
  | none ↦ elim o.limit_tx [ some limit ↦ ltb idx limit | none ↦ true ]
]

unfoldable pub should_print_outputs_for_tx : Opts → ℕ → Bool
should_print_outputs_for_tx o idx = if o.no_outputs then false else should_print_tx o idx

unfoldable pub on_input : Opts → Callback Report TxInput
on_input o input r =
    if not r.saw_first_input_in_tx
    then (let seen : Report = record r { saw_first_input_in_tx = true } in
        let counted : Report =
          if is_coinbase input then record seen { coinbase_txs = r.coinbase_txs + 1 } else seen in
        (
          ok tt,
          print_if (should_print_tx o r.tx_idx) (transaction r.tx_idx (is_coinbase input)) counted,
        ))
    else (ok tt, r)

-- The line of an output whose kind is not a multisig.
unfoldable pub print_output : Opts → TxOutput → String → Report → Report
print_output o out kind r =
    if o.no_opreturn && str_eq kind "OP_RETURN"
    then r
    else print_if (should_print_outputs_for_tx o r.tx_idx)
        (output out.value kind (length out.script_pubkey.bytes)) r

-- The match on the script's type.
unfoldable pub print_typed : Opts → TxOutput → ScriptType → Report → Report
print_typed o out (p2pkh h) r = print_output o out "P2PKH" r
print_typed o out (p2sh h) r = print_output o out "P2SH" r
print_typed o out (p2wpkh h) r = print_output o out "P2WPKH" r
print_typed o out (p2wsh h) r = print_output o out "P2WSH" r
print_typed o out (p2tr h) r = print_output o out "P2TR" r
print_typed o out (p2pk h) r = print_output o out "P2PK" r
print_typed o out (op_return d) r = print_output o out "OP_RETURN" r
print_typed o out (multisig required total) r =
    print_if (should_print_outputs_for_tx o r.tx_idx)
      (multisig_output out.value required total (length out.script_pubkey.bytes)) r
print_typed o out unknown r = print_output o out "unknown" r

unfoldable pub on_output : Opts → Callback Report TxOutput
on_output o out r =
    let added : Report = record r { total_value = saturating_add r.total_value out.value } in
    if o.summary || o.no_outputs
    then (ok tt, added)
    else after (script_type out.script_pubkey, added) λ kind r. (ok tt, print_typed o out kind r)

-- The body of the loop.
abbrev pub count_tx : Report → Report
count_tx r = record r { tx_idx = r.tx_idx + 1; saw_first_input_in_tx = false }

-- Behind the loop, up to the strict check.
unfoldable pub missing_tx : Opts → Report → Report
missing_tx o r = elim o.only_tx [
  | some only ↦ print_if (leb r.tx_idx only) (no_such_transaction only r.tx_idx) r
  | none ↦ r
]

unfoldable pub stats : Opts → ℕ → BlockTxIter → Report → Report
stats o size it r =
    print (before_strict_check r.tx_idx it.total (bytes_consumed it) (bytes_remaining it))
      (print (parse_stats it.total r.tx_idx size) (missing_tx o r))

unfoldable pub totals : Opts → Report → Report
totals o r =
    print (total_output_value r.total_value) (print_if o.summary (counts r.coinbase_txs r.tx_idx) r)

unfoldable pub close : Opts → ℕ → Action (BlockTxIter × Report) (Unit {0})
close o size (it, r) =
    after (finish_strict it, (it, stats o size it r))
      λ _ (it, r).
        let checked = print (after_strict_check (bytes_consumed it) (bytes_remaining it)) r in
        if not (r.coinbase_txs == 1)
        then (err (invalid_coinbase_count r.coinbase_txs), (it, checked))
        else (ok tt, (it, totals o checked))

-- The report as `block_summary` leaves it.
abbrev pub opened : BlockHeader → BlockTxIter → Report
opened header it = print (block_summary header.version header.timestamp header.nonce it.total) start

abbrev pub drop_iter :
    ParseResult (Unit {0}) × (BlockTxIter × Report) → ParseResult (Unit {0}) × Report
drop_iter (r, (it, report)) = (r, report)

unfoldable pub summarise_from :
    Target → Opts → ℕ → ParseResult (BlockHeader × BlockTxIter) → ParseResult (Unit {0}) × Report
summarise_from t o size (err e) = (err e, start)
summarise_from t o size fault = (fault, start)
summarise_from t o size (ok (header, it)) = drop_iter (
    after
      (while_next t (on_input o) (on_output o) count_tx (suc (rounds it)) (it, opened header it))
      (λ _. close o size))

-- `main` from the bytes of the block on.
unfoldable pub summarise : Target → Opts → List ℕ → ParseResult (Unit {0}) × Report
summarise t o block_bytes = summarise_from t o (length block_bytes) (new_iter t block_bytes)

-- `if let Ok(Some(first)) = try_first_dat_entry(&bytes) { first } else { bytes }`
abbrev pub block_of_file : List ℕ → ParseResult (Option (List ℕ)) → ParseResult (List ℕ)
block_of_file bytes (ok (some first)) = ok first
block_of_file bytes (ok none) = ok bytes
block_of_file bytes (err e) = ok bytes
block_of_file bytes fault = fault

-- The block from what `std::fs::read` gives: the text of an error, or the bytes of the file.
unfoldable pub block_read : Target → String ⊎ List ℕ → ParseResult (List ℕ)
block_read t (inl message) = err (from_io message)
block_read t (inr bytes) = block_of_file bytes (try_first_dat_entry t bytes)

unfoldable pub run_block : Target → Opts → ParseResult (List ℕ) → ParseResult (Unit {0}) × List Line
run_block t o (ok block_bytes) = let (r, report) = summarise t o block_bytes in (r, report.lines)
run_block t o (err e) = (err e, [])
run_block t o fault = (fault, [])

-- `std::fs::read` is a parameter.
module _ (t : Target) (read_file : String → String ⊎ List ℕ) where
  unfoldable pub load_block : Option String → ParseResult (List ℕ)
  load_block none = ok build_synthetic_block
  load_block (some path) = block_read t (read_file path)

  unfoldable pub run_program : Parsed → ParseResult (Unit {0}) × List Line
  run_program (usage_error message) = (ok tt, usage (some message) ∷ [])
  run_program (parsed o path) =
      if o.help then (ok tt, usage none ∷ []) else run_block t o (load_block path)

  -- `&argv[1..]` panics without a program name.
  unfoldable pub main : (String → Option ℕ) → List String → ParseResult (Unit {0}) × List Line
  main parse_usize [] = (fault, [])
  main parse_usize (program ∷ args) = run_program (parse_opts parse_usize args)

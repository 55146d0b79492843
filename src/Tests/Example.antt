-- ===== src/Tests/Example.antt =====
-- Runs of the example program.
use Prim.Native.String.{String}
use text.Mathlib.Text.{◌==◌ as str_eq}
use blockchain_zc_parser.Base.{
  ℕ, ◌≡◌, ◌≢◌, refl, List, [], ◌∷◌, ◌++◌, true, false, if◌then◌else◌, Option, none, some, arith,
}
use blockchain_zc_parser.Error.{ok, err, magic_mismatch}
use blockchain_zc_parser.Target.{bits64}
use blockchain_zc_parser.Cursor.{
  new, read_varint, read_u8, read_bytes, read_u16_le, read_u32_le, read_i32_le, read_u64_le,
  read_var_bytes, read_array, skip,
}
use blockchain_zc_parser.Cursor.Format.{advance, IsValid}
use blockchain_zc_parser.Cursor.VarInt.{VarInt, two}
use blockchain_zc_parser.Block.{mainnet_magic, testnet_magic}
use blockchain_zc_parser.Block.File.{new_file, next_block}
use blockchain_zc_parser.Example.Program.{HoldsBlock, main_iff}
use blockchain_zc_parser.Example.Load.{summarise-consume_all_strict}
use blockchain_zc_parser.Block.Strict.{
  wrapped_on_input, strict_round, strict_checks, consume_all_strict,
}
use blockchain_zc_parser.Block.{BlockTxIter, while_unconsumed}
use blockchain_zc_parser.Block.Offsets.{header_of}
use blockchain_zc_parser.Example.Report.{main, run_block, run_program, load_block, block_read}
use blockchain_zc_parser.Example.Dat.{first_entry}
use blockchain_zc_parser.Block.File.{read_entry}
use blockchain_zc_parser.Base.{◌⊎◌, inr}
use blockchain_zc_parser.Tests.{counting, counting-IsTotal, genesis_header, coinbase_tx}
use blockchain_zc_parser.Example.Synthetic.{encode_varint, build_synthetic_block}
use blockchain_zc_parser.Example.Dat.{
  try_first_dat_entry, try_first_dat_entry_lem, try_first_dat_entry_mismatch,
}
use blockchain_zc_parser.Example.Opts.{Opts, defaults, parsed, arg, parse_opts, parse_args}
use blockchain_zc_parser.Example.Args.{Said, command_line, means, parse_opts-command_line}
use blockchain_zc_parser.Example.Report.{
  summarise, summarise_from, on_input, on_output, should_print_tx, should_print_outputs_for_tx,
  print_output, print_typed, missing_tx, stats, totals, close,
}
use blockchain_zc_parser.Example.Loop.{while_next}
use blockchain_zc_parser.Action.{for_range}
use blockchain_zc_parser.Script.{parse_script}
use blockchain_zc_parser.Script.Classify.{classify}
use blockchain_zc_parser.Example.Listing.{coinbases_of}
use blockchain_zc_parser.Example.Summary.{summarise_iff}
use blockchain_zc_parser.Example.Closing.{BlockFormat}
use blockchain_zc_parser.Block.{
  BlockHeader, header_fields, parse_header, read_prefix, new_iter, parse_next, next_tx,
  finish_strict,
}
use blockchain_zc_parser.Transaction.{
  out_point_is_coinbase, is_coinbase, parse_out_point, parse_input, parse_output, detect_segwit,
  varint_from_first, parse_with,
}
use blockchain_zc_parser.Transaction.Whole.{Tx}
use blockchain_zc_parser.Tests.{new-valid}

abbrev dat_bytes : List ℕ
dat_bytes = mainnet_magic ++ (2 ∷ 0 ∷ 0 ∷ 0 ∷ 0xaa ∷ 0xbb ∷ [])

try_first_dat_entry_example :
    try_first_dat_entry bits64 dat_bytes ≡ (next_block bits64 (new_file dat_bytes mainnet_magic)).0
try_first_dat_entry_example =
    try_first_dat_entry_lem bits64 dat_bytes (new-valid dat_bytes refl (omega arith))

testnet-differs : testnet_magic ≢ mainnet_magic
testnet-differs q = cc

try_first_dat_entry_mismatch_example :
    try_first_dat_entry bits64 (testnet_magic ++ (1 ∷ 0 ∷ 0 ∷ 0 ∷ 0xcc ∷ []))
    ≡ err (magic_mismatch mainnet_magic testnet_magic)
try_first_dat_entry_mismatch_example =
    try_first_dat_entry_mismatch bits64 testnet_magic (1 ∷ 0 ∷ 0 ∷ 0 ∷ 0xcc ∷ []) refl
      testnet-differs (new-valid (testnet_magic ++ (1 ∷ 0 ∷ 0 ∷ 0 ∷ 0xcc ∷ [])) refl (omega arith))

-- A parser of the numbers that stand on the command lines here.
abbrev small_number : String → Option ℕ
small_number text = if str_eq text "3" then some 3 else none

abbrev said : Said
said = record {
  summary = true;
  limit_tx = some "3";
  only_tx = none;
  no_outputs = false;
  no_opreturn = true;
  path = "blk00000.dat";
}

parse_opts-command_line_example :
    parse_opts small_number (command_line said)
    ≡ parsed (means small_number said (some 3) none) (some "blk00000.dat")
unfolding arg
parse_opts-command_line_example =
    parse_opts-command_line small_number said (some 3) none refl tt refl

abbrev options : Opts
options = record defaults { limit_tx = some 3 }

synthetic_runs : (summarise bits64 options build_synthetic_block).0 ≡ ok tt
unfolding build_synthetic_block encode_varint summarise summarise_from new_iter read_prefix
    parse_header header_fields while_next next_tx parse_next parse_with parse_input parse_output
    parse_out_point parse_script read_bytes read_u8 read_u16_le read_u32_le read_i32_le read_u64_le
    read_varint read_var_bytes read_array skip detect_segwit varint_from_first for_range on_input
    on_output should_print_tx should_print_outputs_for_tx print_output print_typed missing_tx stats
    totals close finish_strict is_coinbase out_point_is_coinbase classify
synthetic_runs = refl

synthetic_valid : IsValid bits64 (new build_synthetic_block)
unfolding build_synthetic_block encode_varint
synthetic_valid = new-valid build_synthetic_block refl (omega arith)

summarise_iff_example :
    (h : BlockHeader) × (txs : List Tx) × BlockFormat h txs build_synthetic_block
    × (coinbases_of txs ≡ 1)
summarise_iff_example =
    (summarise_iff bits64 options build_synthetic_block synthetic_valid).0 synthetic_runs

-- The transactions of the synthetic block.
synthetic_contents :
    (h : BlockHeader) × (txs : List Tx) × BlockFormat h txs build_synthetic_block
    × (coinbases_of txs ≡ 1)
synthetic_contents =
    (summarise_iff bits64 options build_synthetic_block synthetic_valid).0 synthetic_runs

long_one : VarInt 1 (0xfd ∷ 1 ∷ 0 ∷ [])
long_one = (
  0xfd,
  0xfd ∷ [],
  1 ∷ 0 ∷ [],
  (omega arith, refl),
  two refl (refl, (omega arith, (omega arith, tt)), refl),
  refl,
)

abbrev read_file : String → String ⊎ List ℕ
read_file path = inr build_synthetic_block

main_iff_example : HoldsBlock build_synthetic_block
unfolding arg command_line parse_opts parse_args main run_program run_block load_block block_read
    try_first_dat_entry first_entry next_block read_entry build_synthetic_block encode_varint
    summarise summarise_from new_iter read_prefix parse_header header_fields while_next next_tx
    parse_next parse_with parse_input parse_output parse_out_point parse_script read_bytes read_u8
    read_u16_le read_u32_le read_i32_le read_u64_le read_varint read_var_bytes read_array skip
    detect_segwit varint_from_first for_range on_input on_output should_print_tx
    should_print_outputs_for_tx print_output print_typed missing_tx stats totals close finish_strict
    is_coinbase out_point_is_coinbase classify
main_iff_example =
    (main_iff bits64 read_file small_number build_synthetic_block synthetic_valid "parse_block" said
        (some 3) none refl tt refl refl).0
      refl

abbrev strict_bytes : List ℕ
strict_bytes = genesis_header ++ (1 ∷ coinbase_tx)

abbrev strict_iter : BlockTxIter
strict_iter = record { cursor = advance (new strict_bytes) 81; total = 1; consumed = 0 }

summarise-consume_all_strict_example : (summarise bits64 options strict_bytes).0 ≡ ok tt
unfolding consume_all_strict strict_round strict_checks wrapped_on_input finish_strict new_iter
    read_prefix parse_header header_fields while_unconsumed next_tx parse_next parse_with
    parse_input parse_output parse_out_point out_point_is_coinbase parse_script read_bytes read_u8
    read_u16_le read_u32_le read_i32_le read_u64_le read_varint read_var_bytes read_array skip
    detect_segwit varint_from_first for_range
summarise-consume_all_strict_example =
    summarise-consume_all_strict bits64 counting counting counting-IsTotal counting-IsTotal options
      strict_bytes (header_of genesis_header) strict_iter
      (record { cursor = advance (new strict_bytes) 145; total = 1; consumed = 1 }) 0 2
      (new-valid strict_bytes refl (omega arith)) refl refl

-- ===== src/Tests/Program.antt =====
-- The output of the example program.
use Prim.Native.String.{String}
use text.Mathlib.Text.{◌==◌ as str_eq}
use blockchain_zc_parser.Base.{ℕ, ◌≡◌, refl, List, [], ◌∷◌, true, if◌then◌else◌, Option, none, some}
use blockchain_zc_parser.Error.{ok, err}
use blockchain_zc_parser.Target.{bits64}
use blockchain_zc_parser.Cursor.{
  read_varint, read_u8, read_bytes, read_u16_le, read_u32_le, read_i32_le, read_u64_le,
  read_var_bytes, read_array, skip,
}
use blockchain_zc_parser.Block.File.{next_block}
use blockchain_zc_parser.Example.Report.{main, run_block, run_program, load_block, block_read}
use blockchain_zc_parser.Example.Dat.{first_entry}
use blockchain_zc_parser.Block.File.{read_entry}
use blockchain_zc_parser.Base.{◌⊎◌}
use blockchain_zc_parser.Example.Synthetic.{encode_varint, build_synthetic_block}
use blockchain_zc_parser.Example.Dat.{try_first_dat_entry}
use blockchain_zc_parser.Example.Opts.{arg, parse_opts, parse_args}
use blockchain_zc_parser.Example.Args.{command_line}
use blockchain_zc_parser.Example.Report.{
  summarise, summarise_from, on_input, on_output, should_print_tx, should_print_outputs_for_tx,
  print_output, print_typed, missing_tx, stats, totals, close,
}
use blockchain_zc_parser.Example.Loop.{while_next}
use blockchain_zc_parser.Action.{for_range}
use blockchain_zc_parser.Script.{parse_script}
use blockchain_zc_parser.Script.Classify.{classify, between, strip_prefix, strip_suffix}
use blockchain_zc_parser.Block.{
  header_fields, parse_header, read_prefix, new_iter, parse_next, next_tx, finish_strict,
}
use blockchain_zc_parser.Transaction.{
  out_point_is_coinbase, is_coinbase, parse_out_point, parse_input, parse_output, detect_segwit,
  varint_from_first, parse_with,
}
use blockchain_zc_parser.Base.Int.{pos}
use blockchain_zc_parser.Base.{inl}
use blockchain_zc_parser.Example.Lines.{
  block_summary, transaction, output, parse_stats, before_strict_check, after_strict_check, counts,
  total_output_value,
}
use blockchain_zc_parser.Error.{io}
use blockchain_zc_parser.Example.Lines.{no_such_transaction}

-- No number is said, and no file can be read.
abbrev no_number : String → Option ℕ
no_number text = none

abbrev no_file : String → String ⊎ List ℕ
no_file path = inl "not found"

abbrev one_digit : String → Option ℕ
one_digit text = if str_eq text "7" then some 7 else none

-- Without arguments: the block that is built in.
built_in_run : main bits64 no_file no_number ("parse_block" ∷ []) ≡ (
  ok tt,
  block_summary (pos 1) 1_231_006_505 2_083_236_893 1
      ∷ transaction 0 true
      ∷ output 625_000_000 "P2WPKH" 22
      ∷ parse_stats 1 1 167
      ∷ before_strict_check 1 1 167 0
      ∷ after_strict_check 167 0
      ∷ total_output_value 625_000_000
      ∷ [],
)
unfolding arg command_line parse_opts parse_args main run_program run_block load_block block_read
    try_first_dat_entry first_entry next_block read_entry build_synthetic_block encode_varint
    summarise summarise_from new_iter read_prefix parse_header header_fields while_next next_tx
    parse_next parse_with parse_input parse_output parse_out_point parse_script read_bytes read_u8
    read_u16_le read_u32_le read_i32_le read_u64_le read_varint read_var_bytes read_array skip
    detect_segwit varint_from_first for_range on_input on_output should_print_tx
    should_print_outputs_for_tx print_output print_typed missing_tx stats totals close finish_strict
    is_coinbase out_point_is_coinbase classify between strip_prefix strip_suffix
built_in_run = refl

-- In summary mode, with an index that the block does not have.
summary_run : main bits64 no_file one_digit ("parse_block" ∷ "--tx" ∷ "7" ∷ "--summary" ∷ []) ≡ (
  ok tt,
  block_summary (pos 1) 1_231_006_505 2_083_236_893 1
      ∷ no_such_transaction 7 1
      ∷ parse_stats 1 1 167
      ∷ before_strict_check 1 1 167 0
      ∷ after_strict_check 167 0
      ∷ counts 1 1
      ∷ total_output_value 625_000_000
      ∷ [],
)
unfolding arg command_line parse_opts parse_args main run_program run_block load_block block_read
    try_first_dat_entry first_entry next_block read_entry build_synthetic_block encode_varint
    summarise summarise_from new_iter read_prefix parse_header header_fields while_next next_tx
    parse_next parse_with parse_input parse_output parse_out_point parse_script read_bytes read_u8
    read_u16_le read_u32_le read_i32_le read_u64_le read_varint read_var_bytes read_array skip
    detect_segwit varint_from_first for_range on_input on_output should_print_tx
    should_print_outputs_for_tx print_output print_typed missing_tx stats totals close finish_strict
    is_coinbase out_point_is_coinbase classify between strip_prefix strip_suffix
summary_run = refl

unreadable_run :
    main bits64 no_file no_number ("parse_block" ∷ "blk.dat" ∷ []) ≡ (err (io "not found"), [])
unfolding arg parse_opts parse_args main run_program run_block load_block block_read
unreadable_run = refl

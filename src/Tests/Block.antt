-- ===== src/Tests/Block.antt =====
-- Runs of the block parsers.
use blockchain_zc_parser.Base.{ℕ, ◌≡◌, refl, List, [], ◌∷◌, ◌++◌, arith}
use blockchain_zc_parser.Error.{ok}
use blockchain_zc_parser.Action.{for_range}
use blockchain_zc_parser.Target.{bits64}
use blockchain_zc_parser.Cursor.{
  new, read_u8, read_bytes, read_u16_le, read_u32_le, read_i32_le, read_u64_le, read_varint,
  read_var_bytes, read_array, skip,
}
use blockchain_zc_parser.Cursor.Format.{advance}
use blockchain_zc_parser.Cursor.Checks.{Many}
use blockchain_zc_parser.Cursor.Accepted.{Begins}
use blockchain_zc_parser.Script.{parse_script}
use blockchain_zc_parser.Transaction.{
  out_point_is_coinbase, parse_out_point, parse_input, parse_output, detect_segwit,
  varint_from_first, parse_with,
}
use blockchain_zc_parser.Block.{
  BlockTxIter, mainnet_magic, header_fields, parse_header, read_prefix, new_iter, parse_next,
  next_tx, while_unconsumed, finish_strict,
}
use blockchain_zc_parser.Block.Header.{PrefixFormat}
use blockchain_zc_parser.Block.Offsets.{header_of, parse_header_enough}
use blockchain_zc_parser.Block.Strict.{
  wrapped_on_input, strict_round, strict_checks, consume_all_strict,
}
use blockchain_zc_parser.Block.Consume.{consume_all_strict_iff}
use blockchain_zc_parser.Block.StrictRounds.{StrictBlock}
use blockchain_zc_parser.Block.File.{new_file, read_entry, next_block, EntryFormat}
use blockchain_zc_parser.Block.FileLoop.{read_blocks, more_blocks, read_blocks_iff}
use blockchain_zc_parser.Block.FileNext.{Next, next_block-Next}
use blockchain_zc_parser.Block.Accepted.{new_iter_iff, next_tx_iff, Took}
use blockchain_zc_parser.Block.{skip_remaining}
use blockchain_zc_parser.Block.Reach.{Reaches, here, called, Reading, Reaches-Reading}
use blockchain_zc_parser.Block.Skip.{Skips, skip_remaining_iff}
use blockchain_zc_parser.Tests.{coinbase_tx, genesis_header, counting, counting-IsTotal, new-valid}

-- An iterator over one transaction.
abbrev pub one_tx : BlockTxIter
one_tx = record { cursor = new coinbase_tx; total = 1; consumed = 0 }

abbrev pub one_tx_end : BlockTxIter
one_tx_end = record { cursor = advance (new coinbase_tx) 64; total = 1; consumed = 1 }

consume_all_strict_example : StrictBlock counting counting one_tx 0 2
unfolding consume_all_strict strict_round strict_checks wrapped_on_input finish_strict
    while_unconsumed next_tx parse_next parse_with parse_input parse_output parse_out_point
    out_point_is_coinbase parse_script read_bytes read_u8 read_u16_le read_u32_le read_i32_le
    read_u64_le read_varint read_var_bytes read_array skip detect_segwit varint_from_first for_range
consume_all_strict_example =
    (consume_all_strict_iff bits64 counting counting counting-IsTotal counting-IsTotal one_tx 0 2
        refl (new-valid coinbase_tx refl (omega arith))).0
      (one_tx_end, refl)

next_tx_example :
    Took bits64 counting counting counting-IsTotal counting-IsTotal one_tx 0
      (new-valid coinbase_tx refl (omega arith))
      one_tx_end
      2
unfolding next_tx parse_next parse_with parse_input parse_output parse_out_point parse_script
    read_bytes read_u8 read_u16_le read_u32_le read_i32_le read_u64_le read_varint read_var_bytes
    read_array skip detect_segwit varint_from_first for_range
next_tx_example =
    (next_tx_iff bits64 counting counting counting-IsTotal counting-IsTotal one_tx 0
        (new-valid coinbase_tx refl (omega arith)) one_tx_end 2).0
      refl

abbrev block_bytes : List ℕ
block_bytes = genesis_header ++ (1 ∷ coinbase_tx)

new_iter_example :
    Begins PrefixFormat
      (new block_bytes)
      (header_of genesis_header, 1)
      (advance (new block_bytes) 81)
unfolding new_iter read_prefix parse_header header_fields read_bytes read_u8 read_u32_le read_i32_le
    read_varint read_array
new_iter_example =
    ((new_iter_iff bits64 block_bytes (header_of genesis_header)
        (record { cursor = advance (new block_bytes) 81; total = 1; consumed = 0 })
        (new-valid block_bytes refl (omega arith))).0
      refl).0

parse_header_enough_example :
    parse_header bits64 (new genesis_header)
    ≡ (ok (header_of genesis_header), advance (new genesis_header) 80)
parse_header_enough_example =
    parse_header_enough bits64 (new genesis_header) (new-valid genesis_header refl (omega arith))
      (omega arith)

-- A file of two entries.
abbrev file_bytes : List ℕ
file_bytes =
    mainnet_magic ++ (2 ∷ 0 ∷ 0 ∷ 0 ∷ 0xaa ∷ 0xbb ∷ (mainnet_magic ++ (1 ∷ 0 ∷ 0 ∷ 0 ∷ 0xcc ∷ [])))

read_blocks_example :
    Many (EntryFormat mainnet_magic) ((0xaa ∷ 0xbb ∷ []) ∷ (0xcc ∷ []) ∷ []) file_bytes
unfolding read_blocks more_blocks next_block read_entry read_bytes read_u32_le read_array
read_blocks_example =
    (read_blocks_iff bits64 (new_file file_bytes mainnet_magic)
        ((0xaa ∷ 0xbb ∷ []) ∷ (0xcc ∷ []) ∷ []) (new-valid file_bytes refl (omega arith))).0
      refl

next_block_example :
    Next
      (new_file file_bytes mainnet_magic)
      (next_block bits64 (new_file file_bytes mainnet_magic)).0
      (next_block bits64 (new_file file_bytes mainnet_magic)).1
next_block_example =
    next_block-Next bits64 (new_file file_bytes mainnet_magic)
      (new-valid file_bytes refl (omega arith))

skip_remaining_example :
    Skips bits64 one_tx (new-valid coinbase_tx refl (omega arith)) (omega arith) one_tx_end
unfolding skip_remaining while_unconsumed next_tx parse_next parse_with parse_input parse_output
    parse_out_point parse_script read_bytes read_u8 read_u16_le read_u32_le read_i32_le read_u64_le
    read_varint read_var_bytes read_array skip detect_segwit varint_from_first for_range
skip_remaining_example =
    (skip_remaining_iff bits64 one_tx (new-valid coinbase_tx refl (omega arith)) (omega arith)
        one_tx_end).0
      refl

-- A call that parses the transaction, and one behind the last.
two_calls : Reaches bits64 counting counting (one_tx, 0) (one_tx_end, 2)
unfolding next_tx parse_next parse_with parse_input parse_output parse_out_point parse_script
    read_bytes read_u8 read_u16_le read_u32_le read_i32_le read_u64_le read_varint read_var_bytes
    read_array skip detect_segwit varint_from_first for_range
two_calls = called {d = (one_tx_end, 2)} (called {d = (one_tx, 0)} here refl) refl

Reaches-Reading_example : Reading one_tx one_tx_end
Reaches-Reading_example =
    Reaches-Reading bits64 counting counting counting-IsTotal counting-IsTotal one_tx
      (new-valid coinbase_tx refl (omega arith)) 0 one_tx_end 2 (omega arith) two_calls

-- ===== src/UnitTests/Integration.antt =====
-- tests/integration_tests.rs: the helpers, and the tests of the header and of the iterator.
use blockchain_zc_parser.Base.{
  ℕ, zero, suc, ◌+◌, ◌^◌, ◌%◌, ◌≡◌, refl, List, [], ◌∷◌, ◌++◌, length, Bool, true, false, not, ◌&&◌,
  ◌==◌, Option, none, some, replicate, if◌then◌else◌,
}
use blockchain_zc_parser.Error.{ParseError, ok, err, fault, unexpected_eof}
use blockchain_zc_parser.Action.{for_range}
use blockchain_zc_parser.Target.{Target, bits32, bits64}
use blockchain_zc_parser.Bytes.{to_le_bytes}
use blockchain_zc_parser.Hash.{as_bytes}
use blockchain_zc_parser.Cursor.{
  new, read_u8, read_bytes, read_u16_le, read_u32_le, read_i32_le, read_u64_le, read_varint,
  read_var_bytes, read_array, skip,
}
use blockchain_zc_parser.Script.{parse_script}
use blockchain_zc_parser.Transaction.{
  TxInput, TxOutput, Callback, all_zero, parse_out_point, parse_input, parse_output, detect_segwit,
  varint_from_first, parse_with,
}
use blockchain_zc_parser.Block.{
  BlockTxIter, parse_header, header_fields, read_prefix, new_iter, parse_next, next_tx, accept,
}
use blockchain_zc_parser.UnitTests.{unwrapped, unwrapped_err}
use blockchain_zc_parser.UnitTests.Transactions.{int_eq}
use blockchain_zc_parser.UnitTests.Blocks.{genesis_header_raw}

-- The helper of the tests; its digits are those of `genesis_header_raw` in src/block.rs.
abbrev genesis_header : List ℕ
genesis_header = genesis_header_raw

abbrev pub build_coinbase_bytes : List ℕ
build_coinbase_bytes =
    to_le_bytes 4 1
    ++ (1
        ∷ (replicate 32 0
            ++ (to_le_bytes 4 0xffff_ffff
                ++ (4
                    ∷ ((0x03 ∷ 0x4b ∷ 0x6e ∷ 0x0b ∷ [])
                        ++ (to_le_bytes 4 0xffff_ffff
                            ++ (1
                                ∷ (to_le_bytes 8 625_000_000
                                    ++ (22
                                        ∷ ((0x00 ∷ 0x14 ∷ 0x89 ∷ 0xab ∷ 0xcd ∷ 0xef ∷ 0xab ∷ 0xba
                                              ∷ 0xab ∷ 0xba ∷ 0xab ∷ 0xba ∷ 0xab ∷ 0xba ∷ 0xab
                                              ∷ 0xba ∷ 0xab ∷ 0xba ∷ 0xab ∷ 0xba ∷ 0xab ∷ 0xba ∷ [])
                                            ++ to_le_bytes 4 0))))))))))

-- `block_body.len() as u32` keeps the low 32 bits.
abbrev pub build_block_message : List ℕ → List ℕ → List ℕ
build_block_message block_body magic =
    magic ++ (to_le_bytes 4 (length block_body % 2 ^ 32) ++ block_body)

abbrev times : ℕ → List ℕ → List ℕ
times zero bs = []
times (suc n) bs = bs ++ times n bs

abbrev pub minimal_block : ℕ → List ℕ
minimal_block tx_count = genesis_header ++ (tx_count ∷ times tx_count build_coinbase_bytes)

genesis_header_fields : Target → Bool
unfolding parse_header header_fields read_array read_bytes read_i32_le read_u32_le
genesis_header_fields t = unwrapped (parse_header t (new genesis_header)).0 λ h.
    int_eq h.version 1
    && h.timestamp == 0x495f_ab29
    && h.nonce == 0x7c2b_ac1d
    && all_zero (as_bytes h.prev_block)

abbrev one_short : ParseError → Bool
one_short (unexpected_eof needed available) = needed == 80 && available == 79
one_short _ = false

header_eof_error : Target → Bool
unfolding parse_header read_array read_bytes
header_eof_error t = unwrapped_err (parse_header t (new (replicate 79 0))).0 one_short

-- The counts of the calls of the two closures.
abbrev count_input : Callback (ℕ × ℕ) TxInput
count_input _ (inputs, outputs) = (ok tt, (inputs + 1, outputs))

abbrev count_output : Callback (ℕ × ℕ) TxOutput
count_output _ (inputs, outputs) = (ok tt, (inputs, outputs + 1))

block_tx_iter_coinbase_only : Target → Bool
unfolding new_iter read_prefix parse_header header_fields next_tx parse_next parse_with parse_input
    parse_output parse_out_point parse_script read_bytes read_u8 read_u16_le read_u32_le read_i32_le
    read_u64_le read_varint read_var_bytes read_array skip detect_segwit varint_from_first for_range
block_tx_iter_coinbase_only t = unwrapped (new_iter t (minimal_block 1)) λ (_header, iter).
    iter.total == 1
    && (let (r, (iter, (inputs, outputs))) = next_tx t count_input count_output (iter, (0, 0)) in
        unwrapped r λ found.
          found
          && inputs == 1
          && outputs == 1
          && unwrapped (next_tx t accept accept (iter, tt)).0 not)

-- `while iter.next_tx(…).unwrap() { count += 1; }`, with fuel; `none` is a panic.
count_txs : Target → ℕ → BlockTxIter → ℕ → Option (ℕ × BlockTxIter)
count_txs t zero iter count = none
count_txs t (suc fuel) iter count =
    let d = next_tx t accept accept (iter, tt) in
    let rest = count_txs t fuel d.1.0 (count + 1) in
    elim d.0 [
      | ok found ↦ if found then rest else some (count, d.1.0)
      | err e ↦ none
      | fault ↦ none
    ]

abbrev counts_five : Option (ℕ × BlockTxIter) → Bool
counts_five none = false
counts_five (some (count, iter)) = count == 5 && iter.consumed == 5

block_tx_iter_multiple : Target → Bool
unfolding new_iter read_prefix parse_header header_fields next_tx parse_next parse_with parse_input
    parse_output parse_out_point parse_script read_bytes read_u8 read_u16_le read_u32_le read_i32_le
    read_u64_le read_varint read_var_bytes read_array skip detect_segwit varint_from_first for_range
    count_txs
block_tx_iter_multiple t =
    unwrapped (new_iter t (minimal_block 5))
      λ (_header, iter). iter.total == 5 && counts_five (count_txs t 6 iter 0)

block_tests_pass :
    (t : Target)
    → (genesis_header_fields t
        && header_eof_error t
        && block_tx_iter_coinbase_only t
        && block_tx_iter_multiple t)
      ≡ true
unfolding genesis_header_fields header_eof_error block_tx_iter_coinbase_only block_tx_iter_multiple
block_tests_pass bits32 = refl
block_tests_pass bits64 = refl

-- ===== src/UnitTests/Messages.antt =====
-- tests/integration_tests.rs: the tests of block files, of scripts and of single transactions.
use blockchain_zc_parser.Base.{
  ℕ, ◌+◌, ◌^◌, ◌%◌, ◌≡◌, refl, List, [], ◌∷◌, ◌++◌, length, Bool, true, false, not, ◌&&◌, ◌==◌, ltb,
  Option, none, some, replicate, take, if◌then◌else◌,
}
use blockchain_zc_parser.Error.{ParseError, ok, fault, magic_mismatch}
use blockchain_zc_parser.Action.{for_range}
use blockchain_zc_parser.Target.{Target, bits32, bits64}
use blockchain_zc_parser.Bytes.{to_le_bytes}
use blockchain_zc_parser.Hash.{bytes_eq}
use blockchain_zc_parser.Cursor.{
  new, read_u8, read_bytes, read_u16_le, read_u32_le, read_i32_le, read_u64_le, read_varint,
  read_var_bytes, read_array,
}
use blockchain_zc_parser.Script.{parse_script}
use blockchain_zc_parser.Script.Classify.{ScriptType, p2wpkh, p2tr, classify, script_type}
use blockchain_zc_parser.Transaction.{
  TxOutput, Callback, out_point_is_coinbase, parse_out_point, parse_input, parse_output,
  detect_segwit, varint_from_first, parse_with, new_parser,
}
use blockchain_zc_parser.Block.{mainnet_magic}
use blockchain_zc_parser.Block.File.{new_file, read_entry, next_block}
use blockchain_zc_parser.UnitTests.{unwrapped, unwrapped_err}
use blockchain_zc_parser.UnitTests.Integration.{
  build_coinbase_bytes, build_block_message, minimal_block,
}

abbrev is_block : List ℕ → Option (List ℕ) → Bool
is_block block none = false
is_block block (some raw) = bytes_eq raw block

abbrev is_none : Option (List ℕ) → Bool
is_none none = true
is_none (some raw) = false

blk_file_iter_single_block : Target → Bool
unfolding next_block read_entry read_array read_bytes read_u32_le
blk_file_iter_single_block t =
    let block = minimal_block 1 in
    let (first, iter) =
      next_block t (new_file (build_block_message block mainnet_magic) mainnet_magic) in
    unwrapped first (is_block block) && unwrapped (next_block t iter).0 is_none

abbrev is_mismatch : ParseError → Bool
is_mismatch (magic_mismatch expected got) = true
is_mismatch _ = false

blk_file_iter_magic_mismatch : Target → Bool
unfolding next_block read_entry read_array read_bytes read_u32_le
blk_file_iter_magic_mismatch t =
    let file = build_block_message (minimal_block 1) (0x00 ∷ 0x01 ∷ 0x02 ∷ 0x03 ∷ []) in
    unwrapped_err (next_block t (new_file file mainnet_magic)).0 is_mismatch

blk_file_iter_multiple_blocks : Target → Bool
unfolding next_block read_entry read_array read_bytes read_u32_le
blk_file_iter_multiple_blocks t =
    let b1 = minimal_block 1 in
    let b2 = minimal_block 2 in
    let file = build_block_message b1 mainnet_magic ++ build_block_message b2 mainnet_magic in
    let (first, iter) = next_block t (new_file file mainnet_magic) in
    let (second, iter') = next_block t iter in
    unwrapped first (is_block b1)
    && unwrapped second (is_block b2)
    && unwrapped (next_block t iter').0 is_none

abbrev is_p2wpkh : ScriptType → Bool
is_p2wpkh (p2wpkh h) = true
is_p2wpkh _ = false

abbrev is_p2tr : ScriptType → Bool
is_p2tr (p2tr k) = true
is_p2tr _ = false

-- `script_bytes.len() as u8` keeps the low 8 bits.
abbrev prefixed : List ℕ → List ℕ
prefixed script_bytes = (length script_bytes % 2 ^ 8) ∷ script_bytes

classify_p2wpkh : Target → Bool
unfolding parse_script read_var_bytes read_varint read_u8 read_bytes classify
classify_p2wpkh t =
    let script_bytes : List ℕ =
      0x00 ∷ 0x14 ∷ 0x89 ∷ 0xab ∷ 0xcd ∷ 0xef ∷ 0xab ∷ 0xba ∷ 0xab ∷ 0xba ∷ 0xab ∷ 0xba ∷ 0xab
      ∷ 0xba ∷ 0xab ∷ 0xba ∷ 0xab ∷ 0xba ∷ 0xab ∷ 0xba ∷ 0xab ∷ 0xba ∷ [] in
    unwrapped (parse_script t (new (prefixed script_bytes))).0
      λ script. unwrapped (script_type script) is_p2wpkh

classify_p2tr : Target → Bool
unfolding parse_script read_var_bytes read_varint read_u8 read_bytes classify
classify_p2tr t =
    let script_bytes : List ℕ = 0x51 ∷ 0x20 ∷ replicate 32 0xab in
    unwrapped (parse_script t (new (prefixed script_bytes))).0
      λ script. unwrapped (script_type script) is_p2tr

outpoint_not_coinbase : Target → Bool
unfolding parse_out_point read_bytes read_array read_u32_le out_point_is_coinbase
outpoint_not_coinbase t =
    let raw : List ℕ = take 32 (replicate 36 0xab) ++ to_le_bytes 4 0 in
    unwrapped (parse_out_point t (new raw)).0 λ op. not (out_point_is_coinbase op)

-- `total_out += out.value`, which panics on an overflow of `u64` in a test
abbrev add_value : Callback ℕ TxOutput
add_value out total_out =
    if ltb (total_out + out.value) (2 ^ 64)
    then (ok tt, total_out + out.value)
    else (fault, total_out)

tx_parser_collects_values : Target → Bool
unfolding parse_with parse_input parse_output parse_out_point parse_script read_bytes read_u8
    read_u16_le read_u32_le read_i32_le read_u64_le read_varint read_var_bytes read_array
    detect_segwit varint_from_first for_range
tx_parser_collects_values t =
    let (r, (parser, total_out)) =
      parse_with t (λ _ n. (ok tt, n)) add_value (new_parser build_coinbase_bytes, 0) in
    unwrapped r λ _. total_out == 625_000_000

message_tests_pass :
    (t : Target)
    → (blk_file_iter_single_block t
        && blk_file_iter_magic_mismatch t
        && blk_file_iter_multiple_blocks t
        && classify_p2wpkh t
        && classify_p2tr t
        && outpoint_not_coinbase t
        && tx_parser_collects_values t)
      ≡ true
unfolding blk_file_iter_single_block blk_file_iter_magic_mismatch blk_file_iter_multiple_blocks
    classify_p2wpkh classify_p2tr outpoint_not_coinbase tx_parser_collects_values
message_tests_pass bits32 = refl
message_tests_pass bits64 = refl

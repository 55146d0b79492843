-- ===== src/Tests/Calls.antt =====
-- Runs of the parsers with closures that count or refuse an element, and the loops over a block.
use blockchain_zc_parser.Base.{ℕ, ◌+◌, ◌≤◌, ◌≡◌, ◌≢◌, refl, [], ◌∷◌, arith}
use blockchain_zc_parser.Error.{ParseError, err, invalid_coinbase, incomplete_transactions}
use blockchain_zc_parser.Error.Truthful.{
  Truthful, eof, too_large, oversized, segwit_flag, no_inputs, other_magic,
}
use blockchain_zc_parser.Action.{for_range}
use blockchain_zc_parser.Action.Triple.{Ends, Triple, Any}
use blockchain_zc_parser.Target.{bits64}
use blockchain_zc_parser.Cursor.{
  new, read_u8, read_bytes, read_u16_le, read_u32_le, read_i32_le, read_u64_le, read_varint,
  read_var_bytes, read_array, skip,
}
use blockchain_zc_parser.Cursor.Format.{advance}
use blockchain_zc_parser.Cursor.Triples.{Within}
use blockchain_zc_parser.Script.{parse_script}
use blockchain_zc_parser.Transaction.{
  Callback, parse_out_point, parse_input, parse_output, detect_segwit, varint_from_first,
  parse_with,
}
use blockchain_zc_parser.Transaction.Replay.{at_user, parse_with-replay}
use blockchain_zc_parser.Block.{BlockTxIter, rounds, new_iter, parse_next, next_tx}
use blockchain_zc_parser.Block.File.{next_block}
use blockchain_zc_parser.Block.Replay.{next_tx-replay}
use blockchain_zc_parser.Block.Triples.{Over, Iterates, new_iter-Ends, next_tx-Triple}
use blockchain_zc_parser.Block.FileTriples.{Entry, next_block-Triple}
use blockchain_zc_parser.Block.Strict.{consume_all_strict}
use blockchain_zc_parser.Block.StrictTriples.{Counting, consume_all_strict-Triple}
use blockchain_zc_parser.Block.Drained.{
  Calls, no_call, then_call, Drained, calls_bounded, next_tx-Drained,
}
use blockchain_zc_parser.Tests.{coinbase_tx, genesis_header, counting, counting-IsTotal, new-valid}
use blockchain_zc_parser.Tests.Transaction.{coinbase, coinbase-TxFormat}

-- Counts the element and refuses it.
abbrev refusing : {A : Type 0} → Callback ℕ A
refusing a n = (err invalid_coinbase, n + 1)

abbrev one_tx : BlockTxIter
one_tx = record { cursor = new coinbase_tx; total = 1; consumed = 0 }

-- The input is counted and the output refused.
parse_with-replay_example :
    at_user (parse_with bits64 counting refusing (new coinbase_tx, 0)) ≡ (err invalid_coinbase, 2)
unfolding parse_with parse_input parse_output parse_out_point parse_script read_bytes read_u8
    read_u16_le read_u32_le read_i32_le read_u64_le read_varint read_var_bytes read_array
    detect_segwit varint_from_first for_range
parse_with-replay_example = parse_with-replay bits64 counting refusing (new coinbase_tx) 0

-- The input is refused, and the iterator stays where it was.
next_tx-replay_example :
    next_tx bits64 refusing counting (one_tx, 0) ≡ (err invalid_coinbase, (one_tx, 1))
unfolding next_tx parse_next parse_with parse_input parse_output parse_out_point parse_script
    read_bytes read_u8 read_u16_le read_u32_le read_i32_le read_u64_le read_varint read_var_bytes
    read_array skip detect_segwit varint_from_first for_range
next_tx-replay_example = next_tx-replay bits64 refusing counting one_tx 0

counting-Triple : {A : Type 0} (a : A) → Triple (λ n. 3 ≤ n) (Truthful bits64) Any (counting a)
counting-Triple a = record { triple = λ n h. (omega arith, tt) }

next_tx-Triple_example :
    Triple
      (Iterates bits64 coinbase_tx (λ n. 3 ≤ n))
      (Truthful bits64)
      Any
      (next_tx bits64 counting counting)
next_tx-Triple_example =
    next_tx-Triple bits64 (Truthful bits64) (λ e h. h) coinbase_tx (λ n. 3 ≤ n) counting counting
      (λ i f. counting-Triple i) (λ o f. counting-Triple o)

next_block_kept :
    Triple
      (λ it. Within bits64 coinbase_tx it.cursor)
      (Truthful bits64)
      (Entry coinbase_tx)
      (next_block bits64)
next_block_kept = next_block-Triple bits64 coinbase_tx

-- A header without the count behind it.
new_iter_short :
    Ends (Truthful bits64) (Over bits64 genesis_header) (new_iter bits64 genesis_header)
new_iter_short = new_iter-Ends bits64 genesis_header (new-valid genesis_header refl (omega arith))

abbrev one_tx_end : BlockTxIter
one_tx_end = record { cursor = advance (new coinbase_tx) 64; total = 1; consumed = 1 }

one_call : Calls bits64 counting counting 1 (one_tx, 0) (one_tx_end, 2)
unfolding next_tx parse_next parse_with parse_input parse_output parse_out_point parse_script
    read_bytes read_u8 read_u16_le read_u32_le read_i32_le read_u64_le read_varint read_var_bytes
    read_array skip detect_segwit varint_from_first for_range
one_call = then_call {e = (one_tx_end, 2)} refl no_call

calls_bounded_example :
    (1 ≤ rounds one_tx)
    × (one_tx_end.consumed ≡ one_tx.consumed + 1)
    × (one_tx_end.total ≡ one_tx.total)
calls_bounded_example =
    calls_bounded bits64 counting counting 1 (one_tx, 0) (one_tx_end, 2) one_call

next_tx-Drained_example : Drained bits64 counting counting one_tx 0 1 64 2
next_tx-Drained_example =
    next_tx-Drained bits64 counting counting counting-IsTotal counting-IsTotal (coinbase ∷ [])
      one_tx 0 2 coinbase_tx [] (new-valid coinbase_tx refl (omega arith)) refl
      (coinbase_tx, [], coinbase-TxFormat, refl, refl) refl (2, (1, refl, refl), refl)

abbrev NotIncomplete : ParseError → Type 0
NotIncomplete e = (expected parsed : ℕ) → e ≢ incomplete_transactions expected parsed

Truthful-NotIncomplete : (e : ParseError) → Truthful bits64 e → NotIncomplete e
Truthful-NotIncomplete _ (eof l) a b q = cc
Truthful-NotIncomplete _ (too_large l) a b q = cc
Truthful-NotIncomplete _ (oversized l) a b q = cc
Truthful-NotIncomplete _ (segwit_flag l) a b q = cc
Truthful-NotIncomplete _ no_inputs a b q = cc
Truthful-NotIncomplete _ (other_magic l) a b q = cc

consume_all_strict-Triple_example :
    Triple
      (Counting bits64 coinbase_tx (λ n. 3 ≤ n))
      NotIncomplete
      Any
      (consume_all_strict bits64 counting counting)
consume_all_strict-Triple_example =
    consume_all_strict-Triple bits64 NotIncomplete Truthful-NotIncomplete (λ n l a b q. cc)
      (λ n a b q. cc) coinbase_tx (λ n. 3 ≤ n) counting counting
      (λ i f. record { triple = λ n h. (omega arith, tt) })
      (λ o f. record { triple = λ n h. (omega arith, tt) })

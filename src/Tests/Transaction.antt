-- ===== src/Tests/Transaction.antt =====
-- Runs of the transaction parsers.
use blockchain_zc_parser.Base.{
  ◌≡◌, ℕ, ◌≢◌, ◌≤◌, refl, false, List, [], ◌∷◌, ◌++◌, arith, take, replicate,
}
use blockchain_zc_parser.Base.Int.{pos}
use blockchain_zc_parser.Error.{ok, fault, IsEof}
use blockchain_zc_parser.Action.{for_range}
use blockchain_zc_parser.Target.{bits64}
use blockchain_zc_parser.Cursor.{
  new, read_u8, read_bytes, read_u16_le, read_u32_le, read_i32_le, read_u64_le, read_varint,
  read_var_bytes, read_array,
}
use blockchain_zc_parser.Cursor.Format.{advance}
use blockchain_zc_parser.Script.{parse_script}
use blockchain_zc_parser.Transaction.{
  parse_out_point, parse_input, parse_output, detect_segwit, varint_from_first, parse_with,
}
use blockchain_zc_parser.Cursor.VarInt.{VarInt, short}
use blockchain_zc_parser.Transaction.Whole.{Tx, TxFormat, Parsed}
use blockchain_zc_parser.Transaction.Accepted.{
  StreamBegins, parse_with_iff, parse_with_safe, parse_with_truncated,
}
use blockchain_zc_parser.Base.{none, some, ◌+◌, length}
use blockchain_zc_parser.Transaction.Size.{least_size, parse_with_bounds}
use blockchain_zc_parser.Transaction.Items.{WitnessIter, items, calls, items_lem}
use blockchain_zc_parser.Bytes.{all_bytes-IsByte}
use blockchain_zc_parser.Tests.{coinbase_tx, counting, counting-IsTotal, new-valid}

parse_with_example :
    StreamBegins
      (Parsed counting counting)
      (new coinbase_tx)
      0
      (pos 1, 0, 1, 1)
      (advance (new coinbase_tx) 64)
      2
unfolding parse_with parse_input parse_output parse_out_point parse_script read_bytes read_u8
    read_u16_le read_u32_le read_i32_le read_u64_le read_varint read_var_bytes read_array
    detect_segwit varint_from_first for_range
parse_with_example =
    (parse_with_iff bits64 counting counting (new coinbase_tx) 0 (pos 1, 0, 1, 1)
        (advance (new coinbase_tx) 64) 2 counting-IsTotal counting-IsTotal
        (new-valid coinbase_tx refl (omega arith))).0
      refl

parse_with_bounds_example : (0 + least_size 1 1 ≤ 64) × (64 ≤ length coinbase_tx)
unfolding parse_with parse_input parse_output parse_out_point parse_script read_bytes read_u8
    read_u16_le read_u32_le read_i32_le read_u64_le read_varint read_var_bytes read_array
    detect_segwit varint_from_first for_range
parse_with_bounds_example =
    parse_with_bounds bits64 counting counting (new coinbase_tx) 0 (pos 1) 0 1 1
      (advance (new coinbase_tx) 64) 2 counting-IsTotal counting-IsTotal
      (new-valid coinbase_tx refl (omega arith)) refl

-- The run of the transaction behind a cursor that has read nothing.
parse_with_safe_example :
    (parse_with bits64 counting counting (new (take 40 coinbase_tx), 0)).0 ≢ fault
parse_with_safe_example =
    (parse_with_safe bits64 counting counting (new (take 40 coinbase_tx)) 0 counting-IsTotal
      counting-IsTotal (new-valid (take 40 coinbase_tx) refl (omega arith))).0

abbrev pub coinbase : Tx
coinbase = record {
  version = pos 1;
  is_segwit = false;
  inputs =
      record {
        previous_output = record { txid = record { array = replicate 32 0 }; vout = 0xffff_ffff };
        script_sig = record { bytes = 0xde ∷ 0xad ∷ 0xbe ∷ 0xef ∷ [] };
        sequence = 0xffff_ffff;
      }
      ∷ [];
  outputs = record { value = 5_000_000_000; script_pubkey = record { bytes = [] } } ∷ [];
  witnesses = [];
  locktime = 0;
}

one_byte : (b : ℕ) → b ≤ 0xfc → VarInt b (b ∷ [])
one_byte b h = (b, b ∷ [], [], (omega arith, refl), short h refl refl, refl)

abbrev ones : List ℕ
ones = 0xff ∷ 0xff ∷ 0xff ∷ 0xff ∷ []

abbrev script : List ℕ
script = 0xde ∷ 0xad ∷ 0xbe ∷ 0xef ∷ []

abbrev value : List ℕ
value = 0x00 ∷ 0xf2 ∷ 0x05 ∷ 0x2a ∷ 1 ∷ 0 ∷ 0 ∷ 0 ∷ []

pub coinbase-TxFormat : TxFormat coinbase coinbase_tx
coinbase-TxFormat = record {
  version_bytes = 1 ∷ 0 ∷ 0 ∷ 0 ∷ [];
  count_bytes = 1 ∷ [];
  input_bytes = (replicate 32 0 ++ ones) ++ ((4 ∷ script) ++ ones);
  output_count_bytes = 1 ∷ [];
  output_bytes = value ++ (0 ∷ []);
  witness_bytes = [];
  locktime_bytes = 0 ∷ 0 ∷ 0 ∷ 0 ∷ [];
  version = (refl, all_bytes-IsByte (1 ∷ 0 ∷ 0 ∷ 0 ∷ []) refl, refl);
  some_input = λ e. absurd (omega (arith, e));
  input_count = (one_byte 1 (omega arith), omega arith);
  inputs = (
    (replicate 32 0 ++ ones) ++ ((4 ∷ script) ++ ones),
    [],
    (
      replicate 32 0 ++ ones,
      4 ∷ script,
      ones,
      (
        replicate 32 0,
        ones,
        (refl, refl, all_bytes-IsByte (replicate 32 0) refl),
        (refl, all_bytes-IsByte ones refl, refl),
        refl,
      ),
      (
        4,
        4 ∷ [],
        script,
        (one_byte 4 (omega arith), omega arith),
        (refl, refl, all_bytes-IsByte script refl),
        refl,
      ),
      (refl, all_bytes-IsByte ones refl, refl),
      refl,
    ),
    refl,
    refl,
  );
  output_count = (one_byte 1 (omega arith), omega arith);
  outputs = (
    value ++ (0 ∷ []),
    [],
    (
      value,
      0 ∷ [],
      (refl, all_bytes-IsByte value refl, refl),
      (0, 0 ∷ [], [], (one_byte 0 (omega arith), omega arith), (refl, refl, tt), refl),
      refl,
    ),
    refl,
    refl,
  );
  witnesses = (refl, refl);
  locktime = (refl, all_bytes-IsByte (0 ∷ 0 ∷ 0 ∷ 0 ∷ []) refl, refl);
  whole = refl;
}

-- The transaction without its last byte.
parse_with_truncated_example :
    IsEof (parse_with bits64 counting counting (new (take 63 coinbase_tx), 0)).0
parse_with_truncated_example =
    parse_with_truncated bits64 counting counting (new (take 63 coinbase_tx)) 0 1 2 coinbase 0 []
      counting-IsTotal counting-IsTotal (new-valid (take 63 coinbase_tx) refl (omega arith))
      coinbase-TxFormat refl refl

items_example :
    (it : WitnessIter) × (items bits64
        (record { raw = 2 ∷ 0 ∷ 2 ∷ 0xaa ∷ 0xbb ∷ []; item_count = 2 })
      ≡ ok it)
    × (calls bits64 3 it ≡ some (ok []) ∷ some (ok (0xaa ∷ 0xbb ∷ [])) ∷ none ∷ [])
items_example =
    items_lem bits64 ([] ∷ (0xaa ∷ 0xbb ∷ []) ∷ []) (2 ∷ 0 ∷ 2 ∷ 0xaa ∷ 0xbb ∷ [])
      (new-valid (2 ∷ 0 ∷ 2 ∷ 0xaa ∷ 0xbb ∷ []) refl (omega arith))
      (
        2 ∷ [],
        0 ∷ 2 ∷ 0xaa ∷ 0xbb ∷ [],
        (one_byte 2 (omega arith), omega arith),
        (
          0 ∷ [],
          2 ∷ 0xaa ∷ 0xbb ∷ [],
          (0, 0 ∷ [], [], (one_byte 0 (omega arith), omega arith), (refl, refl, tt), refl),
          (
            2 ∷ 0xaa ∷ 0xbb ∷ [],
            [],
            (
              2,
              2 ∷ [],
              0xaa ∷ 0xbb ∷ [],
              (one_byte 2 (omega arith), omega arith),
              (refl, refl, all_bytes-IsByte (0xaa ∷ 0xbb ∷ []) refl),
              refl,
            ),
            refl,
            refl,
          ),
          refl,
        ),
        refl,
      )

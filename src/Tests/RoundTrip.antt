-- ===== src/Tests/RoundTrip.antt =====
-- A SegWit transaction through its serialised form, and the parse of one with a byte behind it.
use blockchain_zc_parser.Base.{
  ℕ, suc, ◌+◌, ◌≤◌, ◌≡◌, refl, true, List, [], ◌∷◌, ◌++◌, length, arith, replicate,
}
use blockchain_zc_parser.Base.Int.{negsuc}
use blockchain_zc_parser.Error.{ok, err, invalid_coinbase_count}
use blockchain_zc_parser.Action.{for_range}
use blockchain_zc_parser.Target.{bits64}
use blockchain_zc_parser.Cursor.{
  new, read_u8, read_bytes, read_u16_le, read_u32_le, read_i32_le, read_u64_le, read_varint,
  read_var_bytes, read_array, skip,
}
use blockchain_zc_parser.Cursor.Format.{advance}
use blockchain_zc_parser.Script.{parse_script}
use blockchain_zc_parser.Transaction.{
  parse_out_point, parse_input, parse_output, read_witness, parse_witness, skip_witness,
  detect_segwit, varint_from_first, parse_with,
}
use blockchain_zc_parser.Transaction.Whole.{Tx}
use blockchain_zc_parser.Transaction.Events.{record_input, record_output}
use blockchain_zc_parser.Transaction.Serialise.{serialise, TxFits}
use blockchain_zc_parser.Transaction.RoundTrip.{
  summary, calls, parse_with-serialise, parse_with-TxFits,
}
use blockchain_zc_parser.Example.Synthetic.{encode_varint}
use blockchain_zc_parser.Block.{
  BlockHeader, BlockTxIter, mainnet_magic, new_iter, finish_strict, while_unconsumed, next_tx,
  parse_next,
}
use blockchain_zc_parser.Block.Offsets.{header_of}
use blockchain_zc_parser.Block.Strict.{
  consume_all_strict, strict_round, strict_checks, wrapped_on_input,
}
use blockchain_zc_parser.Block.RoundTrip.{
  HeaderFits, block_bytes, block_calls, consume_all_strict-block_bytes,
}
use blockchain_zc_parser.Block.File.{new_file}
use blockchain_zc_parser.Block.FileLoop.{read_blocks}
use blockchain_zc_parser.Block.FileRoundTrip.{file_bytes, read_blocks-file_bytes}
use blockchain_zc_parser.Transaction.{out_point_is_coinbase}
use blockchain_zc_parser.Bytes.{all_bytes-IsByte}
use blockchain_zc_parser.Tests.{genesis_header, new-valid}
use blockchain_zc_parser.Tests.Transaction.{coinbase}

abbrev segwit : Tx
segwit = record {
  version = negsuc 1;
  is_segwit = true;
  inputs =
      record {
        previous_output = record { txid = record { array = replicate 32 0xab }; vout = 3 };
        script_sig = record { bytes = [] };
        sequence = 0xffff_fffd;
      }
      ∷ [];
  outputs =
      record { value = 5_000_000_000; script_pubkey = record { bytes = 0x51 ∷ [] } }
      ∷ record { value = 0; script_pubkey = record { bytes = 0x6a ∷ 0xff ∷ [] } }
      ∷ [];
  witnesses = ([] ∷ (0xaa ∷ 0xbb ∷ []) ∷ []) ∷ [];
  locktime = 800_000;
}

pub segwit-TxFits : TxFits segwit
segwit-TxFits = record {
  version = omega arith;
  some_input = omega arith;
  input_count = omega arith;
  inputs = (
    record {
      txid = refl;
      txid_octets = all_bytes-IsByte (replicate 32 0xab) refl;
      vout = omega arith;
      script_sig = (omega arith, tt);
      sequence = omega arith;
    },
    tt,
  );
  output_count = omega arith;
  outputs = (
    record { value = omega arith; script_pubkey = (omega arith, (omega arith, tt)) },
    (
      record {
        value = omega arith;
        script_pubkey = (omega arith, (omega arith, (omega arith, tt)));
      },
      tt,
    ),
  );
  witnesses = (
    refl,
    ((omega arith, ((omega arith, tt), ((omega arith, (omega arith, (omega arith, tt))), tt))), tt),
  );
  locktime = omega arith;
}

abbrev message : List ℕ
message = serialise segwit ++ (0x99 ∷ [])

parse_with-serialise_example :
    parse_with bits64 record_input record_output (new message, [])
    ≡ (ok (negsuc 1, 800_000, 1, 2), (advance (new message) 79, calls segwit))
unfolding encode_varint
parse_with-serialise_example =
    parse_with-serialise bits64 (new message) segwit (0x99 ∷ []) segwit-TxFits
      (new-valid message refl (omega arith)) refl

parse_with-TxFits_example :
    (x : Tx) × TxFits x
    × ((negsuc 1, 800_000, 1, 2) ≡ summary x)
    × (calls segwit ≡ calls x)
    × (0 + length (serialise x) ≤ 79)
unfolding encode_varint parse_with parse_input parse_output parse_out_point parse_script read_bytes
    read_u8 read_u16_le read_u32_le read_i32_le read_u64_le read_varint read_var_bytes read_array
    read_witness parse_witness skip_witness skip detect_segwit varint_from_first for_range
parse_with-TxFits_example =
    parse_with-TxFits bits64 (new message) (advance (new message) 79) (negsuc 1, 800_000, 1, 2)
      (calls segwit) (new-valid message refl (omega arith)) refl

-- The header of the genesis block.
abbrev pub genesis : BlockHeader
genesis = header_of genesis_header

pub genesis-HeaderFits : HeaderFits genesis
genesis-HeaderFits = record {
  version = omega arith;
  prev_block = (refl, all_bytes-IsByte genesis.prev_block.array refl);
  merkle_root = (refl, all_bytes-IsByte genesis.merkle_root.array refl);
  timestamp = omega arith;
  bits = omega arith;
  nonce = omega arith;
  raw = refl;
}

pub coinbase-TxFits : TxFits coinbase
coinbase-TxFits = record {
  version = omega arith;
  some_input = omega arith;
  input_count = omega arith;
  inputs = (
    record {
      txid = refl;
      txid_octets = all_bytes-IsByte (replicate 32 0) refl;
      vout = omega arith;
      script_sig = (omega arith, all_bytes-IsByte (0xde ∷ 0xad ∷ 0xbe ∷ 0xef ∷ []) refl);
      sequence = omega arith;
    },
    tt,
  );
  output_count = omega arith;
  outputs = (record { value = omega arith; script_pubkey = (omega arith, tt) }, tt);
  witnesses = refl;
  locktime = omega arith;
}

-- A coinbase and a SegWit transaction.
abbrev pub two_txs : List Tx
two_txs = coinbase ∷ segwit ∷ []

consume_all_strict-block_bytes_example :
    (it : BlockTxIter) × (d : BlockTxIter) × (new_iter bits64 (block_bytes genesis two_txs)
      ≡ ok (genesis, it))
    × (it.total ≡ length two_txs)
    × (consume_all_strict bits64 record_input record_output (it, [])
        ≡ (ok tt, (d, block_calls two_txs)))
unfolding encode_varint out_point_is_coinbase
consume_all_strict-block_bytes_example =
    consume_all_strict-block_bytes bits64 genesis two_txs genesis-HeaderFits
      (coinbase-TxFits, (segwit-TxFits, tt)) (omega arith)
      (new-valid (block_bytes genesis two_txs) refl (omega arith)) (refl, (refl, tt))

abbrev two_blocks : List (List ℕ)
two_blocks = (0xaa ∷ 0xbb ∷ []) ∷ (0xcc ∷ []) ∷ []

read_blocks-file_bytes_example :
    read_blocks bits64
      (suc (length (file_bytes mainnet_magic two_blocks)))
      (new_file (file_bytes mainnet_magic two_blocks) mainnet_magic)
    ≡ ok two_blocks
read_blocks-file_bytes_example =
    read_blocks-file_bytes bits64 mainnet_magic two_blocks refl
      (all_bytes-IsByte mainnet_magic refl)
      (
        (omega arith, all_bytes-IsByte (0xaa ∷ 0xbb ∷ []) refl),
        ((omega arith, all_bytes-IsByte (0xcc ∷ []) refl), tt),
      )
      (new-valid (file_bytes mainnet_magic two_blocks) refl (omega arith))

-- The only coinbase of the block stands second.
abbrev late_coinbase : BlockTxIter
late_coinbase = record {
  cursor = new (serialise segwit ++ serialise coinbase);
  total = 2;
  consumed = 0;
}

late_coinbase_run :
    (consume_all_strict bits64 record_input record_output (late_coinbase, [])).0
    ≡ err (invalid_coinbase_count 1)
unfolding encode_varint consume_all_strict strict_round strict_checks wrapped_on_input finish_strict
    while_unconsumed next_tx parse_next parse_with parse_input parse_output parse_out_point
    out_point_is_coinbase parse_script read_bytes read_u8 read_u16_le read_u32_le read_i32_le
    read_u64_le read_varint read_var_bytes read_array read_witness parse_witness skip_witness skip
    detect_segwit varint_from_first for_range
late_coinbase_run = refl

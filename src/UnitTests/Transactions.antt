-- ===== src/UnitTests/Transactions.antt =====
-- The tests of src/transaction.rs.
use blockchain_zc_parser.Base.{
  ℕ, ◌+◌, ◌*◌, ◌≡◌, refl, List, [], ◌∷◌, ◌++◌, Bool, true, false, ◌&&◌, ◌==◌, replicate, take,
  if◌then◌else◌,
}
use blockchain_zc_parser.Base.Int.{ℤ, pos, negsuc}
use blockchain_zc_parser.Error.{ok}
use blockchain_zc_parser.Action.{for_range}
use blockchain_zc_parser.Target.{Target, bits32, bits64}
use blockchain_zc_parser.Bytes.{to_le_bytes}
use blockchain_zc_parser.Cursor.{
  new, read_u8, read_bytes, read_u16_le, read_u32_le, read_i32_le, read_u64_le, read_varint,
  read_var_bytes, read_array,
}
use blockchain_zc_parser.Script.{parse_script}
use blockchain_zc_parser.Transaction.{
  TxInput, TxOutput, Callback, is_coinbase, out_point_is_coinbase, parse_out_point, parse_input,
  parse_output, detect_segwit, varint_from_first, parse_with, new_parser,
}
use blockchain_zc_parser.UnitTests.{unwrapped}

abbrev pub coinbase_tx_raw : List ℕ
coinbase_tx_raw =
    to_le_bytes 4 1
    ++ (1
        ∷ (replicate 32 0
            ++ (to_le_bytes 4 0xffff_ffff
                ++ (4
                    ∷ ((0xde ∷ 0xad ∷ 0xbe ∷ 0xef ∷ [])
                        ++ (to_le_bytes 4 0xffff_ffff
                            ++ (1
                                ∷ (to_le_bytes 8 (50 * 100_000_000) ++ (0 ∷ to_le_bytes 4 0)))))))))

-- The variables that the closures of the test capture.
record Seen : Type 0 where
  pub inputs : ℕ
  pub outputs : ℕ
  pub saw_coinbase : Bool

abbrev see_input : Callback Seen TxInput
see_input inp seen = (
  ok tt,
  record seen {
    inputs = seen.inputs + 1;
    saw_coinbase = if is_coinbase inp then true else seen.saw_coinbase;
  },
)

abbrev see_output : Callback Seen TxOutput
see_output out seen = (ok tt, record seen { outputs = seen.outputs + 1 })

-- `assert_eq!` of an `i32` and a literal that is not negative
abbrev pub int_eq : ℤ → ℕ → Bool
int_eq (pos n) m = n == m
int_eq (negsuc n) m = false

parse_coinbase_streaming : Target → Bool
unfolding parse_with parse_input parse_output parse_out_point parse_script read_bytes read_u8
    read_u16_le read_u32_le read_i32_le read_u64_le read_varint read_var_bytes read_array
    detect_segwit varint_from_first for_range is_coinbase out_point_is_coinbase
parse_coinbase_streaming t =
    let (r, (parser, seen)) =
      parse_with t see_input see_output
        (new_parser coinbase_tx_raw, record { inputs = 0; outputs = 0; saw_coinbase = false }) in
    unwrapped r λ (version, locktime, in_count, out_count).
      int_eq version 1
      && locktime == 0
      && in_count == 1
      && out_count == 1
      && seen.inputs == 1
      && seen.outputs == 1
      && seen.saw_coinbase

outpoint_coinbase_detection : Target → Bool
unfolding parse_out_point read_bytes read_array read_u32_le out_point_is_coinbase
outpoint_coinbase_detection t =
    let raw : List ℕ = take 32 (replicate 36 0) ++ to_le_bytes 4 0xffff_ffff in
    unwrapped (parse_out_point t (new raw)).0 out_point_is_coinbase

transaction_tests_pass :
    (t : Target) → (parse_coinbase_streaming t && outpoint_coinbase_detection t) ≡ true
unfolding parse_coinbase_streaming outpoint_coinbase_detection
transaction_tests_pass bits32 = refl
transaction_tests_pass bits64 = refl

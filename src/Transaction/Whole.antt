-- ===== src/Transaction/Whole.antt =====
-- The wire format of a transaction.
use blockchain_zc_parser.Base.{ℕ, ◌≡◌, ◌≢◌, List, [], ◌∷◌, ◌++◌, length, Bool, true, false}
use blockchain_zc_parser.Base.Int.{ℤ}
use blockchain_zc_parser.Error.{ok}
use blockchain_zc_parser.Bytes.{from_le_bytes, signed}
use blockchain_zc_parser.Cursor.Checks.{Many}
use blockchain_zc_parser.Cursor.Words.{Word}
use blockchain_zc_parser.Cursor.VarInt.{UpTo}
use blockchain_zc_parser.Transaction.{TxInput, TxOutput, Callback, max_io_count}
use blockchain_zc_parser.Transaction.Wire.{InputFormat, OutputFormat}
use blockchain_zc_parser.Transaction.Stream.{StreamFormat}
use blockchain_zc_parser.Transaction.Loops.{for_each}
use blockchain_zc_parser.Transaction.Tail.{Summary, WitnessesFormat}

-- The marker and the flag of the SegWit format.
abbrev pub marker : Bool → List ℕ
marker true = 0x00 ∷ 0x01 ∷ []
marker false = []

-- A transaction, as the parser tells it apart.
pub record Tx : Type 0 where
  pub version : ℤ
  pub is_segwit : Bool
  pub inputs : List TxInput
  pub outputs : List TxOutput
  pub witnesses : List (List (List ℕ))
  pub locktime : ℕ

-- The bytes of a transaction, part by part. Counts and lengths may be in any of their encodings.
pub record TxFormat (x : Tx) (bs : List ℕ) : Type 0 where
  pub version_bytes : List ℕ
  pub count_bytes : List ℕ
  pub input_bytes : List ℕ
  pub output_count_bytes : List ℕ
  pub output_bytes : List ℕ
  pub witness_bytes : List ℕ
  pub locktime_bytes : List ℕ
  pub version : Word 4 (λ ws. signed 32 (from_le_bytes ws)) x.version version_bytes
  pub some_input : length x.inputs ≢ 0
  pub input_count : UpTo max_io_count (length x.inputs) count_bytes
  pub inputs : Many InputFormat x.inputs input_bytes
  pub output_count : UpTo max_io_count (length x.outputs) output_count_bytes
  pub outputs : Many OutputFormat x.outputs output_bytes
  pub witnesses : WitnessesFormat x.is_segwit (length x.inputs) x.witnesses witness_bytes
  pub locktime : Word 4 from_le_bytes x.locktime locktime_bytes
  pub whole :
      bs
      ≡ version_bytes
        ++ (marker x.is_segwit
            ++ (count_bytes
                ++ (input_bytes
                    ++ (output_count_bytes
                        ++ (output_bytes ++ (witness_bytes ++ locktime_bytes))))))

-- The result and the closures' final state, from the transaction that was read.
abbrev pub Parsed : {S : Type 0} → Callback S TxInput → Callback S TxOutput → StreamFormat S Summary
Parsed {S} on_input on_output r s bs s' =
    (x : Tx) × (m : S) × TxFormat x bs
    × (for_each on_input x.inputs s ≡ (ok tt, m))
    × (for_each on_output x.outputs m ≡ (ok tt, s'))
    × (r ≡ (x.version, x.locktime, length x.inputs, length x.outputs))

-- ===== src/Transaction/Debug.antt =====
-- The struct `Transaction`, for callers that gather the parts of one, and its text, `Debug`.
use blockchain_zc_parser.Base.{ℕ, List, ◌++◌, Bool, true, false, length}
use blockchain_zc_parser.Base.Int.{ℤ}
use blockchain_zc_parser.Text.{codes, decimal}
use blockchain_zc_parser.Error.Display.{signed_decimal}
use blockchain_zc_parser.Transaction.{TxInput, TxOutput, Witness}

pub record Transaction : Type 0 where
  pub version : ℤ
  pub is_segwit : Bool
  pub inputs : List TxInput
  pub outputs : List TxOutput
  pub witnesses : List Witness
  pub locktime : ℕ
  pub raw : List ℕ

abbrev bool_text : Bool → List ℕ
bool_text true = codes "true"
bool_text false = codes "false"

-- `{:?}`, on one line
unfoldable pub transaction_debug : Transaction → List ℕ
transaction_debug x =
    codes "Transaction { version: "
    ++ signed_decimal x.version (
        codes ", is_segwit: "
        ++ (bool_text x.is_segwit
            ++ (codes ", input_count: "
                ++ decimal (length x.inputs) (
                    codes ", output_count: "
                    ++ decimal (length x.outputs) (
                        codes ", locktime: "
                        ++ decimal x.locktime
                            (codes ", raw_len: " ++ decimal (length x.raw) (codes " }")))))))

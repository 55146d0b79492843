-- ===== src/Example/Lines.antt =====
-- What the program prints, line by line, and the variables of `main` that its closures capture. A line
-- is its values; the text around them is that of Example/Texts.
use Prim.Native.String.{String}
use blockchain_zc_parser.Base.{
  ℕ, ◌+◌, ◌-◌, ◌^◌, List, [], ◌∷◌, ◌++◌, Bool, false, leb, if◌then◌else◌, Option,
}
use blockchain_zc_parser.Base.Int.{ℤ}

-- A line of the two outputs, in the order of printing.
pub data Line : Type 0 where
  usage : Option String → Line
  -- version, timestamp, nonce, transaction count
  block_summary : ℤ → ℕ → ℕ → ℕ → Line
  -- index, coinbase
  transaction : ℕ → Bool → Line
  -- value, kind, script length
  output : ℕ → String → ℕ → Line
  -- value, required, total, script length
  multisig_output : ℕ → ℕ → ℕ → ℕ → Line
  -- requested index, transactions
  no_such_transaction : ℕ → ℕ → Line
  -- declared, parsed, block size
  parse_stats : ℕ → ℕ → ℕ → Line
  -- index, total, bytes consumed, bytes remaining
  before_strict_check : ℕ → ℕ → ℕ → ℕ → Line
  -- bytes consumed, bytes remaining
  after_strict_check : ℕ → ℕ → Line
  -- coinbases, transactions
  counts : ℕ → ℕ → Line
  total_output_value : ℕ → Line

-- The variables of `main` that the closures capture, and what is printed so far.
pub record Report : Type 0 where
  pub tx_idx : ℕ
  pub coinbase_txs : ℕ
  pub saw_first_input_in_tx : Bool
  pub total_value : ℕ
  pub lines : List Line

abbrev pub start : Report
start = record {
  tx_idx = 0;
  coinbase_txs = 0;
  saw_first_input_in_tx = false;
  total_value = 0;
  lines = [];
}

abbrev pub print : Line → Report → Report
print l r = record r { lines = r.lines ++ (l ∷ []) }

abbrev pub print_if : Bool → Line → Report → Report
print_if b l r = if b then print l r else r

-- `u64::saturating_add`
abbrev pub saturating_add : ℕ → ℕ → ℕ
saturating_add a b = if leb (a + b) (2 ^ 64 - 1) then a + b else 2 ^ 64 - 1

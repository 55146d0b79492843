-- ===== src/Tests.antt =====
-- The inputs of the runs in the child modules: those of the unit tests of the source, and others.
mod Cursor
mod Script
mod Transaction
mod Block
mod Example
mod Program
mod RoundTrip
mod Listing
mod Calls
mod Text
use blockchain_zc_parser.Base.{
  ℕ, ◌+◌, ◌<◌, ◌≤◌, ◌≡◌, refl, List, [], ◌∷◌, ◌++◌, length, Bool, true, false, ◌&&◌, ltb, ltb→lt,
  All, arith, replicate,
}
use blockchain_zc_parser.Error.{ok}
use blockchain_zc_parser.Target.{Target, bits64, usize_max}
use blockchain_zc_parser.Bytes.{all_bytes, all_bytes-IsByte}
use blockchain_zc_parser.Cursor.{new}
use blockchain_zc_parser.Cursor.Format.{IsValid}
use blockchain_zc_parser.Transaction.{Callback}
use blockchain_zc_parser.UnitTests.Transactions.{coinbase_tx_raw}
use blockchain_zc_parser.UnitTests.Blocks.{genesis_header_raw}
use blockchain_zc_parser.Transaction.Loops.{IsTotal}

pub new-valid :
    (bs : List ℕ) → all_bytes bs ≡ true → length bs ≤ usize_max bits64 → IsValid bits64 (new bs)
new-valid bs h l = record { fits = omega arith; small = l; octets = all_bytes-IsByte bs h }

abbrev pub coinbase_tx : List ℕ
coinbase_tx = coinbase_tx_raw

-- Closures that count what they are called with.
abbrev pub counting : {A : Type 0} → Callback ℕ A
counting a n = (ok tt, n + 1)

pub counting-IsTotal : {A : Type 0} → IsTotal (counting {A = A})
counting-IsTotal a n h = cc

abbrev pub genesis_header : List ℕ
genesis_header = genesis_header_raw

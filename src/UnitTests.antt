-- ===== src/UnitTests.antt =====
-- The tests of the source, as functions that say whether all their assertions hold, and their runs on
-- both targets. An assertion that compares addresses is left out.
pub mod Reads
pub mod Scripts
pub mod Transactions
pub mod Blocks
pub mod Integration
pub mod Messages
use blockchain_zc_parser.Base.{ℕ, List, [], ◌∷◌, Bool, true, false, ◌&&◌, ◌==◌}
use blockchain_zc_parser.Error.{ParseError, ParseResult, ok, err, fault}
use blockchain_zc_parser.Bytes.{to_le_bytes}

-- `.unwrap()`, and the assertions behind it
abbrev pub unwrapped : {A : Type 0} → ParseResult A → (A → Bool) → Bool
unwrapped (ok a) f = f a
unwrapped (err e) f = false
unwrapped fault f = false

-- `.unwrap_err()`, and the assertions behind it
abbrev pub unwrapped_err : {A : Type 0} → ParseResult A → (ParseError → Bool) → Bool
unwrapped_err (ok a) f = false
unwrapped_err (err e) f = f e
unwrapped_err fault f = false

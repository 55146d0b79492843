-- ===== src/Error.antt =====
-- src/error.rs: `ParseError` and `ParseResult`. The constructors keep the order of the enum; the
-- fields of a variant are the arguments, in the order of the source.
pub mod Display
pub mod Text
pub mod Truthful
use Prim.Native.String.{String}
use blockchain_zc_parser.Base.{ℕ, ◌<◌, ◌≡◌, List}
use blockchain_zc_parser.Base.Int.{ℤ}

pub data ParseError : Type 0 where
  -- needed, available
  unexpected_eof : ℕ → ℕ → ParseError
  invalid_var_int : ParseError
  -- value
  integer_too_large : ℕ → ParseError
  -- size, max
  oversized_data : ℕ → ℕ → ParseError
  unsupported_version : ℤ → ParseError
  -- expected, got
  magic_mismatch : List ℕ → List ℕ → ParseError
  invalid_segwit_flag : ℕ → ParseError
  invalid_input_count : ParseError
  -- remaining
  trailing_bytes : ℕ → ParseError
  -- expected, parsed
  incomplete_transactions : ℕ → ℕ → ParseError
  invalid_coinbase : ParseError
  -- count
  invalid_coinbase_count : ℕ → ParseError
  -- message
  io : String → ParseError

-- `Result<T, ParseError>`. `fault` is no value of the program: it stands for a panic (a slice index
-- out of range, an `unwrap` of an error) and for an out-of-bounds access of an unchecked one.
pub data ParseResult {ℓ} (A : Type ℓ) : Type ℓ where
  ok : A → ParseResult A
  err : ParseError → ParseResult A
  fault : ParseResult A

-- The result is `UnexpectedEof`, and fewer bytes were there than were needed.
abbrev pub IsEof {ℓ} : {A : Type ℓ} → ParseResult A → Type ℓ
IsEof r =
    (needed : ℕ) × (available : ℕ) × (r ≡ err (unexpected_eof needed available))
    × (available < needed)

-- `?` on a result that no state goes with.
abbrev pub and_then {ℓ κ} :
    {A : Type ℓ} {B : Type κ} → ParseResult A → (A → ParseResult B) → ParseResult B
and_then (ok a) f = f a
and_then (err e) f = err e
and_then fault f = fault

-- `From<std::io::Error>`, of the error's text
abbrev pub from_io : String → ParseError
from_io message = io message

-- ===== src/Target.antt =====
-- The width of `usize`. The crate's constants (8_000_000 and more) need 32 bits, so it is built for
-- targets of 32 and of 64 bits.
use blockchain_zc_parser.Base.{ℕ, ◌+◌, ◌-◌, ◌^◌, ◌≤◌, arith, leb, Option, none, some, if◌then◌else◌}
use blockchain_zc_parser.Error.{ParseResult, ok, err, integer_too_large}

pub data Target : Type 0 where
  bits32 bits64 : Target

-- `usize::MAX`
abbrev pub usize_max : Target → ℕ
usize_max bits32 = 2 ^ 32 - 1
usize_max bits64 = 2 ^ 64 - 1

-- `usize::checked_add`
abbrev pub checked_add : Target → ℕ → ℕ → Option ℕ
checked_add t a b = if leb (a + b) (usize_max t) then some (a + b) else none

-- `value.try_into().map_err(|_| ParseError::IntegerTooLarge { value })`, from `u64` to `usize`
abbrev pub to_usize : Target → ℕ → ParseResult ℕ
to_usize t v = if leb v (usize_max t) then ok v else err (integer_too_large v)

pub usize_max-ge : (t : Target) → 2 ^ 32 - 1 ≤ usize_max t
usize_max-ge bits32 = omega arith
usize_max-ge bits64 = omega arith

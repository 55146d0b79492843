-- ===== src/Error/Truthful.antt =====
-- The errors whose numbers are those of a refusal: what they say of the input is so.
use blockchain_zc_parser.Base.{ℕ, List, ◌<◌, ◌≢◌}
use blockchain_zc_parser.Error.{
  ParseError, unexpected_eof, integer_too_large, oversized_data, invalid_segwit_flag,
  invalid_input_count, magic_mismatch,
}
use blockchain_zc_parser.Target.{Target, usize_max}

-- There is no rule for the other variants.
pub data Truthful (t : Target) : ParseError → Type 0 where
  eof : {needed available : ℕ} → available < needed → Truthful t (unexpected_eof needed available)
  too_large : {value : ℕ} → usize_max t < value → Truthful t (integer_too_large value)
  oversized : {size max : ℕ} → max < size → Truthful t (oversized_data size max)
  segwit_flag : {flag : ℕ} → flag ≢ 1 → Truthful t (invalid_segwit_flag flag)
  no_inputs : Truthful t invalid_input_count
  other_magic : {expected got : List ℕ} → expected ≢ got → Truthful t (magic_mismatch expected got)

-- ===== src/Error/Display.antt =====
-- The texts of the errors, `Display`.
use blockchain_zc_parser.Base.{ℕ, ◌+◌, ◌/◌, ◌%◌, List, [], ◌∷◌, ◌++◌, leb, if◌then◌else◌}
use blockchain_zc_parser.Base.Int.{ℤ, pos, negsuc}
use blockchain_zc_parser.Text.{codes, hex_digit, write_hex, decimal}
use blockchain_zc_parser.Error.{
  ParseError, unexpected_eof, invalid_var_int, integer_too_large, oversized_data,
  unsupported_version, magic_mismatch, invalid_segwit_flag, invalid_input_count, trailing_bytes,
  incomplete_transactions, invalid_coinbase, invalid_coinbase_count, io,
}

-- `{v}` of an `i32`
abbrev pub signed_decimal : ℤ → List ℕ → List ℕ
signed_decimal (pos n) out = decimal n out
signed_decimal (negsuc n) out = 0x2d ∷ decimal (n + 1) out

-- `{b:#x}` of a byte
abbrev pub prefixed_hex : ℕ → List ℕ
prefixed_hex b =
    0x30
    ∷ 0x78
    ∷ (if leb b 15 then hex_digit b ∷ [] else hex_digit (b / 16) ∷ hex_digit (b % 16) ∷ [])

-- `{bytes:02x?}` in front of `out`
abbrev pub separated : List ℕ → List ℕ → List ℕ
separated [] out = out
separated (b ∷ bs) out = 0x2c ∷ 0x20 ∷ (write_hex (b ∷ []) ++ separated bs out)

abbrev pub debug_array : List ℕ → List ℕ → List ℕ
debug_array [] out = codes "[]" ++ out
debug_array (b ∷ bs) out = 0x5b ∷ (write_hex (b ∷ []) ++ separated bs (0x5d ∷ out))

unfoldable pub display : ParseError → List ℕ
display (unexpected_eof needed available) =
    codes "unexpected end of input: needed "
    ++ decimal needed (codes " bytes but only " ++ decimal available (codes " available"))
display invalid_var_int = codes "invalid variable-length integer encoding"
display (integer_too_large value) =
    codes "integer too large to fit into usize: " ++ decimal value []
display (oversized_data size max) =
    codes "data size " ++ decimal size (codes " exceeds maximum allowed " ++ decimal max [])
display (unsupported_version v) = codes "unsupported version: " ++ signed_decimal v []
display (magic_mismatch expected got) =
    codes "magic mismatch: expected " ++ debug_array expected (codes " got " ++ debug_array got [])
display (invalid_segwit_flag b) = codes "invalid segwit flag byte: " ++ prefixed_hex b
display invalid_input_count = codes "invalid transaction input count"
display (trailing_bytes remaining) = codes "trailing bytes after parse: " ++ decimal remaining []
display (incomplete_transactions expected parsed) =
    codes "incomplete transaction parsing: expected "
    ++ decimal expected (codes ", parsed " ++ decimal parsed [])
display invalid_coinbase = codes "coinbase txid reference must be all-zero bytes"
display (invalid_coinbase_count count) =
    codes "invalid coinbase tx count in block: " ++ decimal count []
display (io message) = codes "io error: " ++ codes message

-- ===== src/UnitTests/Reads.antt =====
-- The tests of src/cursor.rs.
use blockchain_zc_parser.Base.{ℕ, ◌-◌, ◌^◌, ◌≡◌, refl, List, [], ◌∷◌, Bool, true, false, ◌&&◌, ◌==◌}
use blockchain_zc_parser.Error.{ParseError, unexpected_eof}
use blockchain_zc_parser.Target.{Target, bits32, bits64}
use blockchain_zc_parser.Bytes.{to_le_bytes}
use blockchain_zc_parser.Cursor.{new, read_u8, read_bytes, read_u16_le, read_u64_le, read_varint}
use blockchain_zc_parser.UnitTests.{unwrapped, unwrapped_err}

varint_single_byte : Target → Bool
unfolding read_varint read_u8
varint_single_byte t =
    let bytes : List ℕ = 0xfc ∷ [] in unwrapped (read_varint t (new bytes)).0 λ v. v == 0xfc

varint_two_bytes : Target → Bool
unfolding read_varint read_u8 read_u16_le read_bytes
varint_two_bytes t =
    let bytes : List ℕ = 0xfd ∷ 0x01 ∷ 0x00 ∷ [] in
    unwrapped (read_varint t (new bytes)).0 λ v. v == 1

varint_nine_bytes : Target → Bool
unfolding read_varint read_u8 read_u64_le read_bytes
varint_nine_bytes t =
    let bytes : List ℕ = 0xff ∷ to_le_bytes 8 (2 ^ 64 - 1) in
    unwrapped (read_varint t (new bytes)).0 λ v. v == 2 ^ 64 - 1

abbrev three_of_two : ParseError → Bool
three_of_two (unexpected_eof needed available) = needed == 3 && available == 2
three_of_two _ = false

eof_error : Target → Bool
unfolding read_bytes
eof_error t =
    let bytes : List ℕ = 1 ∷ 2 ∷ [] in unwrapped_err (read_bytes t 3 (new bytes)).0 three_of_two

cursor_tests_pass :
    (t : Target)
    → (varint_single_byte t && varint_two_bytes t && varint_nine_bytes t && eof_error t) ≡ true
unfolding varint_single_byte varint_two_bytes varint_nine_bytes eof_error
cursor_tests_pass bits32 = refl
cursor_tests_pass bits64 = refl

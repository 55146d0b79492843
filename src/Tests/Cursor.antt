-- ===== src/Tests/Cursor.antt =====
-- Runs of the cursor.
use blockchain_zc_parser.Base.{ℕ, refl, List, [], ◌∷◌, arith}
use blockchain_zc_parser.Target.{bits64}
use blockchain_zc_parser.Cursor.{new, read_u8, read_bytes, read_u16_le, read_varint}
use blockchain_zc_parser.Cursor.Format.{advance}
use blockchain_zc_parser.Cursor.VarInt.{VarInt}
use blockchain_zc_parser.Cursor.Accepted.{Begins, read_varint_iff}
use blockchain_zc_parser.Tests.{new-valid}

-- 0x0101 in three bytes, as in `varint_two_bytes`.
abbrev three_bytes : List ℕ
three_bytes = 0xfd ∷ 0x01 ∷ 0x01 ∷ []

read_varint_example : Begins VarInt (new three_bytes) 0x0101 (advance (new three_bytes) 3)
unfolding read_varint read_u8 read_u16_le read_bytes
read_varint_example =
    (read_varint_iff bits64 (new three_bytes) 0x0101 (advance (new three_bytes) 3)
        (new-valid three_bytes refl (omega arith))).0
      refl

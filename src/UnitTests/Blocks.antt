-- ===== src/UnitTests/Blocks.antt =====
-- The tests of src/block.rs.
use blockchain_zc_parser.Base.{ℕ, ◌≡◌, refl, List, [], ◌∷◌, ◌++◌, Bool, true, ◌&&◌, ◌==◌, replicate}
use blockchain_zc_parser.Target.{Target, bits32, bits64}
use blockchain_zc_parser.Hash.{as_bytes}
use blockchain_zc_parser.Cursor.{new, read_bytes, read_u32_le, read_i32_le, read_array}
use blockchain_zc_parser.Transaction.{all_zero}
use blockchain_zc_parser.Block.{parse_header, header_fields}
use blockchain_zc_parser.UnitTests.{unwrapped}
use blockchain_zc_parser.UnitTests.Transactions.{int_eq}

-- The version, 32 zero bytes, the Merkle root, the time, the bits and the nonce.
abbrev pub genesis_header_raw : List ℕ
genesis_header_raw =
    (1 ∷ 0 ∷ 0 ∷ 0 ∷ [])
    ++ (replicate 32 0
        ++ ((0x3b ∷ 0xa3 ∷ 0xed ∷ 0xfd ∷ 0x7a ∷ 0x7b ∷ 0x12 ∷ 0xb2 ∷ 0x7a ∷ 0xc7 ∷ 0x2c ∷ 0x3e
              ∷ 0x67 ∷ 0x76 ∷ 0x8f ∷ 0x61 ∷ 0x7f ∷ 0xc8 ∷ 0x1b ∷ 0xc3 ∷ 0x88 ∷ 0x8a ∷ 0x51 ∷ 0x32
              ∷ 0x3a ∷ 0x9f ∷ 0xb8 ∷ 0xaa ∷ 0x4b ∷ 0x1e ∷ 0x5e ∷ 0x4a ∷ [])
            ++ (0x29 ∷ 0xab ∷ 0x5f ∷ 0x49 ∷ 0xff ∷ 0xff ∷ 0x00 ∷ 0x1d ∷ 0x1d ∷ 0xac ∷ 0x2b ∷ 0x7c
                ∷ [])))

parse_genesis_header : Target → Bool
unfolding parse_header header_fields read_array read_bytes read_i32_le read_u32_le
parse_genesis_header t = unwrapped (parse_header t (new genesis_header_raw)).0 λ header.
    int_eq header.version 1 && header.nonce == 0x7c2bac1d && all_zero (as_bytes header.prev_block)

parse_genesis_header_passes : (t : Target) → parse_genesis_header t ≡ true
unfolding parse_genesis_header
parse_genesis_header_passes bits32 = refl
parse_genesis_header_passes bits64 = refl

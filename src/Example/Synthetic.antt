-- ===== src/Example/Synthetic.antt =====
-- `encode_varint`, and the block that the program prints without an argument.
use blockchain_zc_parser.Base.{ℕ, ◌%◌, ◌^◌, List, [], ◌∷◌, ◌++◌, leb, if◌then◌else◌, replicate}
use blockchain_zc_parser.Bytes.{to_le_bytes}

-- `v as u16` keeps the low 16 bits.
unfoldable pub encode_varint : ℕ → List ℕ
encode_varint v =
    if leb v 0xfc
    then (v % 2 ^ 8) ∷ []
    else if leb v 0xffff
    then 0xfd ∷ to_le_bytes 2 (v % 2 ^ 16)
    else if leb v 0xffff_ffff
    then 0xfe ∷ to_le_bytes 4 (v % 2 ^ 32)
    else 0xff ∷ to_le_bytes 8 v

abbrev pub coinbase_tx : List ℕ
coinbase_tx =
    to_le_bytes 4 1
    ++ (1
        ∷ (replicate 32 0
            ++ (to_le_bytes 4 0xffff_ffff
                ++ (4
                    ∷ 0x03
                    ∷ 0x4b
                    ∷ 0x6e
                    ∷ 0x0b
                    ∷ (to_le_bytes 4 0xffff_ffff
                        ++ (1
                            ∷ (to_le_bytes 8 625_000_000
                                ++ (22
                                    ∷ 0x00
                                    ∷ 0x14
                                    ∷ 0x89
                                    ∷ 0xab
                                    ∷ 0xcd
                                    ∷ 0xef
                                    ∷ 0xab
                                    ∷ 0xba
                                    ∷ 0xab
                                    ∷ 0xba
                                    ∷ 0xab
                                    ∷ 0xba
                                    ∷ 0xab
                                    ∷ 0xba
                                    ∷ 0xab
                                    ∷ 0xba
                                    ∷ 0xab
                                    ∷ 0xba
                                    ∷ 0xab
                                    ∷ 0xba
                                    ∷ 0xab
                                    ∷ 0xba
                                    ∷ to_le_bytes 4 0))))))))

abbrev header : List ℕ
header =
    0x01
    ∷ 0x00
    ∷ 0x00
    ∷ 0x00
    ∷ (replicate 32 0
        ++ (0x3b ∷ 0xa3 ∷ 0xed ∷ 0xfd ∷ 0x7a ∷ 0x7b ∷ 0x12 ∷ 0xb2 ∷ 0x7a ∷ 0xc7 ∷ 0x2c ∷ 0x3e ∷ 0x67
            ∷ 0x76 ∷ 0x8f ∷ 0x61 ∷ 0x7f ∷ 0xc8 ∷ 0x1b ∷ 0xc3 ∷ 0x88 ∷ 0x8a ∷ 0x51 ∷ 0x32 ∷ 0x3a
            ∷ 0x9f ∷ 0xb8 ∷ 0xaa ∷ 0x4b ∷ 0x1e ∷ 0x5e ∷ 0x4a ∷ 0x29 ∷ 0xab ∷ 0x5f ∷ 0x49 ∷ 0xff
            ∷ 0xff ∷ 0x00 ∷ 0x1d ∷ 0x1d ∷ 0xac ∷ 0x2b ∷ 0x7c ∷ []))

unfoldable pub build_synthetic_block : List ℕ
unfolding encode_varint
build_synthetic_block = header ++ (encode_varint 1 ++ coinbase_tx)

-- ===== src/Tests/Text.antt =====
-- Runs of the texts of hashes and errors.
use blockchain_zc_parser.Base.{◌≡◌, refl, [], ◌∷◌, ◌++◌, length, some, replicate}
use blockchain_zc_parser.Tests.{all_bytes-IsByte}
use blockchain_zc_parser.Block.{mainnet_magic, testnet_magic}
use blockchain_zc_parser.Error.{magic_mismatch, unexpected_eof, unsupported_version}
use blockchain_zc_parser.Error.Display.{display}
use blockchain_zc_parser.Error.Text.{read_error, read_error-display}
use blockchain_zc_parser.Base.{List}
use blockchain_zc_parser.Base.Int.{pos, negsuc}
use blockchain_zc_parser.Example.Lines
use blockchain_zc_parser.Example.Lines.{
  Line, block_summary, transaction, no_such_transaction, parse_stats, total_output_value,
}
use blockchain_zc_parser.Example.Texts.{line_text, is_stderr, written, stdout, stderr}
use blockchain_zc_parser.Base.{true}
use blockchain_zc_parser.Transaction.Debug.{transaction_debug}
use blockchain_zc_parser.Hash.{Hash32}
use blockchain_zc_parser.Text.{codes, read_hex, digits}
use blockchain_zc_parser.Hash.Text.{
  hash32_display, hash32_debug, hash20_debug, reversed, reversed-hash32_display,
}

abbrev hash : Hash32
hash = record { array = 0x3b ∷ 0xa3 ∷ 0xed ∷ (replicate 28 0 ++ (0xff ∷ [])) }

reversed-hash32_display_example :
    (reversed (read_hex (hash32_display hash)) ≡ some hash.array)
    × (length (hash32_display hash) ≡ 64)
reversed-hash32_display_example = reversed-hash32_display hash (all_bytes-IsByte hash.array refl)

-- The texts themselves, of short arrays.
display_run : hash32_display (record { array = 1 ∷ 0xab ∷ [] }) ≡ codes "ab01"
unfolding hash32_display
display_run = refl

debug_run : hash32_debug (record { array = 1 ∷ 0xab ∷ [] }) ≡ codes "Hash32(ab01)"
unfolding hash32_debug
debug_run = refl

debug20_run : hash20_debug (record { array = 1 ∷ 0xab ∷ [] }) ≡ codes "Hash20(01ab)"
unfolding hash20_debug
debug20_run = refl

read_error-display_example :
    read_error (display (magic_mismatch mainnet_magic testnet_magic))
    ≡ some (magic_mismatch mainnet_magic testnet_magic)
read_error-display_example =
    read_error-display (magic_mismatch mainnet_magic testnet_magic)
      (refl, all_bytes-IsByte mainnet_magic refl, refl, all_bytes-IsByte testnet_magic refl)

eof_run :
    display (unexpected_eof 80 1)
    ≡ codes "unexpected end of input: needed 80 bytes but only 1 available"
unfolding display digits
eof_run = refl

magic_run :
    display (magic_mismatch mainnet_magic testnet_magic)
    ≡ codes "magic mismatch: expected [f9, be, b4, d9] got [0b, 11, 09, 07]"
unfolding display
magic_run = refl

version_run : display (unsupported_version (negsuc 0)) ≡ codes "unsupported version: -1"
unfolding display digits
version_run = refl

transaction_run :
    transaction_debug (record {
      version = negsuc 1;
      is_segwit = true;
      inputs = [];
      outputs = record { value = 7; script_pubkey = record { bytes = [] } } ∷ [];
      witnesses = [];
      locktime = 800_000;
      raw = replicate 12 0;
    })
    ≡ codes
        "Transaction { version: -2, is_segwit: true, input_count: 0, output_count: 1, locktime: 800000, raw_len: 12 }"
unfolding transaction_debug digits
transaction_run = refl

-- The lines of the block that is built in.
abbrev built_in_lines : List Line
built_in_lines =
    block_summary (pos 1) 1_231_006_505 2_083_236_893 1
    ∷ transaction 0 true
    ∷ Lines.output 625_000_000 "P2WPKH" 22
    ∷ no_such_transaction 3 1
    ∷ parse_stats 1 1 167
    ∷ total_output_value 625_000_000
    ∷ []

stdout_run :
    stdout (λ n. codes "6.25000000") built_in_lines
    ≡ codes
        "=== Block Summary ===\nVersion   : 1\nTimestamp : 1231006505\nNonce     : 0x7c2bac1d\nTx count  : 1\n\n  [tx 0] coinbase\n    output 625000000 sat  script-type=P2WPKH  script-len=22\n\n--- Parse Stats ---\nDeclared tx count : 1\nParsed tx count   : 1\nBlock size (bytes): 167\n\nTotal output value : 625000000 sat (6.25000000 BTC)\n"
unfolding written line_text is_stderr digits
stdout_run = refl

stderr_run :
    stderr (λ n. []) built_in_lines ≡ codes "requested --tx 3, but block has only 1 transactions\n"
unfolding written line_text is_stderr digits
stderr_run = refl

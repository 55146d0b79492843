-- ===== src/Block/FileRoundTrip.antt =====
-- The blocks of a file that is written as the integration tests write theirs.
use blockchain_zc_parser.Base.{ℕ, suc, ◌^◌, ◌%◌, ◌≡◌, refl, List, length, All, arith}
use blockchain_zc_parser.Error.{ok}
use blockchain_zc_parser.Target.{Target}
use blockchain_zc_parser.Bytes.{IsByte, to_le_bytes}
use blockchain_zc_parser.Cursor.{new}
use blockchain_zc_parser.Cursor.Format.{IsValid}
use blockchain_zc_parser.Transaction.Serialise.{BytesUpTo, concat, concat-Many}
use blockchain_zc_parser.Example.Encode.{to_le_bytes-Word}
use blockchain_zc_parser.Block.{max_block_bytes}
use blockchain_zc_parser.Block.File.{new_file, EntryFormat}
use blockchain_zc_parser.Block.FileLoop.{read_blocks, read_blocks_iff}
use blockchain_zc_parser.UnitTests.Integration.{build_block_message}

-- The messages of the blocks, one behind another.
abbrev pub file_bytes : List ℕ → List (List ℕ) → List ℕ
file_bytes magic blocks = concat (λ block. build_block_message block magic) blocks

message-EntryFormat :
    (magic block : List ℕ)
    → length magic ≡ 4
    → All IsByte magic
    → BytesUpTo max_block_bytes block
    → EntryFormat magic block (build_block_message block magic)
message-EntryFormat magic block l o (small, octets) = (
  to_le_bytes 4 (length block % 2 ^ 32),
  l,
  o,
  to_le_bytes-Word 4 (length block) (length block % 2 ^ 32) (omega arith) (omega arith),
  small,
  octets,
  refl,
)

-- The blocks that `build_block_message` wrote one behind another, behind the same four bytes of magic,
-- are what the calls of `next_block` on the whole give back, in their order and without an error, if
-- none is above the size limit. The bytes make a valid cursor.
pub read_blocks-file_bytes :
    (t : Target) (magic : List ℕ) (blocks : List (List ℕ))
    → length magic ≡ 4
    → All IsByte magic
    → All (BytesUpTo max_block_bytes) blocks
    → IsValid t (new (file_bytes magic blocks))
    → read_blocks t
        (suc (length (file_bytes magic blocks)))
        (new_file (file_bytes magic blocks) magic)
      ≡ ok blocks
read_blocks-file_bytes t magic blocks l o fits v =
    (read_blocks_iff t (new_file (file_bytes magic blocks) magic) blocks v).1 (
      concat-Many (EntryFormat magic) (BytesUpTo max_block_bytes)
        (λ block. build_block_message block magic) blocks
        (λ block k. message-EntryFormat magic block l o k) fits)

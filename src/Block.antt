-- ===== src/Block.antt =====
-- src/block.rs: the block header, the iterator over a block's transactions, and the iterator over the
-- blocks of a `blkNNNNN.dat` file.
pub mod Invariant
pub mod Replay
pub mod StrictTriples
pub mod FileRoundTrip
pub mod RoundTrip
pub mod Drained
pub mod Triples
pub mod FileTriples
pub mod Reach
pub mod Accepted
pub mod Fields
pub mod Header
pub mod FileNext
pub mod FileLoop
pub mod File
pub mod StrictRounds
pub mod Consume
pub mod Rounds
pub mod Strict
pub mod Wrapped
pub mod Next
pub mod Skip
pub mod Offsets
use blockchain_zc_parser.Base.{
  ℕ, zero, suc, ◌+◌, ◌-◌, ◌/◌, ◌%◌, ◌^◌, List, [], ◌∷◌, Bool, true, false, Option, none, some, not,
  ◌&&◌, leb, ltb, ◌==◌, if◌then◌else◌,
}
use blockchain_zc_parser.Base.Int.{ℤ}
use blockchain_zc_parser.Error.{
  ParseResult, ok, err, fault, and_then, oversized_data, incomplete_transactions, trailing_bytes,
  invalid_coinbase_count, magic_mismatch,
}
use blockchain_zc_parser.Action.{Action, pure, fail, lift, after, ◌>>=◌, ◌>>◌, refuse_if}
use blockchain_zc_parser.Target.{Target, to_usize}
use blockchain_zc_parser.Hash.{Hash32, bytes_eq, double_sha256}
use blockchain_zc_parser.Cursor.{
  Cursor, new, position, remaining, is_empty, as_slice, read_bytes, read_u32_le, read_i32_le,
  read_varint, read_array, skip,
}
use blockchain_zc_parser.Transaction.{
  TxInput, TxOutput, Callback, Streaming, on_cursor, parse_with, new_parser, parser_bytes_consumed,
  out_point_is_coinbase,
}

abbrev pub mainnet_magic : List ℕ
mainnet_magic = 0xf9 ∷ 0xbe ∷ 0xb4 ∷ 0xd9 ∷ []

abbrev pub testnet_magic : List ℕ
testnet_magic = 0x0b ∷ 0x11 ∷ 0x09 ∷ 0x07 ∷ []

abbrev pub signet_magic : List ℕ
signet_magic = 0x0a ∷ 0x03 ∷ 0xcf ∷ 0x40 ∷ []

abbrev pub max_block_txn : ℕ
max_block_txn = 1_000_000

abbrev pub max_block_bytes : ℕ
max_block_bytes = 8_000_000

pub record BlockHeader : Type 0 where
  pub version : ℤ
  pub prev_block : Hash32
  pub merkle_root : Hash32
  pub timestamp : ℕ
  pub bits : ℕ
  pub nonce : ℕ
  pub raw : List ℕ

-- `sha256` stands for the digest of the crate `sha2`.
unfoldable pub block_hash : (List ℕ → List ℕ) → BlockHeader → List ℕ
block_hash sha256 h = double_sha256 sha256 h.raw

-- `bits & 0x00ff_ffff` and `bits >> 24`
unfoldable pub difficulty_target : BlockHeader → ℕ × ℕ
difficulty_target h = (h.bits % 2 ^ 24, h.bits / 2 ^ 24 % 256)

module _ (t : Target) where
  -- The reads from the cursor over the 80 bytes.
  unfoldable pub header_fields : List ℕ → Action Cursor BlockHeader
  header_fields raw = do
    version ← read_i32_le t
    prev_block ← read_array t 32
    merkle_root ← read_array t 32
    timestamp ← read_u32_le t
    bits ← read_u32_le t
    nonce ← read_u32_le t
    pure (record {
      version = version;
      prev_block = record { array = prev_block };
      merkle_root = record { array = merkle_root };
      timestamp = timestamp;
      bits = bits;
      nonce = nonce;
      raw = raw;
    })

  unfoldable pub parse_header : Action Cursor BlockHeader
  parse_header = do raw ← read_array t 80; lift (header_fields raw (new raw)).0

pub record BlockTxIter : Type 0 where
  pub cursor : Cursor
  pub total : ℕ
  pub consumed : ℕ

abbrev pub bytes_remaining : BlockTxIter → ℕ
bytes_remaining it = remaining it.cursor

abbrev pub bytes_consumed : BlockTxIter → ℕ
bytes_consumed it = position it.cursor

module _ (t : Target) where
  -- The header and the transaction count.
  unfoldable pub read_prefix : Action Cursor (BlockHeader × ℕ)
  read_prefix = do
    header ← parse_header t
    tx_count_u64 ← read_varint t
    tx_count ← lift (to_usize t tx_count_u64)
    refuse_if (ltb max_block_txn tx_count) (oversized_data tx_count max_block_txn)
    pure (header, tx_count)

  -- `BlockTxIter::new`
  unfoldable pub new_iter : List ℕ → ParseResult (BlockHeader × BlockTxIter)
  new_iter bs =
      let (r, c) = read_prefix (new bs) in
      and_then r
        λ (header, tx_count). ok (header, record { cursor = c; total = tx_count; consumed = 0 })

module _ (t : Target) {S : Type 0} (on_input : Callback S TxInput)
    (on_output : Callback S TxOutput) where
  -- A parser over the unread slice, and the skip of what it consumed.
  unfoldable pub parse_next : Streaming S (Unit {0})
  parse_next (c, s) =
      after (as_slice c, (c, s))
        λ rest (c, s).
          let (r, (p, s')) = parse_with t on_input on_output (new_parser rest, s) in
          after (r, (c, s')) λ _. on_cursor (skip t (parser_bytes_consumed p))

  unfoldable pub next_tx : Action (BlockTxIter × S) Bool
  next_tx (it, s) =
      if leb it.total it.consumed
      then (ok false, (it, s))
      else (let (r, (c, s')) = parse_next (it.cursor, s) in
          after (r, (record it { cursor = c }, s'))
            λ _ (it, s). (ok true, (record it { consumed = it.consumed + 1 }, s)))

-- `while self.consumed < self.total { body }`; a `fault` says that the fuel ran out.
unfoldable pub while_unconsumed :
    {S : Type 0} → ℕ → Action (BlockTxIter × S) (Unit {0}) → Action (BlockTxIter × S) (Unit {0})
while_unconsumed zero body (it, s) =
    if ltb it.consumed it.total then (fault, (it, s)) else (ok tt, (it, s))
while_unconsumed (suc fuel) body (it, s) =
    let rest = (body >> while_unconsumed fuel body) (it, s) in
    if ltb it.consumed it.total then rest else (ok tt, (it, s))

-- Each round consumes a transaction.
abbrev pub rounds : BlockTxIter → ℕ
rounds it = it.total - it.consumed

abbrev pub accept : {A : Type 0} → Callback (Unit {0}) A
accept a = pure tt

unfoldable pub skip_remaining : Target → BlockTxIter → ParseResult (Unit {0}) × BlockTxIter
skip_remaining t it =
    let (r, (it', _)) =
      while_unconsumed (rounds it) (do _ ← next_tx t accept accept; pure tt) (it, tt) in
    (r, it')

unfoldable pub finish_strict : BlockTxIter → ParseResult (Unit {0})
finish_strict it =
    if not (it.consumed == it.total)
    then err (incomplete_transactions it.total it.consumed)
    else if not (bytes_remaining it == 0)
    then err (trailing_bytes (bytes_remaining it))
    else ok tt

-- ===== src/Transaction.antt =====
-- src/transaction.rs: the pieces of a transaction, their parsers, and the streaming parser.
pub mod Size
pub mod Accepted
pub mod Wire
pub mod Invariant
pub mod Replay
pub mod Events
pub mod Debug
pub mod RoundTrip
pub mod Fits
pub mod Serialise
pub mod Triples
pub mod Coinbase
pub mod Items
pub mod Stream
pub mod Whole
pub mod Head
pub mod Steps
pub mod Parse
pub mod ReadLoop
pub mod Tail
pub mod Loops
pub mod StreamRules
pub mod Skip
pub mod Witnesses
use blockchain_zc_parser.Base.{
  ℕ, zero, suc, ◌+◌, ◌-◌, ◌≤◌, List, [], ◌∷◌, Bool, true, false, ◌&&◌, Option, none, some, length,
  leb, ltb, ◌==◌, if◌then◌else◌, not,
}
use blockchain_zc_parser.Base.Int.{ℤ}
use blockchain_zc_parser.Error.{
  ParseResult, ok, err, fault, oversized_data, invalid_segwit_flag, invalid_input_count, and_then,
}
use blockchain_zc_parser.Action.{Action, pure, fail, lift, after, ◌>>=◌, ◌>>◌, refuse_if, for_range}
use blockchain_zc_parser.Target.{Target, to_usize}
use blockchain_zc_parser.Bytes.{slice}
use blockchain_zc_parser.Hash.{Hash32, as_bytes}
use blockchain_zc_parser.Script.{Script, parse_script}
use blockchain_zc_parser.Cursor.{
  Cursor, new, position, as_slice, read_u8, read_u16_le, read_u32_le, read_i32_le, read_u64_le,
  read_varint, read_var_bytes, read_array, skip,
}

abbrev pub max_io_count : ℕ
max_io_count = 100_000

abbrev pub max_witness_items : ℕ
max_witness_items = 500

abbrev pub max_witness_item_size : ℕ
max_witness_item_size = 520

pub record OutPoint : Type 0 where
  pub txid : Hash32
  pub vout : ℕ

pub record TxInput : Type 0 where
  pub previous_output : OutPoint
  pub script_sig : Script
  pub sequence : ℕ

pub record TxOutput : Type 0 where
  pub value : ℕ
  pub script_pubkey : Script

pub record Witness : Type 0 where
  pub raw : List ℕ
  pub item_count : ℕ

abbrev pub all_zero : List ℕ → Bool
all_zero [] = true
all_zero (b ∷ bs) = b == 0 && all_zero bs

unfoldable pub out_point_is_coinbase : OutPoint → Bool
out_point_is_coinbase o = all_zero (as_bytes o.txid) && o.vout == 0xffff_ffff

unfoldable pub is_coinbase : TxInput → Bool
is_coinbase i = out_point_is_coinbase i.previous_output

unfoldable pub is_rbf : TxInput → Bool
is_rbf i = leb i.sequence 0xffff_fffd

module _ (t : Target) where
  unfoldable pub parse_out_point : Action Cursor OutPoint
  parse_out_point = do
    txid ← read_array t 32
    vout ← read_u32_le t
    pure (record { txid = record { array = txid }; vout = vout })

  unfoldable pub parse_input : Action Cursor TxInput
  parse_input = do
    previous_output ← parse_out_point
    script_sig ← parse_script t
    sequence ← read_u32_le t
    pure
        (record { previous_output = previous_output; script_sig = script_sig; sequence = sequence })

  unfoldable pub parse_output : Action Cursor TxOutput
  parse_output = do
    value ← read_u64_le t
    script_pubkey ← parse_script t
    pure (record { value = value; script_pubkey = script_pubkey })

  -- The reads of `Witness::parse`; the result is the item count.
  unfoldable pub read_witness : Action Cursor ℕ
  read_witness = do
    item_count_u64 ← read_varint t
    item_count ← lift (to_usize t item_count_u64)
    refuse_if (ltb max_witness_items item_count) (oversized_data item_count max_witness_items)
    for_range item_count (do _ ← read_var_bytes t max_witness_item_size; pure tt)
    pure item_count

  -- `Witness::parse(data)`: the witness and the number of bytes consumed.
  unfoldable pub parse_witness : List ℕ → ParseResult (Witness × ℕ)
  parse_witness bs =
      let (count, c) = read_witness (new bs) in
      and_then count λ item_count.
        and_then (slice bs 0 (position c))
          λ raw. ok (record { raw = raw; item_count = item_count }, position c)

-- The user's closures share a state `S`, which stands beside the cursor.
abbrev pub Streaming : Type 0 → Type 0 → Type 0
Streaming S A = Action (Cursor × S) A

module _ {S A : Type 0} where
  abbrev pub on_cursor : Action Cursor A → Streaming S A
  on_cursor p (c, s) = let (r, c') = p c in (r, (c', s))

  abbrev pub on_user : Action S A → Streaming S A
  on_user p (c, s) = let (r, s') = p s in (r, (c, s'))

-- `TransactionParser`, which is its cursor.
abbrev pub TransactionParser : Type 0
TransactionParser = Cursor

abbrev pub new_parser : List ℕ → TransactionParser
new_parser bs = new bs

abbrev pub parser_bytes_consumed : TransactionParser → ℕ
parser_bytes_consumed parser = position parser

-- A closure that is called with each element.
abbrev pub Callback : Type 0 → Type 0 → Type 0
Callback S A = A → Action S (Unit {0})

module _ (t : Target) where
  unfoldable pub varint_from_first : ℕ → Action Cursor ℕ
  varint_from_first first =
      if leb first 0xfc
      then pure first
      else if first == 0xfd
      then read_u16_le t
      else if first == 0xfe
      then read_u32_le t
      else read_u64_le t

  -- From the first byte: whether the transaction is SegWit.
  unfoldable pub detect_segwit : ℕ → Action Cursor Bool
  detect_segwit first_byte =
      if first_byte == 0x00
      then (do flag ← read_u8; refuse_if (not (flag == 0x01)) (invalid_segwit_flag flag); pure true)
      else pure false

  -- `let (_, consumed) = Witness::parse(c.as_slice())?; c.skip(consumed)?;`
  unfoldable pub skip_witness : Action Cursor (Unit {0})
  skip_witness c =
      after (and_then (as_slice c) (parse_witness t), c) (λ (_, consumed). skip t consumed)

  unfoldable pub parse_with :
      {S : Type 0} → Callback S TxInput → Callback S TxOutput → Streaming S (ℤ × ℕ × ℕ × ℕ)
  parse_with on_input on_output = do
    version ← on_cursor (read_i32_le t)
    first_byte ← on_cursor read_u8
    is_segwit ← on_cursor (detect_segwit first_byte)
    input_count_u64 ← on_cursor (if is_segwit then read_varint t else varint_from_first first_byte)
    input_count ← lift (to_usize t input_count_u64)
    refuse_if (input_count == 0) invalid_input_count
    refuse_if (ltb max_io_count input_count) (oversized_data input_count max_io_count)
    for_range input_count (do input ← on_cursor (parse_input t); on_user (on_input input))
    output_count_u64 ← on_cursor (read_varint t)
    output_count ← lift (to_usize t output_count_u64)
    refuse_if (ltb max_io_count output_count) (oversized_data output_count max_io_count)
    for_range output_count (do output ← on_cursor (parse_output t); on_user (on_output output))
    if is_segwit then for_range input_count (on_cursor skip_witness) else pure tt
    locktime ← on_cursor (read_u32_le t)
    pure (version, locktime, input_count, output_count)

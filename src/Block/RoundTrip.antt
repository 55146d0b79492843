-- ===== src/Block/RoundTrip.antt =====
-- `BlockTxIter::new` and `consume_all_strict` on serialised blocks.
use blockchain_zc_parser.Base.{
  ℕ, ◌^◌, ◌≤◌, ◌<◌, ◌≡◌, refl, sym, ap, ◌∙◌, subst, List, [], ◌∷◌, ◌++◌, length, map, All,
  append_assoc, append-nil, arith,
}
use blockchain_zc_parser.Error.{ok}
use blockchain_zc_parser.Target.{Target}
use blockchain_zc_parser.Bytes.{IsByte, to_le_bytes}
use blockchain_zc_parser.Cursor.{new}
use blockchain_zc_parser.Cursor.Format.{unread, advance, IsValid, unread-advance, advance-IsValid}
use blockchain_zc_parser.Cursor.Checks.{Many}
use blockchain_zc_parser.Transaction.Whole.{Tx, TxFormat}
use blockchain_zc_parser.Transaction.Events.{Log, input, output, record_input, record_output}
use blockchain_zc_parser.Transaction.Serialise.{
  concat, pattern32, serialise, FitsI32, TxFits, serialise-TxFormat, version-Word, word, count-UpTo,
  concat-Many,
}
use blockchain_zc_parser.Transaction.RoundTrip.{calls, recording-IsTotal, for_each-recording}
use blockchain_zc_parser.Example.Synthetic.{encode_varint}
use blockchain_zc_parser.Block.{BlockHeader, BlockTxIter, new_iter, max_block_txn}
use blockchain_zc_parser.Block.Fields.{HeaderFormat}
use blockchain_zc_parser.Block.Header.{PrefixFormat}
use blockchain_zc_parser.Block.Accepted.{new_iter_iff}
use blockchain_zc_parser.Block.Strict.{consume_all_strict}
use blockchain_zc_parser.Block.StrictRounds.{CoinbaseFirst, HandledAll}
use blockchain_zc_parser.Block.Consume.{consume_all_strict_iff}

abbrev pub header_bytes : BlockHeader → List ℕ
header_bytes h =
    to_le_bytes 4 (pattern32 h.version)
    ++ (h.prev_block.array
        ++ (h.merkle_root.array
            ++ (to_le_bytes 4 h.timestamp ++ (to_le_bytes 4 h.bits ++ to_le_bytes 4 h.nonce))))

-- A header with values of the fields' types, which keeps its own bytes.
pub record HeaderFits (h : BlockHeader) : Type 0 where
  pub version : FitsI32 h.version
  pub prev_block : (length h.prev_block.array ≡ 32) × All IsByte h.prev_block.array
  pub merkle_root : (length h.merkle_root.array ≡ 32) × All IsByte h.merkle_root.array
  pub timestamp : h.timestamp < 2 ^ 32
  pub bits : h.bits < 2 ^ 32
  pub nonce : h.nonce < 2 ^ 32
  pub raw : h.raw ≡ header_bytes h

header_bytes-HeaderFormat : (h : BlockHeader) → HeaderFits h → HeaderFormat h (header_bytes h)
header_bytes-HeaderFormat h f = (
  record {
    version_bytes = to_le_bytes 4 (pattern32 h.version);
    time_bytes = to_le_bytes 4 h.timestamp;
    bits_bytes = to_le_bytes 4 h.bits;
    nonce_bytes = to_le_bytes 4 h.nonce;
    version = version-Word h.version f.version;
    prev_block = f.prev_block;
    merkle_root = f.merkle_root;
    timestamp = word 4 h.timestamp (omega (arith, f.timestamp));
    bits = word 4 h.bits (omega (arith, f.bits));
    nonce = word 4 h.nonce (omega (arith, f.nonce));
    whole = refl;
  },
  f.raw,
)

abbrev pub block_bytes : BlockHeader → List Tx → List ℕ
block_bytes h txs = header_bytes h ++ (encode_varint (length txs) ++ concat serialise txs)

-- The calls for the transactions in their order.
abbrev pub block_calls : List Tx → Log
block_calls [] = []
block_calls (x ∷ xs) = calls x ++ block_calls xs

recorded :
    (txs : List Tx) (log : Log)
    → HandledAll record_input record_output txs log (log ++ block_calls txs)
recorded [] log = append-nil log
recorded (x ∷ txs) log = (
  (log ++ map input x.inputs) ++ map output x.outputs,
  (
    log ++ map input x.inputs,
    for_each-recording input x.inputs log,
    for_each-recording output x.outputs (log ++ map input x.inputs),
  ),
  subst
      (HandledAll record_input record_output txs
        ((log ++ map input x.inputs) ++ map output x.outputs))
      (ap (λ l. l ++ block_calls txs) (append_assoc log (map input x.inputs) (map output x.outputs))
        ∙ append_assoc log (calls x) (block_calls txs))
      (recorded txs ((log ++ map input x.inputs) ++ map output x.outputs)),
)

module _ (t : Target) (h : BlockHeader) (txs : List Tx) (fits : HeaderFits h)
    (tx_fits : All TxFits txs) (few : length txs ≤ max_block_txn)
    (v : IsValid t (new (block_bytes h txs))) where
  -- The iterator behind the header and the count.
  abbrev pub started : BlockTxIter
  started = record {
    cursor =
        advance (new (block_bytes h txs)) (length (header_bytes h ++ encode_varint (length txs)));
    total = length txs;
    consumed = 0;
  }

  pub prefix-PrefixFormat :
      PrefixFormat (h, length txs) (header_bytes h ++ encode_varint (length txs))
  prefix-PrefixFormat = (
    header_bytes h,
    encode_varint (length txs),
    header_bytes-HeaderFormat h fits,
    count-UpTo max_block_txn (length txs) (omega arith) few,
    refl,
  )

  pub txs-Many : Many TxFormat txs (concat serialise txs)
  txs-Many = concat-Many TxFormat TxFits serialise txs serialise-TxFormat tx_fits

  pub cut :
      block_bytes h txs ≡ (header_bytes h ++ encode_varint (length txs)) ++ concat serialise txs
  cut = sym (append_assoc (header_bytes h) (encode_varint (length txs)) (concat serialise txs))

  new_iter-started : new_iter t (block_bytes h txs) ≡ ok (h, started)
  new_iter-started = (new_iter_iff t (block_bytes h txs) h started v).1 (
    (
      header_bytes h ++ encode_varint (length txs),
      concat serialise txs,
      prefix-PrefixFormat,
      cut,
      refl,
    ),
    refl,
  )

  -- A block of transactions that fit the types and limits, the first of them the only coinbase, behind
  -- a header and a count, all serialised, is taken by `BlockTxIter::new` and `consume_all_strict`: the
  -- first gives the header and an iterator over as many transactions, and the second calls the closures
  -- with the inputs and the outputs of each transaction in turn and succeeds. The bytes make a valid
  -- cursor.
  pub consume_all_strict-block_bytes :
      CoinbaseFirst txs
      → (it : BlockTxIter) × (d : BlockTxIter) × (new_iter t (block_bytes h txs) ≡ ok (h, it))
        × (it.total ≡ length txs)
        × (consume_all_strict t record_input record_output (it, []) ≡ (ok tt, (d, block_calls txs)))
  consume_all_strict-block_bytes first =
      let behind : unread started.cursor ≡ concat serialise txs =
        unread-advance t (new (block_bytes h txs)) v (header_bytes h ++ encode_varint (length txs))
          (concat serialise txs) cut in
      let (d, e) =
        (consume_all_strict_iff t record_input record_output (recording-IsTotal input)
            (recording-IsTotal output) started [] (block_calls txs) refl
            (advance-IsValid t (new (block_bytes h txs)) v
              (header_bytes h ++ encode_varint (length txs)) (concat serialise txs) cut)).1
          (txs, refl, subst (Many TxFormat txs) (sym behind) txs-Many, first, recorded txs []) in
      (started, d, new_iter-started, refl, e)

-- ===== src/Tests/Listing.antt =====
-- What the example program prints of a block with two transactions.
use blockchain_zc_parser.Base.{◌≡◌, refl, [], ◌∷◌, length, ◌++◌, some, true, false, arith}
use blockchain_zc_parser.Target.{bits64}
use blockchain_zc_parser.Cursor.{new}
use blockchain_zc_parser.Cursor.Format.{IsValid}
use blockchain_zc_parser.Transaction.Serialise.{concat, serialise}
use blockchain_zc_parser.Transaction.{out_point_is_coinbase}
use blockchain_zc_parser.Block.RoundTrip.{
  header_bytes, block_bytes, prefix-PrefixFormat, txs-Many, cut,
}
use blockchain_zc_parser.Script.Classify.{classify}
use blockchain_zc_parser.Example.Opts.{Opts, defaults}
use blockchain_zc_parser.Example.Synthetic.{encode_varint}
use blockchain_zc_parser.Example.Report.{summarise}
use blockchain_zc_parser.Example.Closing.{BlockFormat}
use blockchain_zc_parser.Example.Listing.{chosen, all_lines, listing}
use blockchain_zc_parser.Example.Lines.{transaction, output}
use blockchain_zc_parser.Example.Listed.{shown, summarise-listing}
use blockchain_zc_parser.Tests.{new-valid}
use blockchain_zc_parser.Tests.RoundTrip.{
  genesis, two_txs, genesis-HeaderFits, coinbase-TxFits, segwit-TxFits,
}

-- The second transaction alone, without its OP_RETURN.
abbrev second_only : Opts
second_only = record defaults { only_tx = some 1; no_opreturn = true }

two_valid : IsValid bits64 (new (block_bytes genesis two_txs))
unfolding encode_varint
two_valid = new-valid (block_bytes genesis two_txs) refl (omega arith)

two_txs-BlockFormat : BlockFormat genesis two_txs (block_bytes genesis two_txs)
two_txs-BlockFormat = (
  header_bytes genesis ++ encode_varint (length two_txs),
  concat serialise two_txs,
  prefix-PrefixFormat bits64 genesis two_txs genesis-HeaderFits
      (coinbase-TxFits, (segwit-TxFits, tt)) (omega arith) two_valid,
  txs-Many bits64 genesis two_txs genesis-HeaderFits (coinbase-TxFits, (segwit-TxFits, tt))
      (omega arith) two_valid,
  cut bits64 genesis two_txs genesis-HeaderFits (coinbase-TxFits, (segwit-TxFits, tt)) (omega arith)
      two_valid,
)

-- One line for the transaction, and one for its other output.
second_lines :
    all_lines second_only (chosen second_only two_txs)
    ≡ transaction 1 false ∷ output 5_000_000_000 "unknown" 1 ∷ []
unfolding classify out_point_is_coinbase
second_lines = refl

summarise-listing_example :
    shown (summarise bits64 second_only (block_bytes genesis two_txs))
    ≡ listing second_only genesis two_txs (length (block_bytes genesis two_txs))
summarise-listing_example =
    summarise-listing bits64 second_only (block_bytes genesis two_txs) two_valid genesis two_txs
      two_txs-BlockFormat

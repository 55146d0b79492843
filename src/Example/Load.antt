-- ===== src/Example/Load.antt =====
-- The block that `main` takes from a file, and how its checks relate to `consume_all_strict`.
use Prim.Native.String.{String}
use blockchain_zc_parser.Base.{
  ℕ, ◌≡◌, ◌≢◌, ◌↔◌, ◌⊎◌, inr, refl, sym, ap, ◌∙◌, subst, List, [], ◌∷◌, ◌++◌, length, length-append,
  Option, none, some, arith,
}
use blockchain_zc_parser.Error.{ParseResult, ok, err, fault}
use blockchain_zc_parser.Target.{Target}
use blockchain_zc_parser.Cursor.{new}
use blockchain_zc_parser.Cursor.Format.{IsValid, unread, unread-advance, advance-IsValid}
use blockchain_zc_parser.Cursor.Checks.{Many}
use blockchain_zc_parser.Block.Header.{PrefixFormat}
use blockchain_zc_parser.Transaction.{TxInput, TxOutput, Callback}
use blockchain_zc_parser.Transaction.Loops.{IsTotal}
use blockchain_zc_parser.Transaction.Whole.{Tx, TxFormat}
use blockchain_zc_parser.Block.{BlockHeader, BlockTxIter, mainnet_magic, new_iter}
use blockchain_zc_parser.Block.File.{BlkFileIter, EntryFormat, new_file, next_block}
use blockchain_zc_parser.Block.FileNext.{
  Next, ended, found, failed, next_block-Next, next_block_entry,
}
use blockchain_zc_parser.Block.Accepted.{new_iter_iff}
use blockchain_zc_parser.Block.Strict.{consume_all_strict}
use blockchain_zc_parser.Block.Consume.{consume_all_strict_iff}
use blockchain_zc_parser.Block.StrictRounds.{NoCoinbase, CoinbaseFirst}
use blockchain_zc_parser.Example.Opts.{Opts}
use blockchain_zc_parser.Example.Dat.{try_first_dat_entry_lem}
use blockchain_zc_parser.Example.Report.{block_of_file, block_read, load_block, summarise}
use blockchain_zc_parser.Example.Listing.{coinbases_of}
use blockchain_zc_parser.Example.Summary.{summarise-Totals}

-- The block of a file of these bytes: the first entry of the main network, or the bytes as they are when
-- they begin with none.
pub data Loaded (bytes : List ℕ) : List ℕ → Type 0 where
  entry :
      {block : List ℕ} (bs rest : List ℕ)
      → EntryFormat mainnet_magic block bs
      → bytes ≡ bs ++ rest
      → Loaded bytes block
  raw :
      ((block bs rest : List ℕ) → EntryFormat mainnet_magic block bs → bytes ≢ bs ++ rest)
      → Loaded bytes bytes

module _ (t : Target) (read_file : String → String ⊎ List ℕ) (bytes : List ℕ)
    (v : IsValid t (new bytes)) where
  abbrev file : BlkFileIter
  file = new_file bytes mainnet_magic

  no_entry :
      (r : ParseResult (Option (List ℕ)) × BlkFileIter)
      → next_block t file ≡ r
      → ((block : List ℕ) → r.0 ≢ ok (some block))
      → (block bs rest : List ℕ) → EntryFormat mainnet_magic block bs
      → bytes ≢ bs ++ rest
  no_entry r q n block bs rest f u =
      n block (sym (ap (λ k. k.0) q) ∙ ap (λ k. k.0) (next_block_entry t file v block bs rest f u))

  chosen :
      (r : ParseResult (Option (List ℕ))) (d : BlkFileIter)
      → next_block t file ≡ (r, d)
      → Next file r d
      → (block : List ℕ) × (block_of_file bytes r ≡ ok block) × Loaded bytes block
  chosen (ok none) d q (ended u e) = (bytes, refl, raw (no_entry (ok none, d) q (λ b w. cc)))
  chosen (ok (some block)) d q (found _ bs rest f u e) = (block, refl, entry bs rest f u)
  chosen (err x) d q (failed n) = (bytes, refl, raw (no_entry (err x, d) q (λ b w. cc)))
  chosen fault d q n = elim n [ ]

  load_read :
      (path : String)
      → read_file path ≡ inr bytes
      → load_block t read_file (some path) ≡ block_of_file bytes (next_block t file).0
  unfolding load_block block_read
  load_read path h =
      ap (block_read t) h ∙ ap (block_of_file bytes) (try_first_dat_entry_lem t bytes v)

  abbrev choice :
      (block : List ℕ) × (block_of_file bytes (next_block t file).0 ≡ ok block) × Loaded bytes block
  choice = chosen (next_block t file).0 (next_block t file).1 refl (next_block-Next t file v)

  taken :
      (block : List ℕ) → Loaded bytes block → block_of_file bytes (next_block t file).0 ≡ ok block
  taken block (entry bs rest f u) = rw (next_block_entry t file v block bs rest f u) refl
  taken block (raw n) = go choice
    where
      go :
          (b : List ℕ) × (block_of_file bytes (next_block t file).0 ≡ ok b) × Loaded bytes b
          → block_of_file bytes (next_block t file).0 ≡ ok bytes
      go (b, e, entry bs rest f u) = absurd (n b bs rest f u)
      go (b, e, raw m) = e

  given :
      (block : List ℕ) → block_of_file bytes (next_block t file).0 ≡ ok block → Loaded bytes block
  given block q = subst (Loaded bytes) (ok-inj choice.0 (sym choice.1 ∙ q)) choice.2
    where
      ok-inj : (b : List ℕ) → ok b ≡ ok block → b ≡ block
      ok-inj b p = cc

  -- A file that can be read gives exactly one block: that of its first entry, when it begins with an
  -- entry of the main network, and else the bytes of the file as they are. The bytes make a valid
  -- cursor.
  pub load_block_iff :
      (path : String) (block : List ℕ)
      → read_file path ≡ inr bytes
      → (load_block t read_file (some path) ≡ ok block) ↔ Loaded bytes block
  load_block_iff path block h =
      (λ q. given block (sym (load_read path h) ∙ q), λ l. load_read path h ∙ taken block l)

  pub loads :
      (path : String)
      → read_file path ≡ inr bytes
      → (block : List ℕ) × (load_block t read_file (some path) ≡ ok block)
  loads path h = (choice.0, load_read path h ∙ choice.1)

  pub Loaded-IsValid : (block : List ℕ) → Loaded bytes block → IsValid t (new block)
  Loaded-IsValid block (entry bs rest f u) = record {
    fits = omega arith;
    small = omega (
      arith,
      v.small,
      ap length u,
      length-append bs rest,
      ap length f.6,
      length-append mainnet_magic (f.0 ++ block),
      length-append f.0 block,
    );
    octets = f.5;
  }
  Loaded-IsValid block (raw n) = v

coinbases_of_none : (txs : List Tx) → NoCoinbase txs → coinbases_of txs ≡ 0
coinbases_of_none [] h = refl
coinbases_of_none (x ∷ xs) (h, hs) = rw (h, coinbases_of_none xs hs)

coinbases_of_first : (txs : List Tx) → CoinbaseFirst txs → coinbases_of txs ≡ 1
coinbases_of_first [] h = elim h [ ]
coinbases_of_first (x ∷ xs) (h, hs) = rw (h, coinbases_of_none xs hs)

module _ (t : Target) {S : Type 0} (on_input : Callback S TxInput) (on_output : Callback S TxOutput)
    (total_in : IsTotal on_input) (total_out : IsTotal on_output) where
  -- Every block that `consume_all_strict` accepts, with any closures that do not panic, `main` accepts as
  -- well, whatever its options. The bytes make a valid cursor.
  pub summarise-consume_all_strict :
      (o : Opts) (bytes : List ℕ) (h : BlockHeader) (it d : BlockTxIter) (s s' : S)
      → IsValid t (new bytes)
      → new_iter t bytes ≡ ok (h, it)
      → consume_all_strict t on_input on_output (it, s) ≡ (ok tt, (d, s'))
      → (summarise t o bytes).0 ≡ ok tt
  summarise-consume_all_strict o bytes h it d s s' v e q =
      let ((xs, rest, f, u, c), fresh) = (new_iter_iff t bytes h it v).0 e in
      let w : IsValid t it.cursor = rw c (advance-IsValid t (new bytes) v xs rest u) in
      let (txs, l, many, first, all) =
        (consume_all_strict_iff t on_input on_output total_in total_out it s s' fresh w).0 (d, q) in
      (summarise-Totals t o bytes v h txs
        (
          xs,
          rest,
          subst (λ n. PrefixFormat (h, n) xs) (sym l) f,
          subst (Many TxFormat txs) (ap unread c ∙ unread-advance t (new bytes) v xs rest u) many,
          u,
        )
        (coinbases_of_first txs first)).0

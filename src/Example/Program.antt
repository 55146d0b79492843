-- ===== src/Example/Program.antt =====
-- The program as a whole: `main` from the command line to its result.
use Prim.Native.String.{String}
use blockchain_zc_parser.Base.{ℕ, ◌≡◌, ◌⊎◌, inr, ◌↔◌, refl, sym, ap, ◌∙◌, List, ◌∷◌, Option, some}
use blockchain_zc_parser.Error.{ok}
use blockchain_zc_parser.Target.{Target}
use blockchain_zc_parser.Cursor.{new}
use blockchain_zc_parser.Cursor.Format.{IsValid}
use blockchain_zc_parser.Transaction.Whole.{Tx}
use blockchain_zc_parser.Block.{BlockHeader}
use blockchain_zc_parser.Example.Opts.{Opts, plain, arg}
use blockchain_zc_parser.Example.Args.{Said, command_line, Reads, means, parse_opts-command_line}
use blockchain_zc_parser.Example.Report.{run_block, run_program, load_block, summarise, main}
use blockchain_zc_parser.Example.Listing.{coinbases_of}
use blockchain_zc_parser.Example.Summary.{summarise_iff}
use blockchain_zc_parser.Example.Closing.{BlockFormat}
use blockchain_zc_parser.Example.Load.{Loaded, load_block_iff, loads, Loaded-IsValid}

-- A file of these bytes holds a block with one coinbase.
abbrev pub HoldsBlock : List ℕ → Type 0
HoldsBlock bytes =
    (block : List ℕ) × (h : BlockHeader) × (txs : List Tx) × Loaded bytes block
    × BlockFormat h txs block
    × (coinbases_of txs ≡ 1)

module _ (t : Target) (read_file : String → String ⊎ List ℕ) (parse_usize : String → Option ℕ)
    (bytes : List ℕ) (v : IsValid t (new bytes)) where
  module _ (program : String) (s : Said) (limit only : Option ℕ)
      (reads_limit : Reads parse_usize s.limit_tx limit)
      (reads_only : Reads parse_usize s.only_tx only) (is_path : arg s.path ≡ plain)
      (file : read_file s.path ≡ inr bytes) where
    abbrev o : Opts
    o = means parse_usize s limit only

    main-run :
        main t read_file parse_usize (program ∷ command_line s)
        ≡ run_block t o (load_block t read_file (some s.path))
    unfolding main run_program
    main-run =
        ap (run_program t read_file)
          (parse_opts-command_line parse_usize s limit only reads_limit reads_only is_path)

    run_block-ok : (block : List ℕ) → (run_block t o (ok block)).0 ≡ (summarise t o block).0
    unfolding run_block
    run_block-ok block = refl

    main-block :
        (block : List ℕ)
        → load_block t read_file (some s.path) ≡ ok block
        → (main t read_file parse_usize (program ∷ command_line s)).0 ≡ (summarise t o block).0
    main-block block q = ap (λ k. k.0) (main-run ∙ ap (run_block t o) q) ∙ run_block-ok block

    -- Called with any options but help and the path of a file that can be read, the program succeeds
    -- exactly when the block that the file holds, its first entry under the main network's magic, or all
    -- its bytes when it begins with none, is a well-formed block with exactly one coinbase. The numbers
    -- read as said, the path is no flag, and the bytes make a valid cursor.
    pub main_iff :
        ((main t read_file parse_usize (program ∷ command_line s)).0 ≡ ok tt) ↔ HoldsBlock bytes
    main_iff = (sound, complete)
      where
        sound :
            (main t read_file parse_usize (program ∷ command_line s)).0 ≡ ok tt → HoldsBlock bytes
        sound q =
            let (block, l) = loads t read_file bytes v s.path file in
            let held : Loaded bytes block =
              (load_block_iff t read_file bytes v s.path block file).0 l in
            let (h, txs, f, one) =
              (summarise_iff t o block (Loaded-IsValid t read_file bytes v block held)).0
                (sym (main-block block l) ∙ q) in
            (block, h, txs, held, f, one)

        complete :
            HoldsBlock bytes → (main t read_file parse_usize (program ∷ command_line s)).0 ≡ ok tt
        complete (block, h, txs, held, f, one) =
            main-block block ((load_block_iff t read_file bytes v s.path block file).1 held)
            ∙ (summarise_iff t o block (Loaded-IsValid t read_file bytes v block held)).1
                (h, txs, f, one)

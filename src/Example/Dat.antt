-- ===== src/Example/Dat.antt =====
-- `try_first_dat_entry`: the first block of a file, with the magics of the networks tried in turn.
use blockchain_zc_parser.Base.{
  ℕ, suc, ◌≡◌, ◌≢◌, ◌⊎◌, inl, inr, refl, sym, ap, ◌∙◌, subst, List, [], ◌∷◌, ◌++◌, length,
  length-append, true, false, Bool-cases, lt→leb, Option, none, some, All-append_left, arith,
}
use blockchain_zc_parser.Error.{ParseResult, ok, err, fault, and_then, magic_mismatch}
use blockchain_zc_parser.Target.{Target}
use blockchain_zc_parser.Bytes.{IsByte}
use blockchain_zc_parser.Hash.{bytes_eq, bytes_eq→eq}
use blockchain_zc_parser.Cursor.{Cursor, new, read_array}
use blockchain_zc_parser.Cursor.Format.{IsValid, advance}
use blockchain_zc_parser.Cursor.Reads.{read_array-Decodes}
use blockchain_zc_parser.Block.{mainnet_magic, testnet_magic, signet_magic}
use blockchain_zc_parser.Block.File.{BlkFileIter, new_file, next_block, read_entry}
use blockchain_zc_parser.Block.FileNext.{Next, ended, found, failed, next_block-Next}

-- The loop over the magics.
unfoldable pub first_entry : Target → List ℕ → List (List ℕ) → ParseResult (Option (List ℕ))
first_entry t bytes [] = ok none
first_entry t bytes (magic ∷ magics) =
    and_then (next_block t (new_file bytes magic)).0
      λ entry. elim entry [ some first ↦ ok (some first) | none ↦ first_entry t bytes magics ]

unfoldable pub try_first_dat_entry : Target → List ℕ → ParseResult (Option (List ℕ))
unfolding first_entry
try_first_dat_entry t bytes =
    first_entry t bytes (mainnet_magic ∷ testnet_magic ∷ signet_magic ∷ [])

module _ (t : Target) where
  empty_file : (magic : List ℕ) → (next_block t (new_file [] magic)).0 ≡ ok none
  unfolding next_block
  empty_file magic = refl

  empty_entries : (magics : List (List ℕ)) → first_entry t [] magics ≡ ok none
  unfolding first_entry
  empty_entries [] = refl
  empty_entries (m ∷ ms) = rw (empty_file m) (empty_entries ms)

  decided :
      (bytes magic : List ℕ) (magics : List (List ℕ)) (r : ParseResult (Option (List ℕ)))
      (d : BlkFileIter)
      → (next_block t (new_file bytes magic)).0 ≡ r
      → Next (new_file bytes magic) r d
      → first_entry t bytes (magic ∷ magics) ≡ r
  unfolding first_entry
  decided bytes magic magics (ok none) d e (ended u q) =
      rw e (subst (λ bs. first_entry t bs magics ≡ ok none) (sym u) (empty_entries magics))
  decided bytes magic magics (ok (some b)) d e (found _ bs rest f u q) = rw e
  decided bytes magic magics (err x) d e (failed n) = rw e
  decided bytes magic magics fault d e n = elim n [ ]

  -- The magics behind the first are never of use: `try_first_dat_entry` gives what one call of
  -- `next_block` gives for the main network's magic, its error or none included. The bytes make a valid
  -- cursor.
  pub try_first_dat_entry_lem :
      (bytes : List ℕ)
      → IsValid t (new bytes)
      → try_first_dat_entry t bytes ≡ (next_block t (new_file bytes mainnet_magic)).0
  unfolding try_first_dat_entry
  try_first_dat_entry_lem bytes v =
      decided bytes mainnet_magic (testnet_magic ∷ signet_magic ∷ []) _ _ refl
        (next_block-Next t (new_file bytes mainnet_magic) v)

  mismatched :
      (expected m rest : List ℕ) (c : Cursor)
      → bytes_eq m expected ≡ false
      → read_array t 4 c ≡ (ok m, advance c 4)
      → (read_entry t expected c).0 ≡ err (magic_mismatch expected m)
  unfolding read_entry
  mismatched expected m rest c d e = rw (e, d)

  not_empty :
      (bytes magic : List ℕ)
      → length bytes ≢ 0
      → (next_block t (new_file bytes magic)).0 ≡ (read_entry t magic (new bytes)).0
  unfolding next_block
  not_empty [] magic h = absurd (h refl)
  not_empty (b ∷ bs) magic h = rw (lt→leb (suc (length bs)) 0 (omega arith))

  -- A file that begins with four bytes other than the main network's magic, those of the test network
  -- and of signet included, is refused with a `MagicMismatch`. The bytes make a valid cursor.
  pub try_first_dat_entry_mismatch :
      (magic rest : List ℕ)
      → length magic ≡ 4
      → magic ≢ mainnet_magic
      → IsValid t (new (magic ++ rest))
      → try_first_dat_entry t (magic ++ rest) ≡ err (magic_mismatch mainnet_magic magic)
  try_first_dat_entry_mismatch magic rest l n v =
      try_first_dat_entry_lem (magic ++ rest) v
      ∙ (not_empty (magic ++ rest) mainnet_magic
            (λ z. absurd (omega (arith, z, l, length-append magic rest)))
          ∙ mismatched mainnet_magic magic rest (new (magic ++ rest))
              (differ (Bool-cases (bytes_eq magic mainnet_magic))) read)
    where
      differ :
          (bytes_eq magic mainnet_magic ≡ true) ⊎ (bytes_eq magic mainnet_magic ≡ false)
          → bytes_eq magic mainnet_magic ≡ false
      differ (inl h) = absurd (n (bytes_eq→eq magic mainnet_magic h))
      differ (inr h) = h

      read : read_array t 4 (new (magic ++ rest)) ≡ (ok magic, advance (new (magic ++ rest)) 4)
      read =
          (read_array-Decodes t 4).complete (new (magic ++ rest)) magic magic rest v
            (refl, l, All-append_left IsByte magic rest v.octets) refl
          ∙ ap (λ k. (ok magic, advance (new (magic ++ rest)) k)) l

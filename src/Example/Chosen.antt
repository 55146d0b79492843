-- ===== src/Example/Chosen.antt =====
-- `should_print_tx`, which is asked for one index after the other, takes what the options cut out of the
-- list of the transactions.
use blockchain_zc_parser.Base.{
  ℕ, zero, suc, ◌+◌, ◌<◌, ◌≤◌, ◌≡◌, ◌≢◌, refl, ap, ◌∙◌, List, [], ◌∷◌, ◌++◌, take, drop, Bool, true,
  false, if◌then◌else◌, Option, none, some, arith,
}
use blockchain_zc_parser.Transaction.Whole.{Tx}
use blockchain_zc_parser.Example.Opts.{Opts}
use blockchain_zc_parser.Example.Lines.{Line}
use blockchain_zc_parser.Example.Listing.{numbered, chosen, tx_lines, all_lines}
use blockchain_zc_parser.Example.Report.{should_print_tx}

module _ (o : Opts) where
  -- The lines of the transactions from an index on that a test takes.
  abbrev pub taken : (ℕ → Bool) → ℕ → List Tx → List Line
  taken p i [] = []
  taken p i (x ∷ xs) = (if p i then tx_lines o i x else []) ++ taken p (i + 1) xs

  taken_none :
      (p : ℕ → Bool) (i : ℕ) (xs : List Tx) → ((j : ℕ) → i ≤ j → p j ≡ false) → taken p i xs ≡ []
  taken_none p i [] h = refl
  taken_none p i (x ∷ xs) h =
      rw (h i (omega arith)) (taken_none p (i + 1) xs (λ j l. h j (omega (arith, l))))

  taken_all :
      (p : ℕ → Bool) (i : ℕ) (xs : List Tx)
      → ((j : ℕ) → p j ≡ true)
      → taken p i xs ≡ all_lines o (numbered i xs)
  taken_all p i [] h = refl
  taken_all p i (x ∷ xs) h = rw (h i, taken_all p (i + 1) xs h)

  taken_first :
      (p : ℕ → Bool) (n i : ℕ) (xs : List Tx)
      → ((j : ℕ) → j < i + n → p j ≡ true)
      → ((j : ℕ) → i + n ≤ j → p j ≡ false)
      → taken p i xs ≡ all_lines o (take n (numbered i xs))
  taken_first p zero i xs h k = taken_none p i xs (λ j l. k j (omega (arith, l)))
  taken_first p (suc n) i [] h k = refl
  taken_first p (suc n) i (x ∷ xs) h k = rw (h i (omega arith)) (
      ap (λ l. tx_lines o i x ++ l)
        (taken_first p n (i + 1) xs (λ j l. h j (omega (arith, l)))
          (λ j l. k j (omega (arith, l)))))

  taken_only :
      (p : ℕ → Bool) (n i : ℕ) (xs : List Tx)
      → p (i + n) ≡ true
      → ((j : ℕ) → j ≢ i + n → p j ≡ false)
      → taken p i xs ≡ all_lines o (take 1 (drop n (numbered i xs)))
  taken_only p zero i [] h k = refl
  taken_only p (suc n) i [] h k = refl
  taken_only p zero i (x ∷ xs) h k =
      ap (λ b. (if b then tx_lines o i x else []) ++ taken p (i + 1) xs) (ap p (omega arith) ∙ h)
      ∙ ap (λ l. tx_lines o i x ++ l)
          (taken_none p (i + 1) xs (λ j l. k j (λ e. omega (arith, l, e))))
  taken_only p (suc n) i (x ∷ xs) h k =
      rw (k i (λ e. omega (arith, e))) (
        taken_only p n (i + 1) xs (ap p (omega arith) ∙ h) (λ j l. k j (λ e. l (omega (arith, e)))))

  -- The lines of the transactions that the program tests one by one are those of the chosen ones.
  pub taken-chosen : (txs : List Tx) → taken (should_print_tx o) 0 txs ≡ all_lines o (chosen o txs)
  unfolding should_print_tx
  taken-chosen txs = go o.summary o.only_tx o.limit_tx refl refl refl
    where
      go :
          (summary : Bool) (only limit : Option ℕ)
          → o.summary ≡ summary
          → o.only_tx ≡ only
          → o.limit_tx ≡ limit
          → taken (should_print_tx o) 0 txs ≡ all_lines o (chosen o txs)
      go true only limit e e₁ e₂ = taken_none (should_print_tx o) 0 txs (λ j l. rw e) ∙ rw e
      go false (some only) limit e e₁ e₂ =
          taken_only (should_print_tx o) only 0 txs (rw (e, e₁) (ground arith))
            (λ j l. rw (e, e₁) (ground arith))
          ∙ rw (e, e₁)
      go false none (some limit) e e₁ e₂ =
          taken_first (should_print_tx o) limit 0 txs (λ j l. rw (e, e₁, e₂) (ground arith))
            (λ j l. rw (e, e₁, e₂) (ground arith))
          ∙ rw (e, e₁, e₂)
      go false none none e e₁ e₂ =
          taken_all (should_print_tx o) 0 txs (λ j. rw (e, e₁, e₂)) ∙ rw (e, e₁, e₂)

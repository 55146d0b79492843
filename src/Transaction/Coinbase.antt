-- ===== src/Transaction/Coinbase.antt =====
-- What `is_coinbase` tests.
use blockchain_zc_parser.Base.{ℕ, ◌-◌, ◌^◌, ◌≡◌, ◌↔◌, refl, List, [], ◌∷◌, true, All, arith}
use blockchain_zc_parser.Transaction.{TxInput, all_zero, out_point_is_coinbase, is_coinbase}

zeros : (bs : List ℕ) → all_zero bs ≡ true → All (λ b. b ≡ 0) bs
zeros [] h = tt
zeros (b ∷ bs) h = (ground arith, zeros bs (ground arith))

all_zero_back : (bs : List ℕ) → All (λ b. b ≡ 0) bs → all_zero bs ≡ true
all_zero_back [] h = refl
all_zero_back (b ∷ bs) (e, h) = rw (e) (all_zero_back bs h)

-- An input counts as a coinbase exactly when every byte of its previous transaction's hash is zero and
-- its previous index is the largest of 32 bits.
is_coinbase_iff :
    (i : TxInput)
    → (is_coinbase i ≡ true)
      ↔ All (λ b. b ≡ 0) i.previous_output.txid.array × (i.previous_output.vout ≡ 2 ^ 32 - 1)
unfolding is_coinbase out_point_is_coinbase
is_coinbase_iff i = (
  λ h. (zeros i.previous_output.txid.array (ground arith), ground arith),
  λ (z, e). ground (arith, all_zero_back i.previous_output.txid.array z),
)

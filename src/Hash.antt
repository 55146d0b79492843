-- ===== src/Hash.antt =====
-- src/hash.rs: the 32- and 20-byte hashes. A hash is the array that the reference points to.
-- `double_sha256` calls the crate `sha2`, whose digest is a parameter.
pub mod Text
use blockchain_zc_parser.Base.{◌≡◌, refl, arith, ℕ, List, [], ◌∷◌, Bool, true, false, ◌&&◌, ◌==◌}

pub record Hash32 : Type 0 where
  pub array : List ℕ

pub record Hash20 : Type 0 where
  pub array : List ℕ

-- The derived and the library's equality of byte strings.
abbrev pub bytes_eq : List ℕ → List ℕ → Bool
bytes_eq [] [] = true
bytes_eq (x ∷ xs) (y ∷ ys) = x == y && bytes_eq xs ys
bytes_eq _ _ = false

abbrev pub as_bytes : Hash32 → List ℕ
as_bytes h = h.array

abbrev pub as_array : Hash32 → List ℕ
as_array h = h.array

abbrev pub eq_array : Hash32 → List ℕ → Bool
eq_array h other = bytes_eq h.array other

-- `sha256` stands for `Sha256::digest`.
abbrev pub double_sha256 : (List ℕ → List ℕ) → List ℕ → List ℕ
double_sha256 sha256 xs = let first = sha256 xs in sha256 first

pub bytes_eq→eq : (xs ys : List ℕ) → bytes_eq xs ys ≡ true → xs ≡ ys
bytes_eq→eq [] [] h = refl
bytes_eq→eq [] (y ∷ ys) h = cc
bytes_eq→eq (x ∷ xs) [] h = cc
bytes_eq→eq (x ∷ xs) (y ∷ ys) h = ground (arith, bytes_eq→eq xs ys)

pub bytes_eq_refl : (xs : List ℕ) → bytes_eq xs xs ≡ true
bytes_eq_refl [] = refl
bytes_eq_refl (x ∷ xs) = ground (arith, bytes_eq_refl xs)

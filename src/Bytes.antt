-- ===== src/Bytes.antt =====
-- Byte slices as lists of numbers, their accesses, and the little-endian conversions of the integer
-- types. A slice that the program returns is the list of its bytes; its address is not modelled.
use blockchain_zc_parser.Base.{
  Bool, true, ap, ◌∙◌, ◌≤◌, ◌++◌, le→leb, length-append, length-drop, take-append, take_all, ℕ,
  zero, suc, ◌+◌, ◌-◌, ◌*◌, ◌/◌, ◌%◌, ◌^◌, ◌<◌, ◌≡◌, refl, List, [], ◌∷◌, ◌&&◌, none, some, length,
  get_elem?, take, drop, All, leb, ltb, ◌==◌, if◌then◌else◌, arith,
}
use native.Mathlib.Nat.{pow-suc}
use blockchain_zc_parser.Base.Int.{ℤ, pos, negsuc}
use blockchain_zc_parser.Error.{ParseResult, ok, fault}

abbrev pub IsByte : ℕ → Type 0
IsByte b = b < 256

-- `slice[i]`
abbrev pub byte_at : List ℕ → ℕ → ParseResult ℕ
byte_at xs i = elim (get_elem? xs i) [ some b ↦ ok b | none ↦ fault ]

-- `slice[from..end]`
abbrev pub slice : List ℕ → ℕ → ℕ → ParseResult (List ℕ)
slice xs from end =
    if leb from end && leb end (length xs) then ok (take (end - from) (drop from xs)) else fault

-- `[s[0], …, s[n - 1]]`, and the cast of a slice's pointer to `&[u8; N]`
abbrev pub array_of : ℕ → List ℕ → ParseResult (List ℕ)
array_of n xs = if leb n (length xs) then ok (take n xs) else fault

-- `<[u8; N]>::try_from(slice).unwrap()`
abbrev pub to_array : ℕ → List ℕ → ParseResult (List ℕ)
to_array n xs = if length xs == n then ok xs else fault

-- `u16::from_le_bytes` and its like, by the length of the array
abbrev pub from_le_bytes : List ℕ → ℕ
from_le_bytes [] = 0
from_le_bytes (b ∷ bs) = b + 256 * from_le_bytes bs

-- `to_le_bytes`, for a value of `n` bytes
abbrev pub to_le_bytes : ℕ → ℕ → List ℕ
to_le_bytes zero v = []
to_le_bytes (suc n) v = (v % 256) ∷ to_le_bytes n (v / 256)

-- The integer that a pattern of `w` bits stands for in two's complement.
abbrev pub signed : ℕ → ℕ → ℤ
signed w v = if ltb (2 * v) (2 ^ w) then pos v else negsuc (2 ^ w - v - 1)

pub length-to_le_bytes : (n v : ℕ) → length (to_le_bytes n v) ≡ n
length-to_le_bytes zero v = refl
length-to_le_bytes (suc n) v = omega (arith, length-to_le_bytes n (v / 256))

-- Every value of `n` bytes survives the round trip.
pub from_le_bytes-to_le_bytes : (n v : ℕ) → v < 256 ^ n → from_le_bytes (to_le_bytes n v) ≡ v
from_le_bytes-to_le_bytes zero v h = omega arith
from_le_bytes-to_le_bytes (suc n) v h =
    omega (arith, from_le_bytes-to_le_bytes n (v / 256) (quotient_fits v n h))
  where
    quotient_fits : (w k : ℕ) → w < 256 ^ suc k → w / 256 < 256 ^ k
    quotient_fits w k p = omega (arith, pow-suc 256 k)

pub from_le_bytes-lt : (bs : List ℕ) → All IsByte bs → from_le_bytes bs < 256 ^ length bs
from_le_bytes-lt [] h = omega arith
from_le_bytes-lt (b ∷ bs) (hb, hbs) =
    omega (arith, from_le_bytes-lt bs hbs, pow-suc 256 (length bs))

pub slice_prefix : (xs ys : List ℕ) → slice (xs ++ ys) 0 (length xs) ≡ ok xs
slice_prefix xs ys =
    rw
      (
        le→leb 0 (length xs) (omega arith),
        le→leb (length xs) (length (xs ++ ys)) (omega (arith, length-append xs ys)),
      )
      (ap ok (ap (λ k. take k (xs ++ ys)) (omega_sub (length xs)) ∙ take-append xs ys))
  where
    omega_sub : (n : ℕ) → n - 0 ≡ n
    omega_sub n = omega arith

pub slice_suffix : (n : ℕ) (xs : List ℕ) → n ≤ length xs → slice xs n (length xs) ≡ ok (drop n xs)
slice_suffix n xs h =
    rw (le→leb n (length xs) h, le→leb (length xs) (length xs) (omega arith), ← length-drop n xs)
      (ap ok (take_all (drop n xs)))

-- The test that tells whether numbers are bytes.
abbrev pub all_bytes : List ℕ → Bool
all_bytes [] = true
all_bytes (b ∷ bs) = ltb b 256 && all_bytes bs

pub all_bytes-IsByte : (bs : List ℕ) → all_bytes bs ≡ true → All IsByte bs
all_bytes-IsByte [] h = tt
all_bytes-IsByte (b ∷ bs) h = (ground arith, all_bytes-IsByte bs (ground arith))

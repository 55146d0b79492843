-- ===== src/Hash/Text.antt =====
-- The texts of the hashes, `Display` and `Debug`.
use mathlib.Core.List.{reverse, reverse_aux, reverse-reverse}
use blockchain_zc_parser.Base.{
  ℕ, ◌+◌, ◌*◌, ◌≡◌, refl, ap, List, [], ◌∷◌, ◌++◌, length, All, Option, none, some, arith,
}
use blockchain_zc_parser.Bytes.{IsByte}
use blockchain_zc_parser.Hash.{Hash32, Hash20}
use blockchain_zc_parser.Text.{codes, write_hex, read_hex, read_hex-write_hex}

unfoldable pub hash32_display : Hash32 → List ℕ
hash32_display h = write_hex (reverse h.array)

unfoldable pub hash32_debug : Hash32 → List ℕ
hash32_debug h = codes "Hash32(" ++ (write_hex (reverse h.array) ++ codes ")")

unfoldable pub hash20_debug : Hash20 → List ℕ
hash20_debug h = codes "Hash20(" ++ (write_hex h.array ++ codes ")")

abbrev pub reversed : Option (List ℕ) → Option (List ℕ)
reversed none = none
reversed (some bs) = some (reverse bs)

All-reverse_aux : (xs ys : List ℕ) → All IsByte xs → All IsByte ys → All IsByte (reverse_aux xs ys)
All-reverse_aux [] ys h k = k
All-reverse_aux (x ∷ xs) ys (h, hs) k = All-reverse_aux xs (x ∷ ys) hs (h, k)

length-reverse_aux : (xs ys : List ℕ) → length (reverse_aux xs ys) ≡ length xs + length ys
length-reverse_aux [] ys = omega arith
length-reverse_aux (x ∷ xs) ys = omega (arith, length-reverse_aux xs (x ∷ ys))

length-write_hex : (bs : List ℕ) → length (write_hex bs) ≡ 2 * length bs
length-write_hex [] = refl
length-write_hex (b ∷ bs) = omega (arith, length-write_hex bs)

-- A hash is displayed as two hexadecimal digits for each byte, in the order of block explorers: what a
-- reader of such pairs gives, turned round, is the hash. The hash holds bytes.
pub reversed-hash32_display :
    (h : Hash32)
    → All IsByte h.array
    → (reversed (read_hex (hash32_display h)) ≡ some h.array)
      × (length (hash32_display h) ≡ 2 * length h.array)
unfolding hash32_display
reversed-hash32_display h o = (
  rw (read_hex-write_hex (reverse h.array) (All-reverse_aux h.array [] o tt))
      (ap some (reverse-reverse h.array)),
  omega (arith, length-write_hex (reverse h.array), length-reverse_aux h.array []),
)

-- ===== src/Text.antt =====
-- Texts that the program writes, as the lists of their characters' codes: literals, hexadecimal and
-- decimal numbers, and readers for them.
use Prim.Native.Char.{code}
use Prim.Native.String.{String}
use blockchain_zc_parser.Base.{
  ℕ, zero, suc, ◌+◌, ◌-◌, ◌*◌, ◌/◌, ◌%◌, ◌^◌, ◌<◌, ◌≡◌, ◌⊎◌, inl, inr, refl, ap, ◌∙◌, le→leb, List,
  [], ◌∷◌, All, true, false, Bool-cases, ◌&&◌, leb, if◌then◌else◌, Option, none, some, arith,
}
use blockchain_zc_parser.Bytes.{IsByte}

abbrev pub codes : String → List ℕ
codes String.[] = []
codes (String.◌∷◌ c s) = code c ∷ codes s

abbrev pub hex_digit : ℕ → ℕ
hex_digit d = if leb d 9 then 48 + d else 87 + d

-- `for b in bytes { write!(f, "{b:02x}")?; }`
abbrev pub write_hex : List ℕ → List ℕ
write_hex [] = []
write_hex (b ∷ bs) = hex_digit (b / 16) ∷ hex_digit (b % 16) ∷ write_hex bs

-- A reader of pairs of lower-case hexadecimal digits.
abbrev pub digit_value : ℕ → Option ℕ
digit_value c =
    if leb 48 c && leb c 57
    then some (c - 48)
    else if leb 97 c && leb c 102
    then some (c - 87)
    else none

abbrev pub pair : Option ℕ → Option ℕ → Option (List ℕ) → Option (List ℕ)
pair (some a) (some b) (some bs) = some ((16 * a + b) ∷ bs)
pair _ _ _ = none

abbrev pub read_hex : List ℕ → Option (List ℕ)
read_hex [] = some []
read_hex (c ∷ []) = none
read_hex (c ∷ d ∷ cs) = pair (digit_value c) (digit_value d) (read_hex cs)

pub digit_value-hex_digit : (d : ℕ) → d < 16 → digit_value (hex_digit d) ≡ some d
digit_value-hex_digit d h = ground arith

pub pair-hex_digit :
    (b : ℕ) (bs : List ℕ)
    → IsByte b
    → pair (digit_value (hex_digit (b / 16))) (digit_value (hex_digit (b % 16))) (some bs)
      ≡ some (b ∷ bs)
pair-hex_digit b bs h =
    rw (digit_value-hex_digit (b / 16) (omega arith), digit_value-hex_digit (b % 16) (omega arith))
      (ap (λ k. some (k ∷ bs)) (omega arith))

pub read_hex-write_hex : (bs : List ℕ) → All IsByte bs → read_hex (write_hex bs) ≡ some bs
read_hex-write_hex [] h = refl
read_hex-write_hex (b ∷ bs) (h, hs) = rw (read_hex-write_hex bs hs) (pair-hex_digit b bs h)

-- `{n}` of a `u64` or a `usize`, which have at most twenty digits, in front of `out`.
unfoldable pub digits : ℕ → ℕ → List ℕ → List ℕ
digits zero n out = out
digits (suc fuel) n out = elim (leb n 9) [
  | true ↦ (48 + n % 10) ∷ out
  | false ↦ digits fuel (n / 10) ((48 + n % 10) ∷ out)
]

abbrev pub decimal : ℕ → List ℕ → List ℕ
decimal n out = digits 20 n out

-- The number that the digits in front say, behind `acc`, and what follows.
abbrev pub scan : ℕ → List ℕ → ℕ × List ℕ
scan acc [] = (acc, [])
scan acc (c ∷ cs) = if leb 48 c && leb c 57 then scan (10 * acc + (c - 48)) cs else (acc, c ∷ cs)

scan-digit :
    (acc d : ℕ) (out : List ℕ) → d < 10 → scan acc ((48 + d) ∷ out) ≡ scan (10 * acc + d) out
scan-digit acc d out h =
    rw (le→leb 48 (48 + d) (omega arith), le→leb (48 + d) 57 (omega arith))
      (ap (λ k. scan k out) (omega arith))

digits_last :
    (fuel n : ℕ) (out : List ℕ) → leb n 9 ≡ true → digits (suc fuel) n out ≡ (48 + n % 10) ∷ out
unfolding digits
digits_last fuel n out h = rw (h, digits)

digits_more :
    (fuel n : ℕ) (out : List ℕ)
    → leb n 9 ≡ false
    → digits (suc fuel) n out ≡ digits fuel (n / 10) ((48 + n % 10) ∷ out)
unfolding digits
digits_more fuel n out h = rw (h, digits)

pub scan-digits :
    (fuel n : ℕ) (out : List ℕ) → n < 10 ^ suc fuel → scan 0 (digits (suc fuel) n out) ≡ scan n out
scan-digits fuel n out k = by_size fuel n out k (Bool-cases (leb n 9))
  where
    last : (f m : ℕ) (o : List ℕ) → leb m 9 ≡ true → scan 0 (digits (suc f) m o) ≡ scan m o
    last f m o e =
        ap (scan 0) (digits_last f m o e)
        ∙ (scan-digit 0 (m % 10) o (omega arith) ∙ ap (λ j. scan j o) (ground arith))

    by_size :
        (f m : ℕ) (o : List ℕ)
        → m < 10 ^ suc f
        → (leb m 9 ≡ true) ⊎ (leb m 9 ≡ false)
        → scan 0 (digits (suc f) m o) ≡ scan m o
    by_size zero m o h (inl e) = last zero m o e
    by_size zero m o h (inr e) = absurd (ground arith)
    by_size (suc f) m o h (inl e) = last (suc f) m o e
    by_size (suc f) m o h (inr e) =
        ap (scan 0) (digits_more (suc f) m o e)
        ∙ (by_size f (m / 10) ((48 + m % 10) ∷ o) (omega (arith, h)) (Bool-cases (leb (m / 10) 9))
            ∙ (scan-digit (m / 10) (m % 10) o (omega arith) ∙ ap (λ j. scan j o) (omega arith)))

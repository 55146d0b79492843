-- ===== src/Error/Text.antt =====
-- A reader of the errors' texts, which gets the error back.
use blockchain_zc_parser.Base.{
  ℕ, ◌+◌, ◌-◌, ◌/◌, ◌%◌, ◌^◌, ◌<◌, ◌≡◌, refl, ap, ◌∙◌, List, [], ◌∷◌, ◌++◌, length, drop, All, true,
  false, Bool-cases, ◌⊎◌, inl, inr, ◌==◌, leb, if◌then◌else◌, Option, none, some, arith,
}
use blockchain_zc_parser.Base.Int.{ℤ, pos, negsuc}
use blockchain_zc_parser.Bytes.{IsByte}
use blockchain_zc_parser.Text.{
  codes, hex_digit, digit_value, pair, pair-hex_digit, decimal, scan, scan-digits,
  digit_value-hex_digit,
}
use blockchain_zc_parser.Error.{
  ParseError, unexpected_eof, invalid_var_int, integer_too_large, oversized_data,
  unsupported_version, magic_mismatch, invalid_segwit_flag, invalid_input_count, trailing_bytes,
  incomplete_transactions, invalid_coinbase, invalid_coinbase_count, io,
}
use blockchain_zc_parser.Error.Display.{debug_array, display, signed_decimal}

abbrev hexed : ℕ → Option (List ℕ) → Option (List ℕ)
hexed b k = pair (digit_value (hex_digit (b / 16))) (digit_value (hex_digit (b % 16))) k

-- The text behind a prefix.
abbrev pub strip : List ℕ → List ℕ → Option (List ℕ)
strip [] text = some text
strip (p ∷ ps) [] = none
strip (p ∷ ps) (c ∷ cs) = if p == c then strip ps cs else none

abbrev pub first_of :
    Option (List ℕ) → (List ℕ → Option ParseError) → Option ParseError → Option ParseError
first_of (some rest) read other = read rest
first_of none read other = other

abbrev pub one_number : (ℕ → ParseError) → List ℕ → Option ParseError
one_number e text = some (e (scan 0 text).0)

-- A number, `skipped` characters, and a number.
abbrev pub two_numbers : ℕ → (ℕ → ℕ → ParseError) → List ℕ → Option ParseError
two_numbers skipped e text =
    let (a, rest) = scan 0 text in some (e a (scan 0 (drop skipped rest)).0)

-- A number, or no number in front of a sign.
abbrev pub signed_of : ℕ × List ℕ → Option ParseError
signed_of (n, []) = some (unsupported_version (pos n))
signed_of (n, c ∷ cs) = some (unsupported_version (negsuc ((scan 0 cs).0 - 1)))

abbrev pub read_signed : List ℕ → Option ParseError
read_signed text = signed_of (scan 0 text)

abbrev pub flag_of : Option (List ℕ) → Option ParseError
flag_of (some (b ∷ [])) = some (invalid_segwit_flag b)
flag_of _ = none

abbrev pub read_flag : List ℕ → Option ParseError
read_flag (c ∷ []) = flag_of (pair (some 0) (digit_value c) (some []))
read_flag (c ∷ d ∷ []) = flag_of (pair (digit_value c) (digit_value d) (some []))
read_flag _ = none

-- Four bytes with two characters between them, and what follows.
abbrev pub four : List ℕ → Option (List ℕ) × List ℕ
four (a ∷ b ∷ _ ∷ _ ∷ c ∷ d ∷ _ ∷ _ ∷ e ∷ f ∷ _ ∷ _ ∷ g ∷ h ∷ rest) = (
  pair (digit_value a) (digit_value b) (
      pair (digit_value c) (digit_value d)
        (pair (digit_value e) (digit_value f) (pair (digit_value g) (digit_value h) (some [])))),
  rest,
)
four _ = (none, [])

abbrev pub both : Option (List ℕ) → Option (List ℕ) → Option ParseError
both (some expected) (some got) = some (magic_mismatch expected got)
both _ _ = none

abbrev pub read_magic : List ℕ → Option ParseError
read_magic text = let (expected, rest) = four text in both expected (four (drop 7 rest)).0

abbrev pub read_other : List ℕ → Option ParseError
read_other text =
    first_of (strip (codes "invalid transaction input count") text) (λ _. some invalid_input_count)
      (first_of (strip (codes "trailing bytes after parse: ") text) (one_number trailing_bytes) (
        first_of (strip (codes "incomplete transaction parsing: expected ") text)
          (two_numbers 9 incomplete_transactions)
          (first_of (strip (codes "coinbase txid reference must be all-zero bytes") text)
            (λ _. some invalid_coinbase)
            (first_of (strip (codes "invalid coinbase tx count in block: ") text)
              (one_number invalid_coinbase_count) none))))

-- The reader of every text but an I/O error's.
abbrev pub read_error : List ℕ → Option ParseError
read_error text =
    first_of (strip (codes "unexpected end of input: needed ") text) (two_numbers 16 unexpected_eof)
      (first_of (strip (codes "invalid variable-length integer encoding") text)
        (λ _. some invalid_var_int)
        (first_of (strip (codes "integer too large to fit into usize: ") text)
          (one_number integer_too_large)
          (first_of (strip (codes "data size ") text) (two_numbers 25 oversized_data) (
            first_of (strip (codes "unsupported version: ") text) read_signed (
              first_of (strip (codes "magic mismatch: expected [") text) read_magic (
                first_of (strip (codes "invalid segwit flag byte: 0x") text) read_flag
                  (read_other text)))))))

scan-decimal : (n : ℕ) (out : List ℕ) → n < 2 ^ 64 → scan 0 (decimal n out) ≡ scan n out
scan-decimal n out h = scan-digits 19 n out (omega arith)

-- What the machine's types allow; an I/O error's text is the system's.
abbrev pub IsMachine : ParseError → Type 0
IsMachine (unexpected_eof needed available) = (needed < 2 ^ 64) × (available < 2 ^ 64)
IsMachine (integer_too_large value) = value < 2 ^ 64
IsMachine (oversized_data size max) = (size < 2 ^ 64) × (max < 2 ^ 64)
IsMachine (unsupported_version (pos n)) = n < 2 ^ 31
IsMachine (unsupported_version (negsuc n)) = n < 2 ^ 31
IsMachine (magic_mismatch expected got) =
    (length expected ≡ 4) × All IsByte expected × (length got ≡ 4) × All IsByte got
IsMachine (invalid_segwit_flag b) = IsByte b
IsMachine (trailing_bytes remaining) = remaining < 2 ^ 64
IsMachine (incomplete_transactions expected parsed) = (expected < 2 ^ 64) × (parsed < 2 ^ 64)
IsMachine (invalid_coinbase_count count) = count < 2 ^ 64
IsMachine (io message) = ⊥
IsMachine _ = Unit

one_number-decimal :
    (e : ℕ → ParseError) (n : ℕ) → n < 2 ^ 64 → one_number e (decimal n []) ≡ some (e n)
one_number-decimal e n h = ap (λ k. some (e k.0)) (scan-decimal n [] h)

two_numbers-decimal :
    (skipped : ℕ) (e : ℕ → ℕ → ParseError) (a b : ℕ) (between out : List ℕ)
    → a < 2 ^ 64
    → b < 2 ^ 64
    → scan a between ≡ (a, between)
    → drop skipped between ≡ decimal b out
    → scan b out ≡ (b, out)
    → two_numbers skipped e (decimal a between) ≡ some (e a b)
two_numbers-decimal skipped e a b between out h k p q r =
    ap (λ j. some (e j.0 (scan 0 (drop skipped j.1)).0)) (scan-decimal a between h ∙ p)
    ∙ ap (λ j. some (e a j.0)) (ap (scan 0) q ∙ (scan-decimal b out k ∙ r))

read_signed-signed_decimal :
    (v : ℤ)
    → IsMachine (unsupported_version v)
    → read_signed (signed_decimal v []) ≡ some (unsupported_version v)
read_signed-signed_decimal (pos n) h = ap signed_of (scan-decimal n [] (omega (arith, h)))
read_signed-signed_decimal (negsuc n) h =
    ap (λ k. some (unsupported_version (negsuc (k.0 - 1))))
      (scan-decimal (n + 1) [] (omega (arith, h)))
    ∙ ap (λ k. some (unsupported_version (negsuc k))) (omega arith)

read_flag-lem :
    (b : ℕ) → IsByte b → read_error (display (invalid_segwit_flag b)) ≡ some (invalid_segwit_flag b)
unfolding display
read_flag-lem b h = go (Bool-cases (leb b 15))
  where
    go :
        (leb b 15 ≡ true) ⊎ (leb b 15 ≡ false)
        → read_flag
            (if leb b 15 then hex_digit b ∷ [] else hex_digit (b / 16) ∷ hex_digit (b % 16) ∷ [])
          ≡ some (invalid_segwit_flag b)
    go (inl e) = rw e (
        ap (λ k. flag_of (pair (some 0) k (some []))) (digit_value-hex_digit b (ground arith))
        ∙ ap (λ k. some (invalid_segwit_flag k)) (omega arith))
    go (inr e) = rw e (ap flag_of (pair-hex_digit b [] h))

four-debug_array :
    (bs rest : List ℕ)
    → length bs ≡ 4
    → All IsByte bs
    → (text : List ℕ) × (debug_array bs rest ≡ 0x5b ∷ text) × (four text ≡ (some bs, 0x5d ∷ rest))
four-debug_array [] rest l h = absurd (omega arith)
four-debug_array (a ∷ []) rest l h = absurd (omega arith)
four-debug_array (a ∷ b ∷ []) rest l h = absurd (omega arith)
four-debug_array (a ∷ b ∷ c ∷ []) rest l h = absurd (omega arith)
four-debug_array (a ∷ b ∷ c ∷ d ∷ []) rest l (ha, (hb, (hc, (hd, _)))) = (
  _,
  refl,
  ap (λ k. (k, 0x5d ∷ rest))
      (ap (λ k. hexed a (hexed b (hexed c k))) (pair-hex_digit d [] hd)
        ∙ (ap (λ k. hexed a (hexed b k)) (pair-hex_digit c (d ∷ []) hc)
            ∙ (ap (hexed a) (pair-hex_digit b (c ∷ d ∷ []) hb)
                ∙ pair-hex_digit a (b ∷ c ∷ d ∷ []) ha))),
)
four-debug_array (a ∷ b ∷ c ∷ d ∷ e ∷ bs) rest l h = absurd (omega arith)

read_magic-lem :
    (expected got : List ℕ)
    → length expected ≡ 4
    → All IsByte expected
    → length got ≡ 4
    → All IsByte got
    → read_error (display (magic_mismatch expected got)) ≡ some (magic_mismatch expected got)
unfolding display
read_magic-lem expected got l h m k =
    let (text, q, f) = four-debug_array expected (codes " got " ++ debug_array got []) l h in
    let (text₂, q₂, f₂) = four-debug_array got [] m k in
    ap (λ j. first_of (strip (0x5b ∷ []) j) read_magic none) q
    ∙ (ap (λ j. both j.0 (four (drop 7 j.1)).0) f
        ∙ (ap (λ j. both (some expected) (four (drop 1 j)).0) q₂
            ∙ ap (λ j. both (some expected) j.0) f₂))

-- The text of an error says which error it is, with its numbers and bytes: a reader gets the error back
-- from the text. The numbers and bytes are within their types; the text of an I/O error is the system's
-- and is not read.
pub read_error-display : (e : ParseError) → IsMachine e → read_error (display e) ≡ some e
unfolding display
read_error-display (unexpected_eof a b) (h, k) =
    two_numbers-decimal 16 unexpected_eof a b _ (codes " available") h k refl refl refl
read_error-display invalid_var_int h = refl
read_error-display (integer_too_large n) h = one_number-decimal integer_too_large n h
read_error-display (oversized_data a b) (h, k) =
    two_numbers-decimal 25 oversized_data a b _ [] h k refl refl refl
read_error-display (unsupported_version v) h = read_signed-signed_decimal v h
read_error-display (magic_mismatch e g) (l, h, m, k) = read_magic-lem e g l h m k
read_error-display (invalid_segwit_flag b) h = read_flag-lem b h
read_error-display invalid_input_count h = refl
read_error-display (trailing_bytes n) h = one_number-decimal trailing_bytes n h
read_error-display (incomplete_transactions a b) (h, k) =
    two_numbers-decimal 9 incomplete_transactions a b _ [] h k refl refl refl
read_error-display invalid_coinbase h = refl
read_error-display (invalid_coinbase_count n) h = one_number-decimal invalid_coinbase_count n h
read_error-display (io message) h = elim h [ ]

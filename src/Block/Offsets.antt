-- ===== src/Block/Offsets.antt =====
-- `BlockHeader::parse` as a function of the next 80 bytes, field by field at its offset.
use blockchain_zc_parser.Base.{
  ℕ, ◌+◌, ◌≤◌, ◌<◌, ◌≡◌, refl, sym, ap, ◌∙◌, List, ◌++◌, length, take, drop, take-append-drop,
  drop-drop, length-take, length-drop, All, All-take, All-drop, arith,
}
use blockchain_zc_parser.Error.{ok, err, unexpected_eof}
use blockchain_zc_parser.Target.{Target}
use blockchain_zc_parser.Bytes.{IsByte, from_le_bytes, signed}
use blockchain_zc_parser.Cursor.{Cursor, remaining, read_array}
use blockchain_zc_parser.Cursor.Format.{IsValid, unread, advance, length-unread, unread-IsByte}
use blockchain_zc_parser.Cursor.Words.{read_bytes_short}
use blockchain_zc_parser.Block.{BlockHeader, parse_header}
use blockchain_zc_parser.Block.Header.{parse_header-Decodes}
use blockchain_zc_parser.Block.Fields.{Fields}

-- The header that 80 bytes make.
abbrev pub header_of : List ℕ → BlockHeader
header_of raw = record {
  version = signed 32 (from_le_bytes (take 4 raw));
  prev_block = record { array = take 32 (drop 4 raw) };
  merkle_root = record { array = take 32 (drop 36 raw) };
  timestamp = from_le_bytes (take 4 (drop 68 raw));
  bits = from_le_bytes (take 4 (drop 72 raw));
  nonce = from_le_bytes (drop 76 raw);
  raw = raw;
}

module _ (raw : List ℕ) (long : length raw ≡ 80) (octets : All IsByte raw) where
  part :
      (n k : ℕ) → n + k ≤ 80 → (length (take k (drop n raw)) ≡ k) × All IsByte (take k (drop n raw))
  part n k h = (
    omega (arith, length-take k (drop n raw), length-drop n raw),
    All-take IsByte k _ (All-drop IsByte n raw octets),
  )

  cut : (n k : ℕ) → drop n raw ≡ take k (drop n raw) ++ drop (n + k) raw
  cut n k =
      sym (take-append-drop k (drop n raw)) ∙ ap (λ l. take k (drop n raw) ++ l) (drop-drop n k raw)

  header_of-Fields : Fields (header_of raw) raw
  header_of-Fields = record {
    version_bytes = take 4 raw;
    time_bytes = take 4 (drop 68 raw);
    bits_bytes = take 4 (drop 72 raw);
    nonce_bytes = drop 76 raw;
    version = (((part 0 4 (omega arith)).0), (part 0 4 (omega arith)).1, refl);
    prev_block = part 4 32 (omega arith);
    merkle_root = part 36 32 (omega arith);
    timestamp = ((part 68 4 (omega arith)).0, (part 68 4 (omega arith)).1, refl);
    bits = ((part 72 4 (omega arith)).0, (part 72 4 (omega arith)).1, refl);
    nonce = (omega (arith, length-drop 76 raw), All-drop IsByte 76 raw octets, refl);
    whole =
        cut 0 4
        ∙ ap (λ l. take 4 raw ++ l)
            (cut 4 32
              ∙ ap (λ l. take 32 (drop 4 raw) ++ l)
                  (cut 36 32
                    ∙ ap (λ l. take 32 (drop 36 raw) ++ l)
                        (cut 68 4 ∙ ap (λ l. take 4 (drop 68 raw) ++ l) (cut 72 4))));
  }

module _ (t : Target) (c : Cursor) (v : IsValid t c) where
  -- With 80 bytes unread `BlockHeader::parse` succeeds and takes them, and every field is what stands
  -- at its offset, little-endian, the version signed. The cursor is valid.
  pub parse_header_enough :
      c.pos + 80 ≤ length c.bytes
      → parse_header t c ≡ (ok (header_of (take 80 (unread c))), advance c 80)
  parse_header_enough h =
      (parse_header-Decodes t).complete c (header_of raw) raw (drop 80 (unread c)) v
        (header_of-Fields raw long (All-take IsByte 80 _ (unread-IsByte t c v)), refl)
        (sym (take-append-drop 80 (unread c)))
      ∙ ap (λ n. (ok (header_of raw), advance c n)) long
    where
      raw : List ℕ
      raw = take 80 (unread c)

      long : length raw ≡ 80
      long = omega (arith, length-take 80 (unread c), length-unread t c v)

  -- With fewer than 80 bytes unread `BlockHeader::parse` is an `UnexpectedEof` with the numbers needed
  -- and available, and the cursor has not moved. The cursor is valid.
  parse_header_short :
      length c.bytes < c.pos + 80 → parse_header t c ≡ (err (unexpected_eof 80 (remaining c)), c)
  unfolding parse_header read_array
  parse_header_short h = rw (read_bytes_short t 80 c v h)

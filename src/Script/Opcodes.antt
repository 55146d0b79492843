-- ===== src/Script/Opcodes.antt =====
-- The iterator does at each opcode what the parser over the cursor does.
use blockchain_zc_parser.Base.{
  ℕ, ◌+◌, ◌-◌, ◌≤◌, ◌<◌, ◌≡◌, ◌⊎◌, inl, inr, refl, sym, ap, ◌∙◌, List, [], ◌∷◌, length, take, drop,
  take-append-drop, length-take, All-take, true, false, ◌==◌, ==_iff, leb, le→leb, le→ltb, lt→ltb,
  Bool-cases, some, arith,
}
use blockchain_zc_parser.Error.{ok, err, unexpected_eof}
use blockchain_zc_parser.Action.{Action, ◌>>=◌}
use blockchain_zc_parser.Target.{Target}
use blockchain_zc_parser.Bytes.{IsByte, from_le_bytes}
use blockchain_zc_parser.Cursor.{Cursor, remaining, read_u8, read_u16_le, read_u32_le}
use blockchain_zc_parser.Cursor.Format.{
  Decodes, IsValid, unread, advance, length-unread, unread-IsByte,
}
use blockchain_zc_parser.Cursor.Reads.{
  read_u16_le-Decodes, read_u32_le-Decodes, Byte, read_u8-Decodes,
}
use blockchain_zc_parser.Cursor.Words.{Word, read_bytes_short, read_bytes_enough}
use blockchain_zc_parser.Cursor.Checks.{change-Decodes}
use blockchain_zc_parser.Script.Instructions.{pushdata_len, push_len, push}
use blockchain_zc_parser.Script.Reader.{operand, place, pushed, yielded}

plus_minus : (a b : ℕ) → a + b - a ≡ b
plus_minus a b = omega arith

module _ (t : Target) (opcode : ℕ) (c : Cursor) (v : IsValid t c) where
  -- The iterator's own offset does not matter: the length carries the new one.
  push-pushed :
      (n pos : ℕ)
      → push opcode (some (ok n, c.pos)) (record (place c) { pos = pos }) ≡ yielded (pushed t n c)
  unfolding push pushed
  push-pushed n pos = by_length (omega arith)
    where
      by_length :
          (c.pos + n ≤ length c.bytes) ⊎ (length c.bytes < c.pos + n)
          → push opcode (some (ok n, c.pos)) (record (place c) { pos = pos })
            ≡ yielded (pushed t n c)
      by_length (inl h) = rw (
        read_bytes_enough t n c v h,
        le→ltb (length c.bytes - c.pos) n (omega arith),
        le→leb c.pos (c.pos + n) (omega arith),
        le→leb (c.pos + n) (length c.bytes) h,
        plus_minus c.pos n,
      )
      by_length (inr h) =
          rw (read_bytes_short t n c v h, lt→ltb (length c.bytes - c.pos) n (omega (arith, v.fits)))

  pushdata_len-enough :
      (width : ℕ)
      → c.pos + width ≤ length c.bytes
      → pushdata_len width c.bytes c.pos
        ≡ (ok (from_le_bytes (take width (unread c))), c.pos + width)
  unfolding pushdata_len
  pushdata_len-enough width h = rw (
    le→ltb (length c.bytes - c.pos) width (omega arith),
    le→leb c.pos (c.pos + width) (omega arith),
    le→leb (c.pos + width) (length c.bytes) h,
    plus_minus c.pos width,
  )

  pushdata_len-short :
      (width : ℕ)
      → length c.bytes < c.pos + width
      → pushdata_len width c.bytes c.pos ≡ (err (unexpected_eof width (remaining c)), c.pos)
  unfolding pushdata_len
  pushdata_len-short width h = rw (lt→ltb (length c.bytes - c.pos) width (omega (arith, v.fits)))

  -- A read of a number of so many bytes.
  abbrev Reads : ℕ → Action Cursor ℕ → Type 0
  Reads width p =
      ((c.pos + width ≤ length c.bytes)
        × (p c ≡ (ok (from_le_bytes (take width (unread c))), advance c width)))
      ⊎ ((length c.bytes < c.pos + width) × (p c ≡ (err (unexpected_eof width (remaining c)), c)))

-- The length of a push, whichever method reads it.
push-pushdata_len :
    (t : Target) (opcode : ℕ) (c : Cursor) (v : IsValid t c) (width pos : ℕ) (p : Action Cursor ℕ)
    → Reads t opcode c v width p
    → push opcode (some (pushdata_len width c.bytes c.pos)) (record (place c) { pos = pos })
      ≡ yielded ((p >>= pushed t) c)
unfolding push
push-pushdata_len t opcode c v width pos p (inr (h, e)) =
    rw (pushdata_len-short t opcode c v width h, e)
push-pushdata_len t opcode c v width pos p (inl (h, e)) =
    rw (pushdata_len-enough t opcode c v width h, e)
      (push-pushed t opcode (advance c width)
        (record { fits = h; small = v.small; octets = v.octets })
        (from_le_bytes (take width (unread c))) pos)

module _ (t : Target) (opcode : ℕ) (c : Cursor) (v : IsValid t c) where
  words :
      (width : ℕ) (p : Action Cursor ℕ)
      → Decodes t p (Word width from_le_bytes)
      → (length c.bytes < c.pos + width → p c ≡ (err (unexpected_eof width (remaining c)), c))
      → Reads t opcode c v width p
  words width p d short = by_length (omega arith)
    where
      by_length :
          (c.pos + width ≤ length c.bytes) ⊎ (length c.bytes < c.pos + width)
          → Reads t opcode c v width p
      by_length (inr h) = inr (h, short h)
      by_length (inl h) = inl (
        h,
        d.complete c (from_le_bytes (take width (unread c))) (take width (unread c))
              (drop width (unread c)) v (long, All-take IsByte width _ (unread-IsByte t c v), refl)
              (sym (take-append-drop width (unread c)))
            ∙ ap (λ n. (ok (from_le_bytes (take width (unread c))), advance c n)) long,
      )
        where
          long : length (take width (unread c)) ≡ width
          long = omega (arith, length-take width (unread c), length-unread t c v)

  read_u16_le-Reads : Reads t opcode c v 2 (read_u16_le t)
  unfolding read_u16_le
  read_u16_le-Reads = words 2 (read_u16_le t) (read_u16_le-Decodes t) short
    where
      short :
          length c.bytes < c.pos + 2 → read_u16_le t c ≡ (err (unexpected_eof 2 (remaining c)), c)
      short h = rw (read_bytes_short t 2 c v h)

  read_u32_le-Reads : Reads t opcode c v 4 (read_u32_le t)
  unfolding read_u32_le
  read_u32_le-Reads = words 4 (read_u32_le t) (read_u32_le-Decodes t) short
    where
      short :
          length c.bytes < c.pos + 4 → read_u32_le t c ≡ (err (unexpected_eof 4 (remaining c)), c)
      short h = rw (read_bytes_short t 4 c v h)

  read_u8-Reads : Reads t opcode c v 1 read_u8
  unfolding read_u8
  read_u8-Reads = words 1 read_u8 byte short
    where
      short : length c.bytes < c.pos + 1 → read_u8 c ≡ (err (unexpected_eof 1 (remaining c)), c)
      short h =
          rw (le→leb (length c.bytes) c.pos (omega arith))
            (ap (λ n. (err (unexpected_eof 1 n), c)) (omega arith))

      there : (b : ℕ) (bs : List ℕ) → Byte b bs → Word 1 from_le_bytes b bs
      there b bs (o, e) = rw e (refl, (o, tt), omega arith)

      back : (b : ℕ) (bs : List ℕ) → Word 1 from_le_bytes b bs → Byte b bs
      back b [] (l, o, e) = absurd (omega (arith, l))
      back b (x ∷ []) (l, (o, _), e) = (rw (same) o, ap (λ k. k ∷ []) (sym same))
        where
          same : b ≡ x
          same = omega (arith, e)
      back b (x ∷ y ∷ bs) (l, o, e) = absurd (omega (arith, l))

      byte : Decodes t read_u8 (Word 1 from_le_bytes)
      byte = change-Decodes t (read_u8-Decodes t) there back

  pub push-operand :
      (pos : ℕ)
      → pos + 1 ≡ c.pos
      → push opcode (push_len opcode c.bytes c.pos) (record (place c) { pos = pos })
        ≡ yielded (operand t opcode c)
  unfolding push_len operand push
  push-operand pos e = zero (Bool-cases (opcode == 0x00))
    where
      goal : Type 0
      goal =
          push opcode (push_len opcode c.bytes c.pos) (record (place c) { pos = pos })
          ≡ yielded (operand t opcode c)

      four :
          (opcode == 0x00) ≡ false
          → leb opcode 0x4b ≡ false
          → (opcode == 0x4c) ≡ false
          → (opcode == 0x4d) ≡ false
          → ((opcode == 0x4e) ≡ true) ⊎ ((opcode == 0x4e) ≡ false)
          → goal
      four h₀ h₁ h₂ h₃ (inl h) =
          rw (h₀, h₁, h₂, h₃, h)
            (push-pushdata_len t opcode c v 4 pos (read_u32_le t) read_u32_le-Reads)
      four h₀ h₁ h₂ h₃ (inr h) = rw (h₀, h₁, h₂, h₃, h, e) refl

      two :
          (opcode == 0x00) ≡ false
          → leb opcode 0x4b ≡ false
          → (opcode == 0x4c) ≡ false
          → ((opcode == 0x4d) ≡ true) ⊎ ((opcode == 0x4d) ≡ false)
          → goal
      two h₀ h₁ h₂ (inl h) =
          rw (h₀, h₁, h₂, h)
            (push-pushdata_len t opcode c v 2 pos (read_u16_le t) read_u16_le-Reads)
      two h₀ h₁ h₂ (inr h) = four h₀ h₁ h₂ h (Bool-cases (opcode == 0x4e))

      one :
          (opcode == 0x00) ≡ false
          → leb opcode 0x4b ≡ false
          → ((opcode == 0x4c) ≡ true) ⊎ ((opcode == 0x4c) ≡ false)
          → goal
      one h₀ h₁ (inl h) =
          rw (h₀, h₁, h) (push-pushdata_len t opcode c v 1 pos read_u8 read_u8-Reads)
      one h₀ h₁ (inr h) = two h₀ h₁ h (Bool-cases (opcode == 0x4d))

      direct :
          (opcode == 0x00) ≡ false → (leb opcode 0x4b ≡ true) ⊎ (leb opcode 0x4b ≡ false) → goal
      direct h₀ (inl h) = rw (h₀, h) (push-pushed t opcode c v opcode pos)
      direct h₀ (inr h) = one h₀ h (Bool-cases (opcode == 0x4c))

      zero : ((opcode == 0x00) ≡ true) ⊎ ((opcode == 0x00) ≡ false) → goal
      zero (inl h) = rw ((==_iff opcode 0).0 h) (push-pushed t 0 c v 0 pos)
      zero (inr h) = direct h (Bool-cases (leb opcode 0x4b))

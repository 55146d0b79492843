-- ===== src/Cursor.antt =====
-- src/cursor.rs: the cursor over a byte slice, method by method. `bytes` is the field `data`.
pub mod Accepted
pub mod Format
pub mod Rules
pub mod Triples
pub mod Checks
pub mod Words
pub mod Reads
pub mod VarInt
use blockchain_zc_parser.Base.{
  ℕ, ◌+◌, ◌-◌, ◌≤◌, List, Bool, Option, none, some, length, drop, leb, ltb, ◌==◌, if◌then◌else◌,
}
use blockchain_zc_parser.Base.Int.{ℤ}
use blockchain_zc_parser.Error.{ParseResult, ok, err, fault, unexpected_eof, oversized_data}
use blockchain_zc_parser.Action.{Action, pure, fail, lift, after, ◌>>=◌, ◌>>◌, refuse_if}
use blockchain_zc_parser.Target.{Target, usize_max, checked_add, to_usize}
use blockchain_zc_parser.Bytes.{byte_at, slice, array_of, from_le_bytes, signed}

pub record Cursor : Type 0 where
  pub bytes : List ℕ
  pub pos : ℕ

abbrev pub new : List ℕ → Cursor
new xs = record { bytes = xs; pos = 0 }

abbrev pub position : Cursor → ℕ
position c = c.pos

-- `saturating_sub` is the subtraction of ℕ.
abbrev pub remaining : Cursor → ℕ
remaining c = length c.bytes - c.pos

abbrev pub is_empty : Cursor → Bool
is_empty c = leb (length c.bytes) c.pos

-- `&self.data[self.pos..]` panics behind the end.
abbrev pub as_slice : Cursor → ParseResult (List ℕ)
as_slice c = slice c.bytes c.pos (length c.bytes)

unfoldable pub read_u8 : Action Cursor ℕ
read_u8 c =
    if leb (length c.bytes) c.pos
    then (err (unexpected_eof 1 0), c)
    else (byte_at c.bytes c.pos, record c { pos = c.pos + 1 })

module _ (t : Target) where
  -- `get_unchecked(self.pos..end)` is the access of a slice, with undefined behaviour for `fault`.
  unfoldable pub read_bytes : ℕ → Action Cursor (List ℕ)
  read_bytes n c = elim (checked_add t c.pos n) [
    | none ↦ (err (unexpected_eof n (remaining c)), c)
    | some end ↦
        if ltb (length c.bytes) end
        then (err (unexpected_eof n (remaining c)), c)
        else (slice c.bytes c.pos end, record c { pos = end })
  ]

  unfoldable pub read_u16_le : Action Cursor ℕ
  read_u16_le = do bs ← read_bytes 2; a ← lift (array_of 2 bs); pure (from_le_bytes a)

  unfoldable pub read_u32_le : Action Cursor ℕ
  read_u32_le = do bs ← read_bytes 4; a ← lift (array_of 4 bs); pure (from_le_bytes a)

  unfoldable pub read_i32_le : Action Cursor ℤ
  read_i32_le = do bs ← read_bytes 4; a ← lift (array_of 4 bs); pure (signed 32 (from_le_bytes a))

  unfoldable pub read_u64_le : Action Cursor ℕ
  read_u64_le = do bs ← read_bytes 8; a ← lift (array_of 8 bs); pure (from_le_bytes a)

  unfoldable pub read_i64_le : Action Cursor ℤ
  read_i64_le = do bs ← read_bytes 8; a ← lift (array_of 8 bs); pure (signed 64 (from_le_bytes a))

  -- A byte above 0xfe is 0xff.
  unfoldable pub read_varint : Action Cursor ℕ
  read_varint = do
    v ← read_u8
    if leb v 0xfc
        then pure v
        else if v == 0xfd
        then read_u16_le
        else if v == 0xfe
        then read_u32_le
        else read_u64_le

  unfoldable pub read_var_bytes : ℕ → Action Cursor (List ℕ)
  read_var_bytes max = do
    len_u64 ← read_varint
    len ← lift (to_usize t len_u64)
    refuse_if (ltb max len) (oversized_data len max)
    read_bytes len

  unfoldable pub read_array : ℕ → Action Cursor (List ℕ)
  read_array n = do bs ← read_bytes n; lift (array_of n bs)

  unfoldable pub skip : ℕ → Action Cursor (Unit {0})
  skip n = do _ ← read_bytes n; pure tt

  unfoldable pub split : ℕ → Action Cursor Cursor
  split n = do bs ← read_bytes n; pure (new bs)

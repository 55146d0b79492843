-- ===== src/Script/Reader.antt =====
-- A parser over the cursor for one instruction of a script.
use blockchain_zc_parser.Base.{ℕ, true, false, ◌==◌, leb, if◌then◌else◌, Option, some}
use blockchain_zc_parser.Error.{ParseResult, ok, err, fault}
use blockchain_zc_parser.Action.{Action, pure, ◌>>=◌}
use blockchain_zc_parser.Target.{Target}
use blockchain_zc_parser.Cursor.{Cursor, read_bytes, read_u8, read_u16_le, read_u32_le}
use blockchain_zc_parser.Script.Instructions.{Instruction, push_bytes, op, Instructions}

module _ (t : Target) where
  -- A push of `n` bytes.
  unfoldable pub pushed : ℕ → Action Cursor Instruction
  pushed n = do bs ← read_bytes t n; pure (push_bytes bs)

  -- What is read behind an opcode.
  unfoldable pub operand : ℕ → Action Cursor Instruction
  operand opcode =
      if leb opcode 0x4b
      then pushed opcode
      else if opcode == 0x4c
      then (read_u8 >>= pushed)
      else if opcode == 0x4d
      then (read_u16_le t >>= pushed)
      else if opcode == 0x4e
      then (read_u32_le t >>= pushed)
      else pure (op opcode)

  unfoldable pub read_instruction : Action Cursor Instruction
  read_instruction = read_u8 >>= operand

-- The iterator on a cursor's place.
abbrev pub place : Cursor → Instructions
place c = record { bytes = c.bytes; pos = c.pos; errored = false }

-- What the iterator makes of a parser's run.
abbrev pub yielded :
    ParseResult Instruction × Cursor → Option (ParseResult Instruction) × Instructions
yielded (ok i, c) = (some (ok i), place c)
yielded (err e, c) = (some (err e), record (place c) { errored = true })
yielded (fault, c) = (some fault, place c)

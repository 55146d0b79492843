-- ===== src/Script/Instructions.antt =====
-- The iterator over a script's instructions. `bytes` is the field `data`.
use blockchain_zc_parser.Base.{
  ℕ, ◌+◌, ◌-◌, List, Bool, true, false, ◌||◌, ◌==◌, leb, ltb, if◌then◌else◌, Option, none, some,
  length,
}
use blockchain_zc_parser.Error.{ParseResult, ok, err, fault, and_then, unexpected_eof}
use blockchain_zc_parser.Bytes.{byte_at, slice, from_le_bytes}

pub data Instruction : Type 0 where
  push_bytes : List ℕ → Instruction
  op : ℕ → Instruction

pub record Instructions : Type 0 where
  pub bytes : List ℕ
  pub pos : ℕ
  pub errored : Bool

-- `Script::instructions`, of the script's bytes
abbrev pub instructions : List ℕ → Instructions
instructions bytes = record { bytes = bytes; pos = 0; errored = false }

-- The length of `width` bytes behind OP_PUSHDATA, and the offset behind it.
unfoldable pub pushdata_len : ℕ → List ℕ → ℕ → ParseResult ℕ × ℕ
pushdata_len width bytes pos =
    let avail = length bytes - pos in
    if ltb avail width
    then (err (unexpected_eof width avail), pos)
    else (and_then (slice bytes pos (pos + width)) (λ a. ok (from_le_bytes a)), pos + width)

-- The number of bytes that follow, or none for a plain opcode.
unfoldable pub push_len : ℕ → List ℕ → ℕ → Option (ParseResult ℕ × ℕ)
push_len opcode bytes pos =
    if opcode == 0x00
    then some (ok 0, pos)
    else if leb opcode 0x4b
    then some (ok opcode, pos)
    else if opcode == 0x4c
    then some (pushdata_len 1 bytes pos)
    else if opcode == 0x4d
    then some (pushdata_len 2 bytes pos)
    else if opcode == 0x4e
    then some (pushdata_len 4 bytes pos)
    else none

-- The match on the length.
unfoldable pub push :
    ℕ → Option (ParseResult ℕ × ℕ) → Instructions → Option (ParseResult Instruction) × Instructions
push opcode none it = (some (ok (op opcode)), record it { pos = it.pos + 1 })
push opcode (some (err e, pos)) it = (some (err e), record it { pos = pos; errored = true })
push opcode (some (fault, pos)) it = (some fault, record it { pos = pos })
push opcode (some (ok n, pos)) it =
    let avail = length it.bytes - pos in
    if ltb avail n
    then (some (err (unexpected_eof n avail)), record it { pos = pos; errored = true })
    else (
      some (and_then (slice it.bytes pos (pos + n)) λ bs. ok (push_bytes bs)),
      record it { pos = pos + n },
    )

unfoldable pub next : Instructions → Option (ParseResult Instruction) × Instructions
next it =
    if it.errored || leb (length it.bytes) it.pos
    then (none, it)
    else elim (byte_at it.bytes it.pos) [
      | ok opcode ↦ push opcode (push_len opcode it.bytes (it.pos + 1)) it
      | err e ↦ (some (err e), it)
      | fault ↦ (some fault, it)
    ]

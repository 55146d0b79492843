-- ===== src/Script/Collect.antt =====
-- A script's instructions from the first to the last: `for i in script.instructions()`, up to an error.
use blockchain_zc_parser.Base.{
  ℕ, zero, suc, ◌≤◌, ◌<◌, ◌≡◌, ◌⊎◌, inl, inr, refl, ap, List, [], ◌∷◌, ◌++◌, length, length-append,
  le→leb, Option, none, some, arith,
}
use blockchain_zc_parser.Error.{ParseError, ParseResult, ok, err, fault, and_then}
use blockchain_zc_parser.Target.{Target}
use blockchain_zc_parser.Cursor.{Cursor}
use blockchain_zc_parser.Cursor.Format.{Ran, IsValid, unread, advance, length-unread}
use blockchain_zc_parser.Cursor.Checks.{Many}
use blockchain_zc_parser.Script.Instructions.{Instruction, Instructions, next}
use blockchain_zc_parser.Script.Reader.{read_instruction, place, yielded}
use blockchain_zc_parser.Script.Encoding.{InstructionFormat, read_instruction-Decodes}
use blockchain_zc_parser.Script.Iterate.{next-read_instruction}

-- The loop, with fuel; `fault` says that the fuel ran out.
unfoldable pub more_instructions :
    (Instructions → ParseResult (List Instruction))
    → Option (ParseResult Instruction) × Instructions
    → ParseResult (List Instruction)
more_instructions again (none, it) = ok []
more_instructions again (some (ok i), it) = and_then (again it) λ is. ok (i ∷ is)
more_instructions again (some (err e), it) = err e
more_instructions again (some fault, it) = fault

unfoldable pub collect : ℕ → Instructions → ParseResult (List Instruction)
unfolding more_instructions
collect zero it = fault
collect (suc fuel) it = more_instructions (collect fuel) (next it)

-- What a call says: the end of the script, an instruction, or an error.
pub data Yields (c : Cursor) : Option (ParseResult Instruction) × Instructions → Type 0 where
  ended : {k : Instructions} → unread c ≡ [] → Yields c (none, k)
  found :
      {d : Instructions} (i : Instruction) (bs rest : List ℕ)
      → InstructionFormat i bs
      → unread c ≡ bs ++ rest
      → d ≡ place (advance c (length bs))
      → Yields c (some (ok i), d)
  failed : {e : ParseError} {d : Instructions} → Yields c (some (err e), d)

pub unread-nil : (t : Target) (c : Cursor) → IsValid t c → length c.bytes ≤ c.pos → unread c ≡ []
unread-nil t c v h = go (unread c) refl
  where
    go : (l : List ℕ) → unread c ≡ l → l ≡ []
    go [] e = refl
    go (x ∷ xs) e = absurd (omega (arith, ap length e, length-unread t c v))

module _ (t : Target) (c : Cursor) (v : IsValid t c) where
  pub next-none : length c.bytes ≤ c.pos → next (place c) ≡ (none, place c)
  unfolding next
  next-none h = rw (le→leb (length c.bytes) c.pos h)

  yielded-Yields :
      (r : ParseResult Instruction × Cursor)
      → Ran InstructionFormat c r.0 r.1
      → Yields c (yielded r)
  yielded-Yields (ok i, d) (Ran.accepted bs rest f e m) = found i bs rest f e (ap place m)
  yielded-Yields (err x, d) h = failed
  yielded-Yields (fault, d) h = elim h [ ]

  pub next-Yields : Yields c (next (place c))
  next-Yields = go (omega arith)
    where
      go : (length c.bytes ≤ c.pos) ⊎ (c.pos < length c.bytes) → Yields c (next (place c))
      go (inl h) = rw (next-none h) (ended (unread-nil t c v h))
      go (inr h) =
          rw (next-read_instruction t c v (unread c) refl h)
            (yielded-Yields (read_instruction t c) ((read_instruction-Decodes t).sound c v))

-- An instruction takes at least its opcode.
pub format-ge : (i : Instruction) (bs : List ℕ) → InstructionFormat i bs → 1 ≤ length bs
format-ge i bs (b, xs, ys, (o, e), f, q) =
    omega (arith, ap length q, length-append xs ys, ap length e)

pub instructions_length :
    (is : List Instruction) (bs : List ℕ) → Many InstructionFormat is bs → length is ≤ length bs
instructions_length [] bs e = omega arith
instructions_length (i ∷ is) bs (xs, ys, f, many, e) =
    omega
      (arith, instructions_length is ys many, ap length e, length-append xs ys, format-ge i xs f)

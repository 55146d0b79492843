-- ===== src/Script/Iterate.antt =====
-- The iterator over a script's instructions, call by call.
use blockchain_zc_parser.Base.{
  ℕ, ◌<◌, ◌≡◌, ◌≢◌, ◌↔◌, refl, sym, ap, ◌∙◌, List, [], ◌∷◌, length, lt→leb, get_elem?-drop, none,
  some, arith,
}
use blockchain_zc_parser.Error.{ParseError, ParseResult, ok, err, fault}
use blockchain_zc_parser.Target.{Target}
use blockchain_zc_parser.Cursor.{Cursor}
use blockchain_zc_parser.Cursor.Format.{Ran, IsValid, unread, advance, length-unread}
use blockchain_zc_parser.Cursor.Reads.{read_u8_cons}
use blockchain_zc_parser.Cursor.Accepted.{Begins, Decodes-iff}
use blockchain_zc_parser.Script.Instructions.{Instruction, next}
use blockchain_zc_parser.Script.Opcodes.{push-operand}
use blockchain_zc_parser.Script.Reader.{read_instruction, place, yielded}
use blockchain_zc_parser.Script.Encoding.{InstructionFormat, read_instruction-Decodes}

module _ (t : Target) (c : Cursor) (v : IsValid t c) where
  pub next-read_instruction :
      (l : List ℕ)
      → unread c ≡ l
      → c.pos < length c.bytes
      → next (place c) ≡ yielded (read_instruction t c)
  unfolding next read_instruction
  next-read_instruction [] u h = absurd (omega (arith, ap length u, length-unread t c v))
  next-read_instruction (b ∷ rest) u h =
      rw
        (
          read_u8_cons t c v b rest u,
          lt→leb (length c.bytes) c.pos h,
          get_elem?-drop c.pos c.bytes b rest u,
        )
        (push-operand t b (advance c 1)
          (record { fits = omega arith; small = v.small; octets = v.octets }) c.pos refl)

  yielded-inv :
      (r : ParseResult Instruction × Cursor) (i : Instruction) (c' : Cursor)
      → yielded r ≡ (some (ok i), place c')
      → r ≡ (ok i, c')
  yielded-inv (ok j, d) i c' q =
      (λ k. (same k, record { bytes = (q k).1.bytes; pos = (q k).1.pos }))
    where
      same : ok j ≡ ok i
      same = cc
  yielded-inv (err e, d) i c' q = absurd (cc)
  yielded-inv (fault, d) i c' q = absurd (cc)

  -- With a byte left, the iterator yields the instruction `i` and stands at `c'`, not stopped, exactly
  -- when the unread bytes begin with an encoding of `i` and `c'` stands behind it: an opcode up to 0x4b
  -- and as many bytes, OP_PUSHDATA1, 2 or 4 with a length in so many bytes and as many bytes, or a plain
  -- opcode. The cursor of the place is valid.
  pub next_iff :
      (i : Instruction) (c' : Cursor)
      → c.pos < length c.bytes
      → (next (place c) ≡ (some (ok i), place c')) ↔ Begins InstructionFormat c i c'
  next_iff i c' h = (
    λ q. (Decodes-iff (read_instruction-Decodes t) c v i c').0 (
        yielded-inv (read_instruction t c) i c'
          (sym (next-read_instruction (unread c) refl h) ∙ q)),
    λ b.
        next-read_instruction (unread c) refl h
        ∙ ap yielded ((Decodes-iff (read_instruction-Decodes t) c v i c').1 b),
  )

  ran :
      (r : ParseResult Instruction × Cursor)
      → Ran InstructionFormat c r.0 r.1
      → ((yielded r).0 ≢ some fault)
        × ((e : ParseError)
            → (yielded r).0 ≡ some (err e)
            → next (yielded r).1 ≡ (none, (yielded r).1))
  unfolding next
  ran (ok i, d) h = (λ q. cc, λ e q. absurd (cc))
  ran (err x, d) h = (λ q. cc, λ e q. refl)
  ran (fault, d) h = elim h [ ]

  -- With a byte left, a call of the iterator never panics, and when it yields an error, the next call
  -- yields nothing more and changes nothing. The cursor of the place is valid.
  pub next_safe :
      c.pos < length c.bytes
      → ((next (place c)).0 ≢ some fault)
        × ((e : ParseError)
            → (next (place c)).0 ≡ some (err e)
            → next (next (place c)).1 ≡ (none, (next (place c)).1))
  next_safe h =
      rw (next-read_instruction (unread c) refl h)
        (ran (read_instruction t c) ((read_instruction-Decodes t).sound c v))

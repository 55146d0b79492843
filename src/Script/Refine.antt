-- ===== src/Script/Refine.antt =====
-- What the iterator over a script's instructions promises, without offsets: the bytes that are left, or
-- that it has stopped.
use blockchain_zc_parser.Base.{
  ℕ, ◌≤◌, ◌<◌, ◌≡◌, ◌≢◌, ◌⊎◌, inl, inr, refl, sym, ap, ◌∙◌, subst, List, [], ◌++◌, length, Bool,
  true, false, if◌then◌else◌, Option, none, some, arith,
}
use blockchain_zc_parser.Error.{ParseError, ParseResult, ok, err, fault}
use blockchain_zc_parser.Target.{Target}
use blockchain_zc_parser.Cursor.{Cursor}
use blockchain_zc_parser.Cursor.Format.{
  Ran, IsValid, unread, length-unread, unread-advance, advance-IsValid,
}
use blockchain_zc_parser.Script.Instructions.{Instruction, Instructions, next}
use blockchain_zc_parser.Script.Reader.{read_instruction, place, yielded}
use blockchain_zc_parser.Script.Encoding.{InstructionFormat, read_instruction-Decodes}
use blockchain_zc_parser.Script.Iterate.{next-read_instruction}
use blockchain_zc_parser.Script.Collect.{unread-nil, next-none}

pub data View : Type 0 where
  reading : List ℕ → View
  stopped : View

-- A call: nothing at the end, the instruction that the bytes begin with, an error when they begin with
-- none, and nothing ever after that.
pub data Step : View → Option (ParseResult Instruction) → View → Type 0 where
  at_end : Step (reading []) none (reading [])
  instruction :
      {i : Instruction} {l : List ℕ} (xs rest : List ℕ)
      → InstructionFormat i xs
      → l ≡ xs ++ rest
      → Step (reading l) (some (ok i)) (reading rest)
  malformed :
      {e : ParseError} {l : List ℕ}
      → l ≢ []
      → ((i : Instruction) (xs rest : List ℕ) → InstructionFormat i xs → l ≢ xs ++ rest)
      → Step (reading l) (some (err e)) stopped
  silent : Step stopped none stopped

abbrev pub cursor_of : Instructions → Cursor
cursor_of it = record { bytes = it.bytes; pos = it.pos }

abbrev pub view : Instructions → View
view it = if it.errored then stopped else reading (unread (cursor_of it))

-- A call from `it` with this result implements a call of the view, and keeps the iterator's slice valid.
abbrev pub Implements :
    Target → Instructions → Option (ParseResult Instruction) × Instructions → Type 0
Implements t it (r, it') = Step (view it) r (view it') × IsValid t (cursor_of it')

module _ (t : Target) where
  yielded-Step :
      (c : Cursor)
      → IsValid t c
      → c.pos < length c.bytes
      → (r : ParseResult Instruction × Cursor) → Ran InstructionFormat c r.0 r.1
      → read_instruction t c ≡ r
      → Implements t (place c) (yielded r)
  yielded-Step c v h (ok i, d) (Ran.accepted bs rest f u m) q = (
    subst (λ l. Step (reading (unread c)) (some (ok i)) (reading l)) (sym behind)
        (instruction bs rest f u),
    subst (IsValid t) (sym m) (advance-IsValid t c v bs rest u),
  )
    where
      behind : unread d ≡ rest
      behind = ap unread m ∙ unread-advance t c v bs rest u
  yielded-Step c v h (err x, d) (Ran.rejected b lo hi) q = (
    malformed (λ n. omega (arith, ap length n, length-unread t c v))
        (λ i xs rest f u. cc (q, (read_instruction-Decodes t).complete c i xs rest v f u)),
    record { fits = omega (arith, hi, ap length b); small = rw b v.small; octets = rw b v.octets },
  )
  yielded-Step c v h (fault, d) p q = elim p [ ]

  place-Step : (c : Cursor) → IsValid t c → Implements t (place c) (next (place c))
  place-Step c v = go (omega arith)
    where
      go :
          (length c.bytes ≤ c.pos) ⊎ (c.pos < length c.bytes)
          → Implements t (place c) (next (place c))
      go (inl h) = rw (next-none t c v h, unread-nil t c v h) (at_end, v)
      go (inr h) =
          rw (next-read_instruction t c v (unread c) refl h) (
            yielded-Step c v h (read_instruction t c) ((read_instruction-Decodes t).sound c v) refl)

  next-silent : (it : Instructions) → it.errored ≡ true → next it ≡ (none, it)
  unfolding next
  next-silent it h = rw h

  -- The iterator implements its abstract view, the bytes left or a stop: at the end it yields nothing;
  -- where the bytes begin with an instruction it yields that and leaves the rest; where they begin with
  -- none it yields an error and stops; stopped, it yields nothing. It never panics, and the slice stays
  -- that of a valid cursor, as it is before the call.
  pub next-Step :
      (it : Instructions)
      → IsValid t (cursor_of it)
      → Step (view it) (next it).0 (view (next it).1) × IsValid t (cursor_of (next it).1)
  next-Step it v = go it.errored refl
    where
      go : (b : Bool) → it.errored ≡ b → Implements t it (next it)
      go true h = rw (next-silent it h, h) (silent, v)
      go false h = subst (λ k. Implements t k (next k)) same (place-Step (cursor_of it) v)
        where
          same : place (cursor_of it) ≡ it
          same = λ k. record { bytes = it.bytes; pos = it.pos; errored = sym h k }

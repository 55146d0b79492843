-- ===== src/Script/Walk.antt =====
-- The loop over a script's instructions: what it yields, and that it ends.
use blockchain_zc_parser.Base.{
  ℕ, zero, suc, ◌<◌, ◌≡◌, ◌≢◌, ◌↔◌, refl, ap, ◌∙◌, subst, List, [], ◌∷◌, ◌++◌, length,
  length-append, Option, none, some, arith,
}
use blockchain_zc_parser.Error.{ParseResult, ok, err, fault, and_then}
use blockchain_zc_parser.Target.{Target}
use blockchain_zc_parser.Cursor.{Cursor, new}
use blockchain_zc_parser.Cursor.Format.{
  IsValid, unread, advance, length-unread, unread-advance, advance-IsValid,
}
use blockchain_zc_parser.Cursor.Checks.{Many}
use blockchain_zc_parser.Script.Instructions.{Instruction, Instructions, instructions, next}
use blockchain_zc_parser.Script.Reader.{place, yielded}
use blockchain_zc_parser.Script.Encoding.{InstructionFormat, read_instruction-Decodes}
use blockchain_zc_parser.Script.Iterate.{next-read_instruction}
use blockchain_zc_parser.Script.Collect.{
  Yields, collect, ended, format-ge, found, instructions_length, more_instructions, next-Yields,
  next-none,
}

module _ (t : Target) where
  step_sound :
      (fuel : ℕ) (c : Cursor) (is : List Instruction)
      → IsValid t c
      → (d : Option (ParseResult Instruction) × Instructions) → Yields c d
      → more_instructions (collect fuel) d ≡ ok is
      → ((k : Cursor) (js : List Instruction)
          → IsValid t k
          → collect fuel (place k) ≡ ok js
          → Many InstructionFormat js (unread k))
      → Many InstructionFormat is (unread c)
  unfolding more_instructions
  step_sound fuel c is v (none, k) (ended u) h ih = rw (u, ok_nil is h)
    where
      ok_nil : (l : List Instruction) → ok [] ≡ ok l → l ≡ []
      ok_nil l p = cc
  step_sound fuel c is v (some (ok i), k) (found _ bs rest f u e) h ih =
      go (collect fuel (place (advance c (length bs)))) refl (rw e at h)
    where
      go :
          (r : ParseResult (List Instruction))
          → collect fuel (place (advance c (length bs))) ≡ r
          → and_then r (λ more. ok (i ∷ more)) ≡ ok is
          → Many InstructionFormat is (unread c)
      go (ok more) q p =
          rw (← (ok_cons is p), u)
            (
              bs,
              rest,
              f,
              subst (Many InstructionFormat more) (unread-advance t c v bs rest u)
                  (ih (advance c (length bs)) more (advance-IsValid t c v bs rest u) q),
              refl,
            )
        where
          ok_cons : (l : List Instruction) → ok (i ∷ more) ≡ ok l → i ∷ more ≡ l
          ok_cons l w = cc
      go (err x) q p = absurd (cc)
      go fault q p = absurd (cc)
  step_sound fuel c is v (some (err x), k) p h ih = absurd (cc)
  step_sound fuel c is v (some fault, k) p h ih = absurd (cc)

  collect_sound :
      (fuel : ℕ) (c : Cursor) (is : List Instruction)
      → IsValid t c
      → collect fuel (place c) ≡ ok is
      → Many InstructionFormat is (unread c)
  unfolding collect
  collect_sound zero c is v h = absurd (cc)
  collect_sound (suc fuel) c is v h =
      step_sound fuel c is v (next (place c)) (next-Yields t c v) h
        (λ k js w e. collect_sound fuel k js w e)

  pub found_here :
      (c : Cursor) (i : Instruction) (bs rest : List ℕ)
      → IsValid t c
      → InstructionFormat i bs
      → unread c ≡ bs ++ rest
      → next (place c) ≡ (some (ok i), place (advance c (length bs)))
  found_here c i bs rest v f u =
      next-read_instruction t c v (unread c) refl
        (omega (arith, ap length u, length-append bs rest, format-ge i bs f, length-unread t c v))
      ∙ ap yielded ((read_instruction-Decodes t).complete c i bs rest v f u)

  collect_complete :
      (fuel : ℕ) (is : List Instruction) (c : Cursor)
      → IsValid t c
      → length is < fuel
      → Many InstructionFormat is (unread c)
      → collect fuel (place c) ≡ ok is
  unfolding collect more_instructions
  collect_complete zero is c v l many = absurd (omega arith)
  collect_complete (suc fuel) [] c v l many =
      rw (next-none t c v (omega (arith, ap length many, length-unread t c v)))
  collect_complete (suc fuel) (i ∷ is) c v l (xs, ys, f, many, u) = rw (
    found_here c i xs ys v f u,
    collect_complete fuel is (advance c (length xs)) (advance-IsValid t c v xs ys u) (omega arith)
        (rw (unread-advance t c v xs ys u) many),
  )

  step_ends :
      (fuel : ℕ) (c : Cursor)
      → IsValid t c
      → (d : Option (ParseResult Instruction) × Instructions) → Yields c d
      → ((k : Cursor)
          → IsValid t k
          → length (unread k) < length (unread c)
          → collect fuel (place k) ≢ fault)
      → more_instructions (collect fuel) d ≢ fault
  unfolding more_instructions
  step_ends fuel c v (none, k) y ih h = cc
  step_ends fuel c v (some (ok i), k) (found _ bs rest f u e) ih h =
      go (collect fuel (place (advance c (length bs)))) refl (rw e at h)
    where
      shorter : length (unread (advance c (length bs))) < length (unread c)
      shorter = omega (
        arith,
        ap length (unread-advance t c v bs rest u),
        ap length u,
        length-append bs rest,
        format-ge i bs f,
      )

      go :
          (r : ParseResult (List Instruction))
          → collect fuel (place (advance c (length bs))) ≡ r
          → and_then r (λ more. ok (i ∷ more)) ≡ fault
          → ⊥
      go (ok more) q p = cc
      go (err x) q p = cc
      go fault q p = ih (advance c (length bs)) (advance-IsValid t c v bs rest u) shorter q
  step_ends fuel c v (some (err x), k) y ih h = cc
  step_ends fuel c v (some fault, k) y ih h = elim y [ ]

  collect_ends :
      (fuel : ℕ) (c : Cursor)
      → IsValid t c
      → length (unread c) < fuel
      → collect fuel (place c) ≢ fault
  unfolding collect
  collect_ends zero c v l h = absurd (omega arith)
  collect_ends (suc fuel) c v l h =
      step_ends fuel c v (next (place c)) (next-Yields t c v)
        (λ k w m. collect_ends fuel k w (omega arith)) h

  -- Calling the iterator until it gives none yields the instructions `is` without an error exactly when
  -- the script is their encodings one behind the other, to its end. One call for each byte and one more
  -- are enough. The script is the slice of a valid cursor.
  pub collect_iff :
      (bs : List ℕ) (is : List Instruction)
      → IsValid t (new bs)
      → (collect (suc (length bs)) (instructions bs) ≡ ok is) ↔ Many InstructionFormat is bs
  collect_iff bs is v = (
    collect_sound (suc (length bs)) (new bs) is v,
    λ many.
        collect_complete (suc (length bs)) is (new bs) v
          (omega (arith, instructions_length is bs many)) many,
  )

  -- On any script, well-formed or not, the loop over its instructions ends without a panic, by the last
  -- instruction or by an error, within one call for each byte and one more. The script is the slice of a
  -- valid cursor.
  pub collect_total :
      (bs : List ℕ)
      → IsValid t (new bs)
      → (fuel : ℕ) → length bs < fuel
      → collect fuel (instructions bs) ≢ fault
  collect_total bs v fuel l = collect_ends fuel (new bs) v l

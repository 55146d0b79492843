-- ===== src/Action.antt =====
-- A method with `&mut self` that returns a `ParseResult`: a function of the state. An error keeps the
-- state that the method had reached, since `?` does not undo what was done before it.
pub mod Triple
use blockchain_zc_parser.Base.{ℕ, zero, suc, Bool, true, false}
use blockchain_zc_parser.Error.{ParseError, ParseResult, ok, err, fault}

abbrev pub Action : Type 0 → Type 0 → Type 0
Action S A = S → ParseResult A × S

module _ {S A B : Type 0} where
  -- What follows runs on a success, in the state reached.
  abbrev pub after : ParseResult A × S → (A → Action S B) → ParseResult B × S
  after (ok a, s) f = f a s
  after (err e, s) f = (err e, s)
  after (fault, s) f = (fault, s)

  infixl 5 ◌>>=◌ ◌>>◌
  abbrev pub ◌>>=◌ : Action S A → (A → Action S B) → Action S B
  ◌>>=◌ m f s = after (m s) f

  abbrev pub ◌>>◌ : Action S A → Action S B → Action S B
  m >> k = m >>= λ _. k

module _ {S A : Type 0} where
  abbrev pub pure : A → Action S A
  pure a s = (ok a, s)

  abbrev pub fail : ParseError → Action S A
  fail e s = (err e, s)

  -- A computation that reads no state.
  abbrev pub lift : ParseResult A → Action S A
  lift r s = (r, s)

-- `if bad { return Err(e); }`
abbrev pub refuse_if : {S : Type 0} → Bool → ParseError → Action S (Unit {0})
refuse_if true e = fail e
refuse_if false e = pure tt

-- `for _ in 0..n { body }`
unfoldable pub for_range : {S : Type 0} → ℕ → Action S (Unit {0}) → Action S (Unit {0})
for_range zero body = pure tt
for_range (suc n) body = body >> for_range n body

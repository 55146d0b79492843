-- ===== src/Action/Triple.antt =====
-- What an action keeps of its state, and what its values and its errors satisfy. It does not panic.
use blockchain_zc_parser.Base.{ℕ, zero, suc, ◌≡◌, refl, Bool, true, false, if◌then◌else◌}
use blockchain_zc_parser.Error.{ParseError, ParseResult, ok, err, fault}
use blockchain_zc_parser.Action.{Action, after, pure, lift, ◌>>=◌, refuse_if, for_range}

abbrev pub Ends : {A : Type 0} → (ParseError → Type 0) → (A → Type 0) → ParseResult A → Type 0
Ends E Q (ok a) = Q a
Ends E Q (err e) = E e
Ends E Q fault = ⊥

pub record Triple {X A : Type 0} (I : X → Type 0) (E : ParseError → Type 0) (Q : A → Type 0)
    (p : Action X A) : Type 0 where
  pub triple : (x : X) → I x → I (p x).1 × Ends E Q (p x).0

-- A value of which nothing is said.
abbrev pub Any : {A : Type 0} → A → Type 0
Any a = Unit {0}

module _ {X : Type 0} {I : X → Type 0} {E : ParseError → Type 0} where
  pub after_triple :
      {A B : Type 0} {Q : A → Type 0} {R : B → Type 0} {f : A → Action X B}
      → (d : ParseResult A × X) → I d.1
      → Ends E Q d.0
      → ((a : A) → Q a → Triple I E R (f a))
      → I (after d f).1 × Ends E R (after d f).0
  after_triple (ok a, x) i q k = (k a q).triple x i
  after_triple (err e, x) i q k = (i, q)
  after_triple (fault, x) i q k = (i, q)

  pub bind-Triple :
      {A B : Type 0} {Q : A → Type 0} {R : B → Type 0} {p : Action X A} {f : A → Action X B}
      → Triple I E Q p
      → ((a : A) → Q a → Triple I E R (f a))
      → Triple I E R (p >>= f)
  bind-Triple {p} h k = record {
    triple = λ x i. let (j, q) = h.triple x i in after_triple (p x) j q k;
  }

  pub lift-Triple :
      {A : Type 0} {Q : A → Type 0} (r : ParseResult A) → Ends E Q r → Triple I E Q (lift r)
  lift-Triple r h = record { triple = λ x i. (i, h) }

  pub pure-Triple : {A : Type 0} {Q : A → Type 0} (a : A) → Q a → Triple I E Q (pure a)
  pure-Triple a h = record { triple = λ x i. (i, h) }

  pub refuse_if-Triple :
      (b : Bool) (e : ParseError) → (b ≡ true → E e) → Triple I E (λ _. b ≡ false) (refuse_if b e)
  refuse_if-Triple true e h = record { triple = λ x i. (i, h refl) }
  refuse_if-Triple false e h = record { triple = λ x i. (i, refl) }

  pub for_range-Triple :
      {body : Action X (Unit {0})}
      → (n : ℕ) → Triple I E Any body
      → Triple I E Any (for_range n body)
  unfolding for_range
  for_range-Triple zero b = pure-Triple tt tt
  for_range-Triple (suc n) b = bind-Triple b (λ _ _. for_range-Triple n b)

  pub if-Triple :
      {A : Type 0} {Q : A → Type 0} {p q : Action X A}
      → (b : Bool) → Triple I E Q p
      → Triple I E Q q
      → Triple I E Q (if b then p else q)
  if-Triple true h k = h
  if-Triple false h k = k

  pub any-Triple :
      {A : Type 0} {Q : A → Type 0} {p : Action X A} → Triple I E Q p → Triple I E Any p
  any-Triple {A} {Q} {p} h = record {
    triple = λ x i. let (j, q) = h.triple x i in (j, any-Ends Q (p x).0 q);
  }
    where
      any-Ends : {A : Type 0} (Q : A → Type 0) (r : ParseResult A) → Ends E Q r → Ends E Any r
      any-Ends Q (ok a) q = tt
      any-Ends Q (err e) q = q
      any-Ends Q fault q = q

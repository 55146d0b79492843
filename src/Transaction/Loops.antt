-- ===== src/Transaction/Loops.antt =====
-- The loops of the streaming parser: read an element, hand it to a closure.
use blockchain_zc_parser.Base.{
  ℕ, zero, suc, ◌≡◌, ◌≢◌, refl, sym, ap, ◌∙◌, List, [], ◌∷◌, length, append-nil, arith,
}
use blockchain_zc_parser.Error.{ParseResult, ok, err, fault}
use blockchain_zc_parser.Action.{Action, pure, after, ◌>>=◌, ◌>>◌, for_range}
use blockchain_zc_parser.Target.{Target}
use blockchain_zc_parser.Cursor.{Cursor}
use blockchain_zc_parser.Cursor.Format.{Format, Decodes}
use blockchain_zc_parser.Cursor.Rules.{Nothing}
use blockchain_zc_parser.Cursor.Checks.{Many}
use blockchain_zc_parser.Transaction.{Callback, on_cursor, on_user}
use blockchain_zc_parser.Transaction.Stream.{
  StreamFormat, Streams, StreamThen, Quiet, Called, on_cursor-Streams, on_user-Streams,
}
use blockchain_zc_parser.Transaction.StreamRules.{bind-Streams, change-Streams, pure-Streams}

-- The closure over a list of elements, in order, up to its first error.
abbrev pub for_each : {S A : Type 0} → Callback S A → List A → Action S (Unit {0})
for_each on [] = pure tt
for_each on (a ∷ as') = on a >> for_each on as'

-- A closure that does not panic.
abbrev pub IsTotal : {S A : Type 0} → Callback S A → Type 0
IsTotal {S} {A} on = (a : A) (s : S) → (on a s).0 ≢ fault

-- `n` elements, all taken by the closure.
abbrev pub Each : {S A : Type 0} → ℕ → Format A → Callback S A → StreamFormat S (Unit {0})
Each {A} n F on _ s bs s' =
    (as' : List A) × (length as' ≡ n) × Many F as' bs × (for_each on as' s ≡ (ok tt, s'))

pub for_each-cons :
    {S A : Type 0} (on : Callback S A) (a : A) (as' : List A) (s m : S)
    → on a s ≡ (ok tt, m)
    → for_each on (a ∷ as') s ≡ for_each on as' m
for_each-cons on a as' s m e = rw e

for_each-uncons :
    {S A : Type 0} (on : Callback S A) (a : A) (as' : List A) (s s' : S)
    → for_each on (a ∷ as') s ≡ (ok tt, s')
    → (m : S) × (on a s ≡ (ok tt, m)) × (for_each on as' m ≡ (ok tt, s'))
for_each-uncons {S} on a as' s s' e = go (on a s) refl e
  where
    go :
        (r : ParseResult (Unit {0}) × S)
        → on a s ≡ r
        → after r (λ _. for_each on as') ≡ (ok tt, s')
        → (m : S) × (on a s ≡ (ok tt, m)) × (for_each on as' m ≡ (ok tt, s'))
    go (ok u, m) q h = (m, q, h)
    go (err x, m) q h = absurd (cc)
    go (fault, m) q h = absurd (cc)

module _ (t : Target) {S A : Type 0} {p : Action Cursor A} {F : Format A} (on : Callback S A)
    (d : Decodes t p F) (total : IsTotal on) where
  pub for_each-Streams :
      (n : ℕ) → Streams t (for_range n (on_cursor p >>= λ a. on_user (on a))) (Each n F on)
  unfolding for_range
  for_each-Streams zero =
      change-Streams t (pure-Streams t tt)
        (λ u s bs s' ((_, e), q). ([], refl, e, ap (λ k. (ok tt, k)) (sym q))) none_left
    where
      none_left :
          (u : Unit {0}) (s : S) (bs : List ℕ) (s' : S)
          → Each zero F on u s bs s'
          → Quiet (Nothing (λ b. b ≡ tt)) u s bs s'
      none_left u s bs s' ([], l, e, q) = ((refl, e), cc)
      none_left u s bs s' (a ∷ as', l, e, q) = absurd (omega arith)
  for_each-Streams (suc n) =
      change-Streams t
        (bind-Streams t
          (bind-Streams t (on_cursor-Streams t d) (λ a. on_user-Streams t (on a) (total a)))
          (λ _. for_each-Streams n))
        one_more first_and_rest
    where
      one_more :
          (u : Unit {0}) (s : S) (bs : List ℕ) (s' : S)
          → StreamThen (StreamThen (Quiet F) (λ a. Called (on a))) (λ _. Each n F on) u s bs s'
          → Each (suc n) F on u s bs s'
      one_more u s bs s'
            (_, m, xs, ys, (a, m₀, zs, ns, (h, q₀), (q, e), g), (as', l, many, q₂), g₂) =
          (
            a ∷ as',
            ap suc l,
            (zs, ys, h, many, rw (g₂, g, e, append-nil)),
            for_each-cons on a as' s m (rw (← q₀) q) ∙ q₂,
          )

      first_and_rest :
          (u : Unit {0}) (s : S) (bs : List ℕ) (s' : S)
          → Each (suc n) F on u s bs s'
          → StreamThen (StreamThen (Quiet F) (λ a. Called (on a))) (λ _. Each n F on) u s bs s'
      first_and_rest u s bs s' ([], l, h, q) = absurd (omega arith)
      first_and_rest u s bs s' (a ∷ as', l, (zs, ys, h, many, g), q) =
          let (m, q₁, q₂) = for_each-uncons on a as' s s' q in
          (
            tt,
            m,
            zs,
            ys,
            (a, s, zs, [], (h, refl), (q₁, refl), sym (append-nil zs)),
            (as', omega arith, many, q₂),
            g,
          )

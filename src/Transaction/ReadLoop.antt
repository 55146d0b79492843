-- ===== src/Transaction/ReadLoop.antt =====
-- A counted loop that reads only, inside a parser that calls closures.
use blockchain_zc_parser.Base.{ℕ, zero, suc, ◌≡◌, refl, ap, ◌∙◌, List, [], ◌∷◌, arith}
use blockchain_zc_parser.Action.{Action, for_range}
use blockchain_zc_parser.Target.{Target}
use blockchain_zc_parser.Cursor.{Cursor}
use blockchain_zc_parser.Cursor.Format.{Format, Decodes}
use blockchain_zc_parser.Cursor.Rules.{Nothing}
use blockchain_zc_parser.Cursor.Checks.{Times}
use blockchain_zc_parser.Transaction.{on_cursor}
use blockchain_zc_parser.Transaction.Stream.{Streams, StreamThen, Quiet, on_cursor-Streams}
use blockchain_zc_parser.Transaction.StreamRules.{bind-Streams, change-Streams, pure-Streams}

-- A loop that reads only.
pub read_loop-Streams :
    (t : Target) {S A : Type 0} {p : Action Cursor (Unit {0})} {F : Format A}
    → Decodes t p (λ _ bs. (a : A) × F a bs)
    → (n : ℕ) → Streams t {S = S} (for_range n (on_cursor p)) (Quiet (Times n F))
unfolding for_range
read_loop-Streams t {F} d zero =
    change-Streams t (pure-Streams t tt) (λ u s bs s' ((_, e), q). (([], refl, e), q)) none_left
  where
    none_left :
        {S : Type 0} (u : Unit {0}) (s : S) (bs : List ℕ) (s' : S)
        → Quiet (Times zero F) u s bs s'
        → Quiet (Nothing (λ b. b ≡ tt)) u s bs s'
    none_left u s bs s' (([], l, e), q) = ((refl, e), q)
    none_left u s bs s' ((a ∷ as', l, e), q) = absurd (omega arith)
read_loop-Streams t {S} {A} {F} d (suc n) =
    change-Streams t (bind-Streams t (on_cursor-Streams t d) (λ _. read_loop-Streams t d n))
      (λ u s bs s' (_, m, xs, ys, ((a, h), q), ((as', l, many), q₂), g).
        ((a ∷ as', ap suc l, (xs, ys, h, many, g)), q₂ ∙ q))
      first_and_rest
  where
    first_and_rest :
        (u : Unit {0}) (s : S) (bs : List ℕ) (s' : S)
        → Quiet (Times (suc n) F) u s bs s'
        → StreamThen {A = Unit {0}}
            (Quiet (λ _ xs. (a : A) × F a xs))
            (λ _. Quiet (Times n F))
            u
            s
            bs
            s'
    first_and_rest u s bs s' (([], l, e), q) = absurd (omega arith)
    first_and_rest u s bs s' ((a ∷ as', l, (xs, ys, h, many, g)), q) =
        (tt, s, xs, ys, ((a, h), refl), ((as', omega arith, many), q), g)

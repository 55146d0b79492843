-- ===== src/Transaction/Events.antt =====
-- The calls of the closures of a streaming parser, recorded and replayed, and what it is that a parser
-- does as its record says.
use blockchain_zc_parser.Base.{
  ℕ, zero, suc, ◌≡◌, refl, sym, ap, ◌∙◌, List, [], ◌∷◌, ◌++◌, append-nil, Bool, true, false,
  if◌then◌else◌,
}
use blockchain_zc_parser.Error.{ParseError, ParseResult, ok, err, fault}
use blockchain_zc_parser.Action.{Action, after, lift, pure, ◌>>=◌, ◌>>◌, refuse_if, for_range}
use blockchain_zc_parser.Cursor.{Cursor}
use blockchain_zc_parser.Transaction.{TxInput, TxOutput, Callback, Streaming, on_cursor, on_user}
use mathlib.Core.List.{append_assoc}

-- A call of a closure, by its argument.
pub data Event : Type 0 where
  input : TxInput → Event
  output : TxOutput → Event

-- Closures that only record their calls.
abbrev pub Log : Type 0
Log = List Event

abbrev pub record_input : Callback Log TxInput
record_input i log = (ok tt, log ++ input i ∷ [])

abbrev pub record_output : Callback Log TxOutput
record_output o log = (ok tt, log ++ output o ∷ [])

joined : (log es fs : Log) {x y : Log} → x ≡ y ++ fs → y ≡ log ++ es → x ≡ log ++ (es ++ fs)
joined log es fs p q = p ∙ (ap (λ l. l ++ fs) q ∙ append_assoc log es fs)

module _ {S : Type 0} where
  module _ (on_input : Callback S TxInput) (on_output : Callback S TxOutput) where
    abbrev pub call : Event → Action S (Unit {0})
    call (input i) = on_input i
    call (output o) = on_output o

    -- The recorded calls made in turn, up to the first one that does not return `Ok`.
    abbrev pub replay : Log → Action S (Unit {0})
    replay [] = pure tt
    replay (e ∷ es) = call e >> replay es

  -- What stands after a replay: the result `r` in `x` if it went through, and otherwise the closure's
  -- error in `y`.
  abbrev pub outcome :
      {A X : Type 0} → ParseResult (Unit {0}) × S → ParseResult A → X → X → ParseResult A × (X × S)
  outcome (ok u, s) r x y = (r, (x, s))
  outcome (err e, s) r x y = (err e, (y, s))
  outcome (fault, s) r x y = (fault, (y, s))

  module _ (on_input : Callback S TxInput) (on_output : Callback S TxOutput) where
    -- `q`, which calls the closures, does what `p`, which records, and a replay of the record do.
    pub record Follows {A : Type 0} (p : Streaming Log A) (q : Streaming S A) : Type 0 where
      pub follows :
          (c : Cursor) (log : Log) (s : S)
          → (es : Log) × (k : Cursor) × ((p (c, log)).1.1 ≡ log ++ es)
            × (q (c, s)
                ≡ outcome (replay on_input on_output es s) (p (c, log)).0 (p (c, log)).1.0 k)

    replay-append :
        (es fs : Log) (s : S)
        → replay on_input on_output (es ++ fs) s
          ≡ after (replay on_input on_output es s) (λ _. replay on_input on_output fs)
    replay-append [] fs s = refl
    replay-append (e ∷ es) fs s = both (call on_input on_output e s) (λ m. replay-append es fs m)
      where
        both :
            (r : ParseResult (Unit {0}) × S)
            → ((m : S)
                → replay on_input on_output (es ++ fs) m
                  ≡ after (replay on_input on_output es m) (λ _. replay on_input on_output fs))
            → after r (λ _. replay on_input on_output (es ++ fs))
              ≡ after
                  (after r (λ _. replay on_input on_output es))
                  (λ _. replay on_input on_output fs)
        both (ok u, m) ih = ih m
        both (err x, m) ih = refl
        both (fault, m) ih = refl

  called :
      (c : Cursor) (w : ParseResult (Unit {0}) × S)
      → (w.0, (c, w.1)) ≡ outcome (after w (λ _. pure tt)) (ok tt) c c
  called c (ok u, s) = refl
  called c (err e, s) = refl
  called c (fault, s) = refl

  module _ {on_input : Callback S TxInput} {on_output : Callback S TxOutput} where
    pub bind-Follows :
        {A B : Type 0} {p : Streaming Log A} {q : Streaming S A} {f : A → Streaming Log B}
        {g : A → Streaming S B}
        → Follows on_input on_output p q
        → ((a : A) → Follows on_input on_output (f a) (g a))
        → Follows on_input on_output (p >>= f) (q >>= g)
    bind-Follows {A} {B} {p} {q} {f} {g} h k = record {
      follows = λ c log s.
          let (es, c', e, m) = h.follows c log s in
          go c s es c' log (p (c, log)) (replay on_input on_output es s) refl (q (c, s)) e m;
    }
      where
        Goal :
            Cursor
            → Log
            → S
            → ParseResult A × (Cursor × Log)
            → ParseResult A × (Cursor × S)
            → Type 0
        Goal c log s d u =
            (es : Log) × (k : Cursor) × ((after d f).1.1 ≡ log ++ es)
            × (after u g ≡ outcome (replay on_input on_output es s) (after d f).0 (after d f).1.0 k)

        go :
            (c : Cursor) (s : S) (es : Log) (c' : Cursor) (log : Log)
            (d : ParseResult A × (Cursor × Log)) (w : ParseResult (Unit {0}) × S)
            → replay on_input on_output es s ≡ w
            → (u : ParseResult A × (Cursor × S)) → d.1.1 ≡ log ++ es
            → u ≡ outcome (replay on_input on_output es s) d.0 d.1.0 c'
            → Goal c log s d u
        go c s es c' log (ok a, (c₁, log₁)) (ok v, s₁) w u e m =
            let (fs, k₁, e₁, m₁) = (k a).follows c₁ log₁ s₁ in
            (es ++ fs, k₁, joined log es fs e₁ e, rw (m, replay-append on_input on_output, w) m₁)
        go c s es c' log (ok a, (c₁, log₁)) (err x, s₁) w u e m =
            let (fs, k₁, e₁, m₁) = (k a).follows c₁ log₁ s₁ in
            (es ++ fs, c', joined log es fs e₁ e, rw (m, replay-append on_input on_output, w) refl)
        go c s es c' log (ok a, (c₁, log₁)) (fault, s₁) w u e m =
            let (fs, k₁, e₁, m₁) = (k a).follows c₁ log₁ s₁ in
            (es ++ fs, c', joined log es fs e₁ e, rw (m, replay-append on_input on_output, w) refl)
        go c s es c' log (err y, (c₁, log₁)) (ok v, s₁) w u e m = (es, c', e, rw (m, w) refl)
        go c s es c' log (err y, (c₁, log₁)) (err x, s₁) w u e m = (es, c', e, rw (m, w) refl)
        go c s es c' log (err y, (c₁, log₁)) (fault, s₁) w u e m = (es, c', e, rw (m, w) refl)
        go c s es c' log (fault, (c₁, log₁)) (ok v, s₁) w u e m = (es, c', e, rw (m, w) refl)
        go c s es c' log (fault, (c₁, log₁)) (err x, s₁) w u e m = (es, c', e, rw (m, w) refl)
        go c s es c' log (fault, (c₁, log₁)) (fault, s₁) w u e m = (es, c', e, rw (m, w) refl)

    pub on_cursor-Follows :
        {A : Type 0} (p : Action Cursor A) → Follows on_input on_output (on_cursor p) (on_cursor p)
    on_cursor-Follows p = record { follows = λ c log s. ([], c, sym (append-nil log), refl) }

    pub input-Follows :
        (i : TxInput) → Follows on_input on_output (on_user (record_input i)) (on_user (on_input i))
    input-Follows i = record {
      follows = λ c log s. (input i ∷ [], c, refl, called c (on_input i s));
    }

    pub output-Follows :
        (o : TxOutput)
        → Follows on_input on_output (on_user (record_output o)) (on_user (on_output o))
    output-Follows o = record {
      follows = λ c log s. (output o ∷ [], c, refl, called c (on_output o s));
    }

    pub lift-Follows :
        {A : Type 0} (r : ParseResult A) → Follows on_input on_output (lift r) (lift r)
    lift-Follows r = record { follows = λ c log s. ([], c, sym (append-nil log), refl) }

    pub refuse_if-Follows :
        (b : Bool) (e : ParseError) → Follows on_input on_output (refuse_if b e) (refuse_if b e)
    refuse_if-Follows true e = record { follows = λ c log s. ([], c, sym (append-nil log), refl) }
    refuse_if-Follows false e = record { follows = λ c log s. ([], c, sym (append-nil log), refl) }

    pub for_range-Follows :
        {p : Streaming Log (Unit {0})} {q : Streaming S (Unit {0})}
        → (n : ℕ) → Follows on_input on_output p q
        → Follows on_input on_output (for_range n p) (for_range n q)
    unfolding for_range
    for_range-Follows zero b = record { follows = λ c log s. ([], c, sym (append-nil log), refl) }
    for_range-Follows (suc n) b = bind-Follows b (λ _. for_range-Follows n b)

    pub if-Follows :
        {p : Streaming Log (Unit {0})} {q : Streaming S (Unit {0})}
        → (b : Bool) → Follows on_input on_output p q
        → Follows on_input on_output (if b then p else pure tt) (if b then q else pure tt)
    if-Follows true h = h
    if-Follows false h = record { follows = λ c log s. ([], c, sym (append-nil log), refl) }

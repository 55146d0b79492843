-- ===== src/Cursor/Checks.antt =====
-- The rules for what reads nothing, for tests, for a change of the format and for counted loops.
use blockchain_zc_parser.Base.{
  ℕ, zero, suc, ◌≡◌, ◌≢◌, refl, sym, ap, ◌∙◌, List, [], ◌∷◌, ◌++◌, append-nil, length, Bool, true,
  false, arith, if◌then◌else◌,
}
use blockchain_zc_parser.Error.{ParseError, ParseResult, ok, err, fault}
use blockchain_zc_parser.Action.{Action, pure, lift, ◌>>=◌, refuse_if, for_range}
use blockchain_zc_parser.Target.{Target}
use blockchain_zc_parser.Cursor.{Cursor}
use blockchain_zc_parser.Cursor.Format.{
  unread, advance, IsValid, Format, Ran, accepted, rejected, Decodes,
}
use blockchain_zc_parser.Cursor.Rules.{Then, Nothing, bind-Decodes}
use native.Mathlib.Nat.{add-zero}

pub advance_zero : (c : Cursor) → c ≡ advance c 0
advance_zero c = ap (λ k. record c { pos = k }) (sym (add-zero c.pos))

pub append_cons-ne-nil {ℓ} : {A : Type ℓ} (xs : List A) (x : A) (ys : List A) → xs ++ (x ∷ ys) ≢ []
append_cons-ne-nil [] x ys e = cc
append_cons-ne-nil (y ∷ xs) x ys e = cc

module _ (t : Target) {A : Type 0} where
  lift_sound :
      (c : Cursor) (r : ParseResult A)
      → IsValid t c
      → r ≢ fault
      → Ran (Nothing (λ a. r ≡ ok a)) c r c
  lift_sound c (ok a) v h = accepted [] (unread c) (refl, refl) refl (advance_zero c)
  lift_sound c (err e) v h = rejected refl (omega arith) v.fits
  lift_sound c fault v h = absurd (h refl)

  pub lift-Decodes : (r : ParseResult A) → r ≢ fault → Decodes t (lift r) (Nothing (λ a. r ≡ ok a))
  lift-Decodes r h = record {
    sound = λ c v. lift_sound c r v h;
    complete = λ c a bs rest v (e, n) u. rw (e, n) (ap (λ k. (ok a, k)) (advance_zero c));
    truncated = λ c a x back v (e, n). absurd (append_cons-ne-nil (unread c) x back n);
  }

  pub pure-Decodes : (a : A) → Decodes t (pure a) (Nothing (λ b. b ≡ a))
  pure-Decodes a = record {
    sound = λ c v. accepted [] (unread c) (refl, refl) refl (advance_zero c);
    complete = λ c b bs rest v (e, n) u. rw (e, n) (ap (λ k. (ok a, k)) (advance_zero c));
    truncated = λ c b x back v (e, n). absurd (append_cons-ne-nil (unread c) x back n);
  }

  pub if-Decodes :
      (b : Bool) {p q : Action Cursor A} {F : Format A}
      → (b ≡ true → Decodes t p F)
      → (b ≡ false → Decodes t q F)
      → Decodes t (if b then p else q) F
  if-Decodes true h k = h refl
  if-Decodes false h k = k refl

  weaken :
      {F G : Format A}
      → ((a : A) (bs : List ℕ) → F a bs → G a bs)
      → (c : Cursor) {r : ParseResult A} {c' : Cursor} → Ran F c r c'
      → Ran G c r c'
  weaken f c (accepted {a} bs rest h e m) = accepted bs rest (f a bs h) e m
  weaken f c (rejected b lo hi) = rejected b lo hi

  -- A parser reads every format that holds of the same strings.
  pub change-Decodes :
      {p : Action Cursor A} {F G : Format A}
      → Decodes t p F
      → ((a : A) (bs : List ℕ) → F a bs → G a bs)
      → ((a : A) (bs : List ℕ) → G a bs → F a bs)
      → Decodes t p G
  change-Decodes d f g = record {
    sound = λ c v. weaken f c (d.sound c v);
    complete = λ c a bs rest v h. d.complete c a bs rest v (g a bs h);
    truncated = λ c a x back v h. d.truncated c a x back v (g a _ h);
  }

pub refuse_if-Decodes :
    (t : Target) (b : Bool) (e : ParseError) → Decodes t (refuse_if b e) (Nothing (λ _. b ≡ false))
refuse_if-Decodes t true e = record {
  sound = λ c v. rejected refl (omega arith) v.fits;
  complete = λ c a bs rest v (h, n) u. absurd (cc);
  truncated = λ c a x back v (h, n). absurd (cc);
}
refuse_if-Decodes t false e =
    change-Decodes t (pure-Decodes t tt) (λ a bs (h, n). (refl, n)) (λ a bs (h, n). (refl, n))

-- A list of values, one behind the other.
abbrev pub Many : {A : Type 0} → Format A → Format (List A)
Many F [] bs = bs ≡ []
Many F (a ∷ as') bs = (xs : List ℕ) × (ys : List ℕ) × F a xs × Many F as' ys × (bs ≡ xs ++ ys)

-- `n` of them, of which the loop keeps nothing.
abbrev pub Times : {A : Type 0} → ℕ → Format A → Format (Unit {0})
Times {A} n F _ bs = (as' : List A) × (length as' ≡ n) × Many F as' bs

pub for_range-Decodes :
    (t : Target) {A : Type 0} {p : Action Cursor A} {F : Format A} (n : ℕ)
    → Decodes t p F
    → Decodes t (for_range n (p >>= λ _. pure tt)) (Times n F)
unfolding for_range
for_range-Decodes t {F} zero d =
    change-Decodes t (pure-Decodes t tt) (λ a bs (h, n). ([], refl, n)) none_left
  where
    none_left : (a : Unit {0}) (bs : List ℕ) → Times zero F a bs → Nothing (λ b. b ≡ tt) a bs
    none_left a bs ([], l, n) = (refl, n)
    none_left a bs (b ∷ as', l, h) = absurd (omega arith)
for_range-Decodes t {F} (suc n) d =
    change-Decodes t
      (bind-Decodes t (bind-Decodes t d (λ a bs h. pure-Decodes t tt))
        (λ a bs h. for_range-Decodes t n d))
      one_more first_and_rest
  where
    one_more :
        (u : Unit {0}) (bs : List ℕ)
        → Then (Then F (λ _. Nothing (λ b. b ≡ tt))) (λ _. Times n F) u bs
        → Times (suc n) F u bs
    one_more u bs (w, xs, ys, (a, zs, ns, h, (q, m), s), (as', l, hs), s') =
        (a ∷ as', ap suc l, (zs, ys, h, hs, s' ∙ rw (s, m, append-nil)))

    first_and_rest :
        (u : Unit {0}) (bs : List ℕ)
        → Times (suc n) F u bs
        → Then (Then F (λ _. Nothing (λ b. b ≡ tt))) (λ _. Times n F) u bs
    first_and_rest u bs ([], l, h) = absurd (omega arith)
    first_and_rest u bs (a ∷ as', l, (zs, ys, h, hs, s)) =
        (tt, zs, ys, (a, zs, [], h, (refl, refl), sym (append-nil zs)), (as', omega arith, hs), s)

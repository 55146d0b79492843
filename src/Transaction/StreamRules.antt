-- ===== src/Transaction/StreamRules.antt =====
-- The rules for streaming parsers: sequence, change of the format, tests and counted loops.
use blockchain_zc_parser.Base.{
  ℕ, ◌≡◌, ◌≢◌, refl, sym, ap, ◌∙◌, subst, inl, inr, List, ◌∷◌, ◌++◌, length, append_assoc,
  append_split, Bool, true, false, arith,
}
use blockchain_zc_parser.Error.{ParseError, ParseResult, ok, err, fault, IsEof}
use blockchain_zc_parser.Action.{pure, lift, after, ◌>>=◌, refuse_if}
use blockchain_zc_parser.Target.{Target}
use blockchain_zc_parser.Cursor.{Cursor}
use blockchain_zc_parser.Cursor.Format.{unread, advance, IsValid, unread-advance, advance-IsValid}
use blockchain_zc_parser.Cursor.Rules.{after-IsEof, advance-advance, Nothing}
use blockchain_zc_parser.Cursor.Checks.{lift-Decodes, pure-Decodes, refuse_if-Decodes}
use blockchain_zc_parser.Transaction.{Streaming}
use blockchain_zc_parser.Transaction.Stream.{
  StreamFormat, StreamRan, accepted, rejected, Streams, StreamThen, Quiet, on_cursor-Streams,
}

module _ (t : Target) {S A B : Type 0} {F : StreamFormat S A} {G : A → StreamFormat S B} where
  join :
      (c : Cursor) (s : S) (d : Cursor × S) (a : A) (xs rest : List ℕ)
      → IsValid t c
      → F a s xs d.1
      → unread c ≡ xs ++ rest
      → d.0 ≡ advance c (length xs)
      → {r : ParseResult B} {k : Cursor × S} → StreamRan (G a) d.0 d.1 r k
      → StreamRan (StreamThen F G) c s r k
  join c s (c', m) a xs rest v ha e p (accepted {a = b} ys rest₂ hb e₂ p₂) =
      accepted (xs ++ ys) rest₂ (a, m, xs, ys, ha, hb, refl) whole
        (p₂ ∙ rw p (advance-advance c xs ys))
    where
      after_first : rest ≡ ys ++ rest₂
      after_first = sym (unread-advance t c v xs rest e) ∙ (rw p at e₂)

      whole : unread c ≡ (xs ++ ys) ++ rest₂
      whole = e ∙ rw after_first (sym (append_assoc xs ys rest₂))
  join c s (c', m) a xs rest v ha e p (rejected b lo hi) =
      rejected (b ∙ ap (λ k. k.bytes) p) (omega (arith, lo, ap (λ k. k.pos) p))
        (omega (arith, hi, ap (λ k. length k.bytes) p))

module _ (t : Target) {S A B : Type 0} {p : Streaming S A} {f : A → Streaming S B}
    {F : StreamFormat S A} {G : A → StreamFormat S B} (dp : Streams t p F)
    (df : (a : A) → Streams t (f a) (G a)) where
  bind_sound :
      (c : Cursor) (s : S)
      → IsValid t c
      → (r : ParseResult A × (Cursor × S)) → StreamRan F c s r.0 r.1
      → StreamRan (StreamThen F G) c s (after r f).0 (after r f).1
  bind_sound c s v (ok a, (c', m)) (accepted bs rest ha e q) =
      join t c s (c', m) a bs rest v ha e q
        ((df a).sound c' m (rw q (advance-IsValid t c v bs rest e)))
  bind_sound c s v (err x, d) (rejected b lo hi) = rejected b lo hi
  bind_sound c s v (fault, d) h = elim h [ ]

  bind_complete :
      (c : Cursor) (s : S) (b : B) (bs rest : List ℕ) (s' : S)
      → IsValid t c
      → StreamThen F G b s bs s'
      → unread c ≡ bs ++ rest
      → (p >>= f) (c, s) ≡ (ok b, (advance c (length bs), s'))
  bind_complete c s b bs rest s' v (a, m, xs, ys, ha, hb, q) e =
      rw (dp.complete c s a xs (ys ++ rest) m v ha regrouped) (
        (df a).complete (advance c (length xs)) m b ys rest s'
          (advance-IsValid t c v xs _ regrouped) hb (unread-advance t c v xs _ regrouped)
        ∙ ap (λ k. (ok b, (k, s'))) (advance-advance c xs ys ∙ rw q))
    where
      regrouped : unread c ≡ xs ++ (ys ++ rest)
      regrouped = e ∙ rw q (append_assoc xs ys rest)

  bind_truncated :
      (c : Cursor) (s : S) (b : B) (x : ℕ) (back : List ℕ) (s' : S)
      → IsValid t c
      → StreamThen F G b s (unread c ++ (x ∷ back)) s'
      → IsEof ((p >>= f) (c, s)).0
  bind_truncated c s b x back s' v (a, m, xs, ys, ha, hb, q) =
      elim (append_split xs ys (unread c) back x (sym q)) [
        | inl (more, e) ↦
            after-IsEof (p (c, s)) f (dp.truncated c s a x more m v (subst (λ l. F a s l m) e ha))
        | inr (more, e, r) ↦ rw (dp.complete c s a xs more m v ha e) (
            (df a).truncated (advance c (length xs)) m b x back s' (advance-IsValid t c v xs more e)
              (subst (λ l. G a b m l s')
                (r ∙ ap (λ l. l ++ (x ∷ back)) (sym (unread-advance t c v xs more e))) hb))
      ]

  pub bind-Streams : Streams t (p >>= f) (StreamThen F G)
  bind-Streams = record {
    sound = λ c s v. bind_sound c s v (p (c, s)) (dp.sound c s v);
    complete = bind_complete;
    truncated = bind_truncated;
  }

module _ (t : Target) {S A : Type 0} where
  weaken :
      {F G : StreamFormat S A}
      → ((a : A) (s : S) (bs : List ℕ) (s' : S) → F a s bs s' → G a s bs s')
      → (c : Cursor) (s : S) {r : ParseResult A} {d : Cursor × S} → StreamRan F c s r d
      → StreamRan G c s r d
  weaken f c s (accepted {a} {d} bs rest h e q) = accepted bs rest (f a s bs d.1 h) e q
  weaken f c s (rejected b lo hi) = rejected b lo hi

  pub change-Streams :
      {p : Streaming S A} {F G : StreamFormat S A}
      → Streams t p F
      → ((a : A) (s : S) (bs : List ℕ) (s' : S) → F a s bs s' → G a s bs s')
      → ((a : A) (s : S) (bs : List ℕ) (s' : S) → G a s bs s' → F a s bs s')
      → Streams t p G
  change-Streams d f g = record {
    sound = λ c s v. weaken f c s (d.sound c s v);
    complete = λ c s a bs rest s' v h. d.complete c s a bs rest s' v (g a s bs s' h);
    truncated = λ c s a x back s' v h. d.truncated c s a x back s' v (g a s _ s' h);
  }

  pub lift-Streams :
      (r : ParseResult A) → r ≢ fault → Streams t {S = S} (lift r) (Quiet (Nothing (λ a. r ≡ ok a)))
  lift-Streams r h = on_cursor-Streams t (lift-Decodes t r h)

  pub pure-Streams : (a : A) → Streams t {S = S} (pure a) (Quiet (Nothing (λ b. b ≡ a)))
  pure-Streams a = on_cursor-Streams t (pure-Decodes t a)

pub refuse_if-Streams :
    (t : Target) {S : Type 0} (b : Bool) (e : ParseError)
    → Streams t {S = S} (refuse_if b e) (Quiet (Nothing (λ _. b ≡ false)))
refuse_if-Streams t true e = on_cursor-Streams t (refuse_if-Decodes t true e)
refuse_if-Streams t false e = on_cursor-Streams t (refuse_if-Decodes t false e)

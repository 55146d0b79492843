-- ===== src/Cursor/Rules.antt =====
-- The rules by which a parser that is put together from parsers reads the format put together from
-- theirs.
use blockchain_zc_parser.Base.{
  ℕ, ◌+◌, ◌≡◌, refl, sym, ap, ◌∙◌, subst, inl, inr, List, [], ◌∷◌, ◌++◌, length, length-append,
  append_assoc, append_split, arith,
}
use blockchain_zc_parser.Error.{ParseResult, ok, err, fault, IsEof}
use blockchain_zc_parser.Action.{Action, after, ◌>>=◌}
use blockchain_zc_parser.Target.{Target}
use blockchain_zc_parser.Cursor.{Cursor}
use blockchain_zc_parser.Cursor.Format.{
  unread, advance, IsValid, Format, Ran, accepted, rejected, Decodes, unread-advance,
  advance-IsValid,
}

-- One format behind another, which may depend on the first value.
abbrev pub Then : {A B : Type 0} → Format A → (A → Format B) → Format B
Then {A} F G b bs = (a : A) × (xs : List ℕ) × (ys : List ℕ) × F a xs × G a b ys × (bs ≡ xs ++ ys)

-- Nothing is read, under a condition.
abbrev pub Nothing : {A : Type 0} → (A → Type 0) → Format A
Nothing P a bs = P a × (bs ≡ [])

pub advance-advance :
    (c : Cursor) (xs ys : List ℕ)
    → advance (advance c (length xs)) (length ys) ≡ advance c (length (xs ++ ys))
advance-advance c xs ys = ap (λ k. record c { pos = k }) sums
  where
    sums : c.pos + length xs + length ys ≡ c.pos + length (xs ++ ys)
    sums = omega (arith, length-append xs ys)

pub after-IsEof :
    {S A B : Type 0} (r : ParseResult A × S) (f : A → Action S B) → IsEof r.0 → IsEof (after r f).0
after-IsEof (ok a, s) f (n, k, e, h) = cc
after-IsEof (err x, s) f (n, k, e, h) = (n, k, cc, h)
after-IsEof (fault, s) f (n, k, e, h) = cc

module _ (t : Target) {A B : Type 0} {F : Format A} {G : A → Format B} where
  join :
      (c c' : Cursor) (a : A) (xs rest : List ℕ)
      → IsValid t c
      → F a xs
      → unread c ≡ xs ++ rest
      → c' ≡ advance c (length xs)
      → {r : ParseResult B} {d : Cursor} → Ran (G a) c' r d
      → Ran (Then F G) c r d
  join c c' a xs rest v ha e m (accepted {a = b} ys rest₂ hb e₂ m₂) =
      accepted (xs ++ ys) rest₂ (a, xs, ys, ha, hb, refl) whole
        (m₂ ∙ rw m (advance-advance c xs ys))
    where
      after_first : rest ≡ ys ++ rest₂
      after_first = sym (unread-advance t c v xs rest e) ∙ (rw m at e₂)

      whole : unread c ≡ (xs ++ ys) ++ rest₂
      whole = e ∙ rw after_first (sym (append_assoc xs ys rest₂))
  join c c' a xs rest v ha e m (rejected b lo hi) =
      rejected (b ∙ ap (λ k. k.bytes) m) (omega (arith, lo, ap (λ k. k.pos) m))
        (omega (arith, hi, ap (λ k. length k.bytes) m))

module _ (t : Target) {A B : Type 0} {p : Action Cursor A} {f : A → Action Cursor B} {F : Format A}
    {G : A → Format B} (dp : Decodes t p F)
    (df : (a : A) (bs : List ℕ) → F a bs → Decodes t (f a) (G a)) where
  bind_sound :
      (c : Cursor)
      → IsValid t c
      → (r : ParseResult A × Cursor) → Ran F c r.0 r.1
      → Ran (Then F G) c (after r f).0 (after r f).1
  bind_sound c v (ok a, c') (accepted bs rest ha e m) =
      join t c c' a bs rest v ha e m
        ((df a bs ha).sound c' (rw m (advance-IsValid t c v bs rest e)))
  bind_sound c v (err x, c') (rejected b lo hi) = rejected b lo hi
  bind_sound c v (fault, c') h = elim h [ ]

  bind_complete :
      (c : Cursor) (b : B) (bs rest : List ℕ)
      → IsValid t c
      → Then F G b bs
      → unread c ≡ bs ++ rest
      → (p >>= f) c ≡ (ok b, advance c (length bs))
  bind_complete c b bs rest v (a, xs, ys, ha, hb, s) e =
      rw (dp.complete c a xs (ys ++ rest) v ha regrouped) (
        (df a xs ha).complete (advance c (length xs)) b ys rest
          (advance-IsValid t c v xs _ regrouped) hb (unread-advance t c v xs _ regrouped)
        ∙ ap (λ k. (ok b, k)) (advance-advance c xs ys ∙ rw s))
    where
      regrouped : unread c ≡ xs ++ (ys ++ rest)
      regrouped = e ∙ rw s (append_assoc xs ys rest)

  bind_truncated :
      (c : Cursor) (b : B) (x : ℕ) (back : List ℕ)
      → IsValid t c
      → Then F G b (unread c ++ (x ∷ back))
      → IsEof ((p >>= f) c).0
  bind_truncated c b x back v (a, xs, ys, ha, hb, s) =
      elim (append_split xs ys (unread c) back x (sym s)) [
        | inl (more, q) ↦ after-IsEof (p c) f (dp.truncated c a x more v (subst (F a) q ha))
        | inr (more, q, r) ↦ rw (dp.complete c a xs more v ha q) (
            (df a xs ha).truncated (advance c (length xs)) b x back
              (advance-IsValid t c v xs more q)
              (subst (G a b) (r ∙ ap (λ l. l ++ (x ∷ back)) (sym (unread-advance t c v xs more q)))
                hb))
      ]

  pub bind-Decodes : Decodes t (p >>= f) (Then F G)
  bind-Decodes = record {
    sound = λ c v. bind_sound c v (p c) (dp.sound c v);
    complete = bind_complete;
    truncated = bind_truncated;
  }

-- ===== src/Transaction/Stream.antt =====
-- Parsers that call the user's closures between their reads. A format relates, beside a value and its
-- bytes, the state of the closures before and after.
use blockchain_zc_parser.Base.{ℕ, ◌≤◌, ◌≡◌, ◌≢◌, refl, sym, ap, List, [], ◌∷◌, ◌++◌, length, arith}
use blockchain_zc_parser.Error.{ParseError, ParseResult, ok, err, fault, IsEof}
use blockchain_zc_parser.Action.{Action}
use blockchain_zc_parser.Target.{Target}
use blockchain_zc_parser.Cursor.{Cursor}
use blockchain_zc_parser.Cursor.Format.{unread, advance, IsValid, Format, Ran, Decodes}
use blockchain_zc_parser.Cursor.Checks.{append_cons-ne-nil, advance_zero}
use blockchain_zc_parser.Transaction.{Streaming, on_cursor, on_user}

abbrev pub StreamFormat : Type 0 → Type 0 → Type 1
StreamFormat S A = A → S → List ℕ → S → Type 0

pub data StreamRan {S A : Type 0} (F : StreamFormat S A) (c : Cursor) (s : S)
    : ParseResult A → Cursor × S → Type 0 where
  accepted :
      {a : A} {d : Cursor × S} (bs rest : List ℕ)
      → F a s bs d.1
      → unread c ≡ bs ++ rest
      → d.0 ≡ advance c (length bs)
      → StreamRan F c s (ok a) d
  rejected :
      {e : ParseError} {d : Cursor × S}
      → d.0.bytes ≡ c.bytes
      → c.pos ≤ d.0.pos
      → d.0.pos ≤ length c.bytes
      → StreamRan F c s (err e) d

pub record Streams (t : Target) {S A : Type 0} (p : Streaming S A) (F : StreamFormat S A)
    : Type 0 where
  pub sound : (c : Cursor) (s : S) → IsValid t c → StreamRan F c s (p (c, s)).0 (p (c, s)).1
  pub complete :
      (c : Cursor) (s : S) (a : A) (bs rest : List ℕ) (s' : S)
      → IsValid t c
      → F a s bs s'
      → unread c ≡ bs ++ rest
      → p (c, s) ≡ (ok a, (advance c (length bs), s'))
  pub truncated :
      (c : Cursor) (s : S) (a : A) (x : ℕ) (back : List ℕ) (s' : S)
      → IsValid t c
      → F a s (unread c ++ (x ∷ back)) s'
      → IsEof (p (c, s)).0

-- One format behind another.
abbrev pub StreamThen :
    {S A B : Type 0} → StreamFormat S A → (A → StreamFormat S B) → StreamFormat S B
StreamThen {S} {A} F G b s bs s' =
    (a : A) × (m : S) × (xs : List ℕ) × (ys : List ℕ) × F a s xs m × G a b m ys s' × (bs ≡ xs ++ ys)

-- A read, which leaves the user's state.
abbrev pub Quiet : {S A : Type 0} → Format A → StreamFormat S A
Quiet F a s bs s' = F a bs × (s' ≡ s)

-- A closure's call, which reads nothing.
abbrev pub Called : {S A : Type 0} → Action S A → StreamFormat S A
Called m a s bs s' = (m s ≡ (ok a, s')) × (bs ≡ [])

module _ (t : Target) {S A : Type 0} where
  quiet :
      {F : Format A} (c : Cursor) (s : S)
      → (r : ParseResult A × Cursor) → Ran F c r.0 r.1
      → StreamRan (Quiet F) c s r.0 (r.1, s)
  quiet c s (ok a, d) (Ran.accepted bs rest h e m) = accepted bs rest (h, refl) e m
  quiet c s (err x, d) (Ran.rejected b lo hi) = rejected b lo hi
  quiet c s (fault, d) h = elim h [ ]

  pub on_cursor-Streams :
      {p : Action Cursor A} {F : Format A}
      → Decodes t p F
      → Streams t (on_cursor {S = S} p) (Quiet F)
  on_cursor-Streams {p} d = record {
    sound = λ c s v. quiet c s (p c) (d.sound c v);
    complete = λ c s a bs rest s' v (h, q) u. rw (d.complete c a bs rest v h u, q);
    truncated = λ c s a x back s' v (h, q). d.truncated c a x back v h;
  }

  called :
      (m : Action S A) (c : Cursor) (s : S)
      → IsValid t c
      → (r : ParseResult A × S) → r ≡ m s
      → r.0 ≢ fault
      → StreamRan (Called m) c s r.0 (c, r.1)
  called m c s v (ok a, s') e h = accepted [] (unread c) (sym e, refl) refl (advance_zero c)
  called m c s v (err x, s') e h = rejected refl (omega arith) v.fits
  called m c s v (fault, s') e h = absurd (h refl)

  pub on_user-Streams :
      (m : Action S A) → ((s : S) → (m s).0 ≢ fault) → Streams t (on_user m) (Called m)
  on_user-Streams m h = record {
    sound = λ c s v. called m c s v (m s) refl (h s);
    complete =
        λ c s a bs rest s' v (q, n) u. rw (q, n) (ap (λ k. (ok a, (k, s'))) (advance_zero c));
    truncated = λ c s a x back s' v (q, n). absurd (append_cons-ne-nil (unread c) x back n);
  }

-- ===== src/Cursor/Words.antt =====
-- The reads of a given number of bytes, and the numbers made of them.
use blockchain_zc_parser.Base.{
  All, All-take, ℕ, ◌+◌, ◌≤◌, ◌<◌, ◌⊎◌, ◌≡◌, refl, sym, ap, ◌∙◌, List, [], ◌∷◌, ◌++◌, length, take,
  drop, take-append-drop, length-take, length-append, take-append, append-nil, take_all, arith, inl,
  inr, le→leb,
}
use blockchain_zc_parser.Error.{ok, err, IsEof, unexpected_eof}
use blockchain_zc_parser.Action.{pure, lift, ◌>>=◌}
use blockchain_zc_parser.Target.{Target}
use blockchain_zc_parser.Bytes.{IsByte, array_of}
use blockchain_zc_parser.Cursor.{Cursor, remaining, read_bytes}
use blockchain_zc_parser.Cursor.Format.{
  unread, advance, IsValid, Format, Ran, accepted, rejected, Decodes, length-unread, unread-IsByte,
}
use blockchain_zc_parser.Cursor.Rules.{Then, Nothing, bind-Decodes}
use blockchain_zc_parser.Cursor.Checks.{lift-Decodes, pure-Decodes, change-Decodes}

pub ok-injective : (xs ys : List ℕ) → ok xs ≡ ok ys → xs ≡ ys
ok-injective xs ys e = cc

module _ (t : Target) (n : ℕ) (c : Cursor) where
  -- Where the slice ends first, whichever of the two checks finds it.
  pub read_bytes_short :
      IsValid t c
      → length c.bytes < c.pos + n
      → read_bytes t n c ≡ (err (unexpected_eof n (remaining c)), c)
  unfolding read_bytes
  read_bytes_short v h = ground arith

  pub read_bytes_enough :
      IsValid t c
      → c.pos + n ≤ length c.bytes
      → read_bytes t n c ≡ (ok (take n (unread c)), advance c n)
  unfolding read_bytes
  read_bytes_enough v h = ground (arith, v.small)

-- `n` bytes that stand for themselves.
abbrev pub Raw : ℕ → Format (List ℕ)
Raw n a bs = (a ≡ bs) × (length bs ≡ n) × All IsByte bs

-- `n` bytes that stand for what `f` makes of them.
abbrev pub Word : {A : Type 0} → ℕ → (List ℕ → A) → Format A
Word n f a bs = (length bs ≡ n) × All IsByte bs × (a ≡ f bs)

module _ (t : Target) (n : ℕ) where
  read_bytes_sound :
      (c : Cursor)
      → IsValid t c
      → (c.pos + n ≤ length c.bytes) ⊎ (length c.bytes < c.pos + n)
      → Ran (Raw n) c (read_bytes t n c).0 (read_bytes t n c).1
  read_bytes_sound c v (inl h) = rw (read_bytes_enough t n c v h) (
      accepted (take n (unread c)) (drop n (unread c))
        (refl, long, All-take IsByte n (unread c) (unread-IsByte t c v))
        (sym (take-append-drop n (unread c))) (ap (advance c) (sym long)))
    where
      long : length (take n (unread c)) ≡ n
      long = omega (arith, length-take n (unread c), length-unread t c v)
  read_bytes_sound c v (inr h) =
      rw (read_bytes_short t n c v h) (rejected refl (omega arith) v.fits)

  read_bytes_complete :
      (c : Cursor) (a bs rest : List ℕ)
      → IsValid t c
      → Raw n a bs
      → unread c ≡ bs ++ rest
      → read_bytes t n c ≡ (ok a, advance c (length bs))
  read_bytes_complete c a bs rest v (e, l, o) u =
      read_bytes_enough t n c v there
      ∙ rw (← l, e) (ap (λ xs. (ok xs, advance c (length bs))) front)
    where
      there : c.pos + n ≤ length c.bytes
      there = omega (arith, ap length u, length-append bs rest, length-unread t c v, v.fits)

      front : take (length bs) (unread c) ≡ bs
      front = ap (take (length bs)) u ∙ take-append bs rest

  read_bytes_truncated :
      (c : Cursor) (a : List ℕ) (x : ℕ) (back : List ℕ)
      → IsValid t c
      → Raw n a (unread c ++ (x ∷ back))
      → IsEof (read_bytes t n c).0
  read_bytes_truncated c a x back v (e, l, o) =
      rw (read_bytes_short t n c v short) (n, remaining c, refl, omega (arith, short, v.fits))
    where
      short : length c.bytes < c.pos + n
      short = omega (arith, l, length-append (unread c) (x ∷ back), length-unread t c v, v.fits)

  pub read_bytes-Decodes : Decodes t (read_bytes t n) (Raw n)
  read_bytes-Decodes = record {
    sound = λ c v. read_bytes_sound c v (omega arith);
    complete = read_bytes_complete;
    truncated = read_bytes_truncated;
  }

  pub array_of-ok : (bs : List ℕ) → length bs ≡ n → array_of n bs ≡ ok bs
  array_of-ok bs l = rw (← l) (rw (le→leb (length bs) (length bs) (omega arith), take_all bs))

  -- A fixed array, converted.
  pub word-Decodes :
      {A : Type 0} (f : List ℕ → A)
      → Decodes t (read_bytes t n >>= λ bs. lift (array_of n bs) >>= λ a. pure (f a)) (Word n f)
  word-Decodes {A} f =
      change-Decodes t
        (bind-Decodes t read_bytes-Decodes λ a bs (e, l, o).
          bind-Decodes t (lift-Decodes t (array_of n a) (rw (array_of-ok a (rw e l)) cc))
            λ b bs h. pure-Decodes t (f b))
        apart whole
    where
      apart :
          (a : A) (bs : List ℕ)
          → Then
              (Raw n)
              (λ xs. Then (Nothing (λ ys. array_of n xs ≡ ok ys)) (λ ys. Nothing (λ b. b ≡ f ys)))
              a
              bs
          → Word n f a bs
      apart a bs (xs, zs, ns, (e, l, o), (ys, ms, ks, (q, m), (r, k), s), s') =
          let same : bs ≡ xs = rw (s', s, m, k, e, append-nil) in
          (
            rw (same, e) l,
            rw (same, e) o,
            r ∙ ap f (rw same (ok-injective ys xs (sym q ∙ array_of-ok xs (rw e l)))),
          )

      whole :
          (a : A) (bs : List ℕ)
          → Word n f a bs
          → Then
              (Raw n)
              (λ xs. Then (Nothing (λ ys. array_of n xs ≡ ok ys)) (λ ys. Nothing (λ b. b ≡ f ys)))
              a
              bs
      whole a bs (l, o, r) = (
        bs,
        bs,
        [],
        (refl, l, o),
        (bs, [], [], (array_of-ok bs l, refl), (r, refl), refl),
        sym (append-nil bs),
      )

-- ===== src/Cursor/Format.antt =====
-- What it means that a parser reads a format. A format relates a value to the byte strings that stand
-- for it; the rules here go through `>>=` and the checks, so that each parser's proof follows its code.
use blockchain_zc_parser.Bytes.{IsByte}
use blockchain_zc_parser.Base.{
  All, All-drop, ℕ, ◌+◌, ◌-◌, ◌≤◌, ◌≡◌, sym, ap, ◌∙◌, List, ◌∷◌, ◌++◌, length, drop, drop-drop,
  length-drop, length-append, drop-append, arith,
}
use blockchain_zc_parser.Error.{ParseError, ParseResult, ok, err, IsEof}
use blockchain_zc_parser.Action.{Action}
use blockchain_zc_parser.Target.{Target, usize_max}
use blockchain_zc_parser.Cursor.{Cursor}

abbrev pub unread : Cursor → List ℕ
unread c = drop c.pos c.bytes

abbrev pub advance : Cursor → ℕ → Cursor
advance c n = record c { pos = c.pos + n }

-- The slice holds bytes, the offset lies in it, and it is no longer than `usize` can say.
pub record IsValid (t : Target) (c : Cursor) : Type 0 where
  pub fits : c.pos ≤ length c.bytes
  pub small : length c.bytes ≤ usize_max t
  pub octets : All IsByte c.bytes

abbrev pub Format : Type 0 → Type 1
Format A = A → List ℕ → Type 0

-- A run that took a byte string of the format, or stopped with an error inside the slice. There is no
-- rule for `fault`.
pub data Ran {A : Type 0} (F : Format A) (c : Cursor) : ParseResult A → Cursor → Type 0 where
  accepted :
      {a : A} {c' : Cursor} (bs rest : List ℕ)
      → F a bs
      → unread c ≡ bs ++ rest
      → c' ≡ advance c (length bs)
      → Ran F c (ok a) c'
  rejected :
      {e : ParseError} {c' : Cursor}
      → c'.bytes ≡ c.bytes
      → c.pos ≤ c'.pos
      → c'.pos ≤ length c.bytes
      → Ran F c (err e) c'

-- The three halves: what is accepted is of the format, what is of the format is accepted whatever
-- follows it, and an input that ends inside it is an `UnexpectedEof`.
pub record Decodes (t : Target) {A : Type 0} (p : Action Cursor A) (F : Format A) : Type 0 where
  pub sound : (c : Cursor) → IsValid t c → Ran F c (p c).0 (p c).1
  pub complete :
      (c : Cursor) (a : A) (bs rest : List ℕ)
      → IsValid t c
      → F a bs
      → unread c ≡ bs ++ rest
      → p c ≡ (ok a, advance c (length bs))
  pub truncated :
      (c : Cursor) (a : A) (x : ℕ) (back : List ℕ)
      → IsValid t c
      → F a (unread c ++ (x ∷ back))
      → IsEof (p c).0

module _ (t : Target) (c : Cursor) (v : IsValid t c) where
  pub length-unread : length (unread c) ≡ length c.bytes - c.pos
  length-unread = length-drop c.pos c.bytes

  pub unread-IsByte : All IsByte (unread c)
  unread-IsByte = All-drop IsByte c.pos c.bytes v.octets

  pub unread-advance :
      (bs rest : List ℕ) → unread c ≡ bs ++ rest → unread (advance c (length bs)) ≡ rest
  unread-advance bs rest e =
      sym (drop-drop c.pos (length bs) c.bytes) ∙ ap (drop (length bs)) e ∙ drop-append bs rest

  pub advance-IsValid :
      (bs rest : List ℕ) → unread c ≡ bs ++ rest → IsValid t (advance c (length bs))
  advance-IsValid bs rest e = record { fits = still; small = v.small; octets = v.octets }
    where
      still : c.pos + length bs ≤ length c.bytes
      still = omega (arith, ap length e, v.fits, length-unread, length-append bs rest)

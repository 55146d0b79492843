-- ===== src/Block/FileTriples.antt =====
-- What `next_block` keeps of the cursor over a block file, and what its errors and its blocks satisfy.
use blockchain_zc_parser.Base.{
  ℕ, ◌≡◌, ◌≢◌, sym, ap, subst, List, Bool, true, false, not, Option, none, some, if◌then◌else◌,
}
use blockchain_zc_parser.Error.{ParseError, ParseResult, ok, magic_mismatch}
use blockchain_zc_parser.Error.Truthful.{Truthful, other_magic}
use blockchain_zc_parser.Action.Triple.{Ends, Triple, bind-Triple, pure-Triple, refuse_if-Triple}
use blockchain_zc_parser.Target.{Target}
use blockchain_zc_parser.Hash.{bytes_eq, bytes_eq_refl}
use blockchain_zc_parser.Cursor.{is_empty}
use blockchain_zc_parser.Cursor.Triples.{
  Within, Borrowed, read_array-Triple, read_u32_le-Triple, limit-Triple, read_bytes-Triple,
}
use blockchain_zc_parser.Block.{max_block_bytes}
use blockchain_zc_parser.Block.File.{BlkFileIter, read_entry, next_block}

-- A block that is a part of the file, or the end.
abbrev pub Entry : List ℕ → Option (List ℕ) → Type 0
Entry bs none = Unit {0}
Entry bs (some block) = Borrowed bs block

module _ (t : Target) (E : ParseError → Type 0)
    (honest : (e : ParseError) → Truthful t e → E e) where
  read_entry-Triple : (bs magic : List ℕ) → Triple (Within t bs) E (Entry bs) (read_entry t magic)
  unfolding read_entry
  read_entry-Triple bs magic = bind-Triple (read_array-Triple t E honest bs 4) λ m _.
      bind-Triple
        (refuse_if-Triple (not (bytes_eq m magic)) (magic_mismatch magic m)
          (λ h. honest _ (other_magic (other m h))))
        λ _ _. bind-Triple (read_u32_le-Triple t E honest bs) λ size _.
          bind-Triple (limit-Triple t E honest size max_block_bytes) λ _ _.
            bind-Triple (read_bytes-Triple t E honest bs size)
              λ block (part, (e, l, o), b). pure-Triple (some block) (subst (Borrowed bs) (sym e) b)
    where
      other : (m : List ℕ) → not (bytes_eq m magic) ≡ true → magic ≢ m
      other m h e = cc (h, bytes_eq_refl m, ap (bytes_eq m) e)

module _ (t : Target) (bs : List ℕ) where
  -- The call of `next_block` on a file that does not end.
  abbrev entered : BlkFileIter → ParseResult (Option (List ℕ)) × BlkFileIter
  entered it = let (r, c) = read_entry t it.magic it.cursor in (r, record it { cursor = c })

  next_block_ends :
      (it : BlkFileIter) (b : Bool)
      → Within t bs it.cursor
      → Within t bs (if b then (ok none, it) else entered it).1.cursor
        × Ends (Truthful t) (Entry bs) (if b then (ok none, it) else entered it).0
  next_block_ends it true w = (w, tt)
  next_block_ends it false w =
      (read_entry-Triple t (Truthful t) (λ e h. h) bs it.magic).triple it.cursor w

  -- `next_block` over a slice of bytes does not panic and leaves a valid cursor over the same slice; a
  -- block that it returns is a part of the slice; and what its errors say is so: fewer bytes than needed,
  -- a size above the limit, or another magic than the expected one, and no other error occurs.
  pub next_block-Triple :
      Triple (λ it. Within t bs it.cursor) (Truthful t) (Entry bs) (next_block t)
  unfolding next_block
  next_block-Triple = record { triple = λ it w. next_block_ends it (is_empty it.cursor) w }

-- ===== src/Block/FileNext.antt =====
-- `BlkFileIter::next_block` call by call.
use blockchain_zc_parser.Base.{
  ℕ, ◌≡◌, ◌≢◌, refl, ap, ◌∙◌, List, [], ◌∷◌, ◌++◌, length, length-append, le→leb, lt→leb, Option,
  none, some, arith,
}
use blockchain_zc_parser.Error.{ParseError, ParseResult, ok, err, fault}
use blockchain_zc_parser.Target.{Target}
use blockchain_zc_parser.Cursor.{Cursor}
use blockchain_zc_parser.Cursor.Format.{Ran, IsValid, unread, advance, length-unread}
use blockchain_zc_parser.Block.File.{
  BlkFileIter, read_entry, next_block, EntryFormat, read_entry-Decodes,
}

-- What a call says: the end of the file, a block behind its magic and size, or an error.
pub data Next (it : BlkFileIter) : ParseResult (Option (List ℕ)) → BlkFileIter → Type 0 where
  ended : {d : BlkFileIter} → unread it.cursor ≡ [] → d ≡ it → Next it (ok none) d
  found :
      {d : BlkFileIter} (block bs rest : List ℕ)
      → EntryFormat it.magic block bs
      → unread it.cursor ≡ bs ++ rest
      → d ≡ record it { cursor = advance it.cursor (length bs) }
      → Next it (ok (some block)) d
  failed : {e : ParseError} {d : BlkFileIter} → unread it.cursor ≢ [] → Next it (err e) d

module _ (t : Target) (it : BlkFileIter) (v : IsValid t it.cursor) where
  with_cursor : ParseResult (Option (List ℕ)) × Cursor → ParseResult (Option (List ℕ)) × BlkFileIter
  with_cursor (r, c) = (r, record it { cursor = c })

  pub next_block_nil : unread it.cursor ≡ [] → next_block t it ≡ (ok none, it)
  unfolding next_block
  next_block_nil e = rw (
      le→leb (length it.cursor.bytes) it.cursor.pos
        (omega (arith, ap length e, length-unread t it.cursor v)))

  next_block_cons :
      (x : ℕ) (rest : List ℕ)
      → unread it.cursor ≡ x ∷ rest
      → next_block t it ≡ with_cursor (read_entry t it.magic it.cursor)
  unfolding next_block with_cursor
  next_block_cons x rest e = rw (
      lt→leb (length it.cursor.bytes) it.cursor.pos
        (omega (arith, ap length e, length-unread t it.cursor v)))

  entry-Next :
      (x : ℕ) (xs : List ℕ)
      → unread it.cursor ≡ x ∷ xs
      → (d : ParseResult (Option (List ℕ)) × Cursor)
      → Ran
          (λ o bs. (block : List ℕ) × (o ≡ some block) × EntryFormat it.magic block bs)
          it.cursor
          d.0
          d.1
      → Next it (with_cursor d).0 (with_cursor d).1
  unfolding with_cursor
  entry-Next x xs u (ok o, c) (Ran.accepted bs rest (block, q, f) e m) =
      rw q (found block bs rest f e (ap (λ k. record it { cursor = k }) m))
  entry-Next x xs u (err e, c) p = failed (λ z. cc)
  entry-Next x xs u (fault, c) p = elim p [ ]

  by_bytes_left :
      (l : List ℕ) → unread it.cursor ≡ l → Next it (next_block t it).0 (next_block t it).1
  by_bytes_left [] u = rw (next_block_nil u) (ended u refl)
  by_bytes_left (x ∷ xs) u =
      rw (next_block_cons x xs u)
        (entry-Next x xs u _ ((read_entry-Decodes t it.magic).sound it.cursor v))

  -- `next_block` never panics: it gives none only at the end of the file, and leaves the iterator as it
  -- was; it gives a block only if the unread bytes begin with the block's entry under the iterator's
  -- magic, and then stands behind it; and it fails only if bytes are unread. The iterator's cursor is
  -- valid.
  pub next_block-Next : Next it (next_block t it).0 (next_block t it).1
  next_block-Next = by_bytes_left (unread it.cursor) refl

  -- An entry that the unread bytes begin with is found.
  pub next_block_entry :
      (block bs rest : List ℕ)
      → EntryFormat it.magic block bs
      → unread it.cursor ≡ bs ++ rest
      → next_block t it ≡ (ok (some block), record it { cursor = advance it.cursor (length bs) })
  unfolding with_cursor
  next_block_entry block bs rest f e = go (unread it.cursor) refl
    where
      go :
          (l : List ℕ)
          → unread it.cursor ≡ l
          → next_block t it
            ≡ (ok (some block), record it { cursor = advance it.cursor (length bs) })
      go [] u = absurd (
          omega (
            arith,
            ap length u,
            ap length e,
            length-append bs rest,
            ap length f.6,
            length-append it.magic (f.0 ++ block),
            f.1,
          ))
      go (x ∷ xs) u =
          next_block_cons x xs u
          ∙ ap with_cursor (
              (read_entry-Decodes t it.magic).complete it.cursor (some block) bs rest v
                (block, refl, f) e)

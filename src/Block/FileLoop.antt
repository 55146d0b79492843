-- ===== src/Block/FileLoop.antt =====
-- `next_block` over a whole file: `while let Some(b) = it.next_block()?`.
use blockchain_zc_parser.Base.{
  ℕ, zero, suc, ◌≤◌, ◌<◌, ◌≡◌, ◌↔◌, refl, ap, subst, List, [], ◌∷◌, ◌++◌, length, length-append,
  Option, none, some, arith,
}
use blockchain_zc_parser.Error.{ParseResult, ok, err, fault, and_then}
use blockchain_zc_parser.Target.{Target}
use blockchain_zc_parser.Cursor.Format.{IsValid, unread, advance, unread-advance, advance-IsValid}
use blockchain_zc_parser.Cursor.Checks.{Many}
use blockchain_zc_parser.Block.File.{BlkFileIter, next_block, EntryFormat}
use blockchain_zc_parser.Block.FileNext.{
  Next, ended, found, next_block-Next, next_block_entry, next_block_nil,
}

-- The loop, with fuel; `fault` says that the fuel ran out.
unfoldable pub more_blocks :
    (BlkFileIter → ParseResult (List (List ℕ)))
    → ParseResult (Option (List ℕ)) × BlkFileIter
    → ParseResult (List (List ℕ))
more_blocks again (ok none, it) = ok []
more_blocks again (ok (some block), it) = and_then (again it) λ blocks. ok (block ∷ blocks)
more_blocks again (err e, it) = err e
more_blocks again (fault, it) = fault

unfoldable pub read_blocks : Target → ℕ → BlkFileIter → ParseResult (List (List ℕ))
unfolding more_blocks
read_blocks t zero it = fault
read_blocks t (suc fuel) it = more_blocks (read_blocks t fuel) (next_block t it)

module _ (t : Target) where
  step_sound :
      (fuel : ℕ) (it : BlkFileIter) (blocks : List (List ℕ))
      → IsValid t it.cursor
      → (d : ParseResult (Option (List ℕ)) × BlkFileIter) → Next it d.0 d.1
      → more_blocks (read_blocks t fuel) d ≡ ok blocks
      → ((k : BlkFileIter) (bs : List (List ℕ))
          → IsValid t k.cursor
          → read_blocks t fuel k ≡ ok bs
          → Many (EntryFormat k.magic) bs (unread k.cursor))
      → Many (EntryFormat it.magic) blocks (unread it.cursor)
  unfolding more_blocks
  step_sound fuel it blocks v (ok none, k) (ended u e) h ih = rw (u, ok_nil blocks h)
    where
      ok_nil : (l : List (List ℕ)) → ok [] ≡ ok l → l ≡ []
      ok_nil l p = cc
  step_sound fuel it blocks v (ok (some block), k) (found _ bs rest f u e) h ih =
      go (read_blocks t fuel k) refl h
    where
      rest_of : unread k.cursor ≡ rest
      rest_of = rw e (unread-advance t it.cursor v bs rest u)

      go :
          (r : ParseResult (List (List ℕ)))
          → read_blocks t fuel k ≡ r
          → and_then r (λ more. ok (block ∷ more)) ≡ ok blocks
          → Many (EntryFormat it.magic) blocks (unread it.cursor)
      go (ok more) q p =
          rw (← (ok_cons blocks p), u)
            (
              bs,
              rest,
              f,
              subst (λ l. Many (EntryFormat it.magic) more l) rest_of
                  (subst (λ m. Many (EntryFormat m) more (unread k.cursor)) (ap (λ j. j.magic) e)
                    (ih k more (rw e (advance-IsValid t it.cursor v bs rest u)) q)),
              refl,
            )
        where
          ok_cons : (l : List (List ℕ)) → ok (block ∷ more) ≡ ok l → block ∷ more ≡ l
          ok_cons l w = cc
      go (err x) q p = absurd (cc)
      go fault q p = absurd (cc)
  step_sound fuel it blocks v (err x, k) p h ih = absurd (cc)
  step_sound fuel it blocks v (fault, k) p h ih = absurd (cc)

  blocks_sound :
      (fuel : ℕ) (it : BlkFileIter) (blocks : List (List ℕ))
      → IsValid t it.cursor
      → read_blocks t fuel it ≡ ok blocks
      → Many (EntryFormat it.magic) blocks (unread it.cursor)
  unfolding read_blocks
  blocks_sound zero it blocks v h = absurd (cc)
  blocks_sound (suc fuel) it blocks v h =
      step_sound fuel it blocks v (next_block t it) (next_block-Next t it v) h
        (λ k bs w e. blocks_sound fuel k bs w e)

  blocks_complete :
      (fuel : ℕ) (blocks : List (List ℕ)) (it : BlkFileIter)
      → IsValid t it.cursor
      → length blocks < fuel
      → Many (EntryFormat it.magic) blocks (unread it.cursor)
      → read_blocks t fuel it ≡ ok blocks
  unfolding read_blocks
  blocks_complete zero blocks it v l many = absurd (omega arith)
  blocks_complete (suc fuel) [] it v l many = rw (next_block_nil t it v many)
  blocks_complete (suc fuel) (b ∷ blocks) it v l (xs, ys, f, many, u) = rw (
    next_block_entry t it v b xs ys f u,
    blocks_complete fuel blocks (record it { cursor = advance it.cursor (length xs) })
        (advance-IsValid t it.cursor v xs ys u) (omega arith)
        (rw (unread-advance t it.cursor v xs ys u) many),
  )

  entries_length :
      (magic : List ℕ) (blocks : List (List ℕ)) (bs : List ℕ)
      → Many (EntryFormat magic) blocks bs
      → length blocks ≤ length bs
  entries_length magic [] bs e = omega arith
  entries_length magic (b ∷ blocks) bs (xs, ys, f, many, e) = omega (
    arith,
    entries_length magic blocks ys many,
    ap length e,
    length-append xs ys,
    ap length f.6,
    length-append magic (f.0 ++ b),
    f.1,
  )

  -- Calling `next_block` until it gives none yields `blocks`, without an error, exactly when the unread
  -- bytes are the entries of `blocks` one behind the other, to the end of the file: the magic, the size
  -- in four bytes, within the limit, and the block. One call for each byte and one more are enough. The
  -- iterator's cursor is valid.
  pub read_blocks_iff :
      (it : BlkFileIter) (blocks : List (List ℕ))
      → IsValid t it.cursor
      → (read_blocks t (suc (length (unread it.cursor))) it ≡ ok blocks)
        ↔ Many (EntryFormat it.magic) blocks (unread it.cursor)
  read_blocks_iff it blocks v = (
    blocks_sound (suc (length (unread it.cursor))) it blocks v,
    λ many.
        blocks_complete (suc (length (unread it.cursor))) blocks it v
          (omega (arith, entries_length it.magic blocks (unread it.cursor) many)) many,
  )

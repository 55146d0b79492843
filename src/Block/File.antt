-- ===== src/Block/File.antt =====
-- `BlkFileIter`: the blocks of a `blkNNNNN.dat` file, each behind the magic and its size.
use blockchain_zc_parser.Base.{
  ℕ, ◌≤◌, ◌≡◌, refl, sym, ap, ◌∙◌, subst, List, [], ◌++◌, length, Bool, true, false, not, ltb,
  ltb→le, le→ltb, if◌then◌else◌, Option, none, some, All,
}
use blockchain_zc_parser.Error.{ok, oversized_data, magic_mismatch}
use blockchain_zc_parser.Action.{Action, pure, ◌>>=◌, ◌>>◌, refuse_if}
use blockchain_zc_parser.Target.{Target}
use blockchain_zc_parser.Bytes.{IsByte, from_le_bytes}
use blockchain_zc_parser.Hash.{bytes_eq, bytes_eq→eq, bytes_eq_refl}
use blockchain_zc_parser.Cursor.{Cursor, new, is_empty, read_bytes, read_u32_le, read_array}
use blockchain_zc_parser.Cursor.Format.{Format, Decodes}
use blockchain_zc_parser.Cursor.Rules.{bind-Decodes}
use blockchain_zc_parser.Cursor.Checks.{refuse_if-Decodes, change-Decodes}
use blockchain_zc_parser.Cursor.Reads.{read_array-Decodes, read_u32_le-Decodes}
use blockchain_zc_parser.Cursor.Words.{Word, read_bytes-Decodes}
use blockchain_zc_parser.Transaction.Wire.{build-Decodes}
use blockchain_zc_parser.Block.{max_block_bytes}

pub record BlkFileIter : Type 0 where
  pub cursor : Cursor
  pub magic : List ℕ

abbrev pub new_file : List ℕ → List ℕ → BlkFileIter
new_file bs magic = record { cursor = new bs; magic = magic }

-- `as usize` loses nothing of a `u32`.
unfoldable pub read_entry : Target → List ℕ → Action Cursor (Option (List ℕ))
read_entry t expected = do
  magic ← read_array t 4
  refuse_if (not (bytes_eq magic expected)) (magic_mismatch expected magic)
  size ← read_u32_le t
  refuse_if (ltb max_block_bytes size) (oversized_data size max_block_bytes)
  block_bytes ← read_bytes t size
  pure (some block_bytes)

unfoldable pub next_block : Target → Action BlkFileIter (Option (List ℕ))
next_block t it =
    if is_empty it.cursor
    then (ok none, it)
    else (let (r, c) = read_entry t it.magic it.cursor in (r, record it { cursor = c }))

-- The magic, the size in four bytes and the block.
abbrev pub EntryFormat : List ℕ → Format (List ℕ)
EntryFormat magic block bs =
    (size_bytes : List ℕ) × (length magic ≡ 4)
    × All IsByte magic
    × Word 4 from_le_bytes (length block) size_bytes
    × (length block ≤ max_block_bytes)
    × All IsByte block
    × (bs ≡ magic ++ (size_bytes ++ block))

pub read_entry-Decodes :
    (t : Target) (magic : List ℕ)
    → Decodes t
        (read_entry t magic)
        (λ o bs. (block : List ℕ) × (o ≡ some block) × EntryFormat magic block bs)
unfolding read_entry
read_entry-Decodes t magic =
    change-Decodes t
      (bind-Decodes t (read_array-Decodes t 4) λ m _ _.
        bind-Decodes t (refuse_if-Decodes t (not (bytes_eq m magic)) (magic_mismatch magic m))
          λ _ _ _. bind-Decodes t (read_u32_le-Decodes t) λ size _ _.
            bind-Decodes t
              (refuse_if-Decodes t (ltb max_block_bytes size) (oversized_data size max_block_bytes))
              λ _ _ _. build-Decodes t some (read_bytes-Decodes t size))
      (λ o bs
          (
            m,
            xs,
            r₁,
            (e, l, ms),
            (
              _,
              es,
              r₂,
              (same, e₂),
              (size, zs, r₃, w, (_, fs, bb, (small, e₄), (block, q, (e₅, l₅, bs₅)), g₄), g₃),
              g₂,
            ),
            g₁,
          ).
        let found : m ≡ magic = bytes_eq→eq m magic (not_false _ same) in
        (
          block,
          q,
          (
            zs,
            rw (← found, e) l,
            rw (← found, e) ms,
            subst (λ k. Word 4 from_le_bytes k zs) (sym l₅ ∙ ap length (sym e₅)) w,
            subst (λ k. k ≤ max_block_bytes) (sym l₅ ∙ ap length (sym e₅))
                (ltb→le max_block_bytes size small),
            rw e₅ bs₅,
            rw (g₁, g₂, e₂, g₃, g₄, e₄, ← found, e, e₅),
          ),
        ))
      (λ o bs (block, q, (zs, l, ms, w, small, octets, g)). (
        magic,
        magic,
        zs ++ block,
        (refl, l, ms),
        (
          tt,
          [],
          zs ++ block,
          (rw (bytes_eq_refl magic), refl),
          (
            length block,
            zs,
            block,
            w,
            (
              tt,
              [],
              block,
              (le→ltb max_block_bytes (length block) small, refl),
              (block, q, (refl, refl, octets)),
              refl,
            ),
            refl,
          ),
          refl,
        ),
        g,
      ))
  where
    not_false : (b : Bool) → not b ≡ false → b ≡ true
    not_false true h = refl
    not_false false h = cc

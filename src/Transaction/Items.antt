-- ===== src/Transaction/Items.antt =====
-- `Witness::items` and `WitnessIter`: the items of a witness, one at a call.
use blockchain_zc_parser.Base.{
  ℕ, zero, suc, ◌-◌, ◌≡◌, refl, sym, ap, ◌∙◌, subst, List, [], ◌∷◌, length, false, ◌==◌,
  if◌then◌else◌, Option, none, some, arith,
}
use blockchain_zc_parser.Error.{ParseResult, ok, and_then}
use blockchain_zc_parser.Target.{Target, usize_max-ge}
use blockchain_zc_parser.Bytes.{slice}
use blockchain_zc_parser.Cursor.{Cursor, new, position, read_varint, read_var_bytes}
use blockchain_zc_parser.Cursor.Format.{IsValid, unread, advance, unread-advance, advance-IsValid}
use blockchain_zc_parser.Cursor.Checks.{Many}
use blockchain_zc_parser.Cursor.VarInt.{VarBytes, read_varint-Decodes, read_var_bytes-Decodes}
use blockchain_zc_parser.Transaction.{Witness, max_witness_item_size}
use blockchain_zc_parser.Transaction.Wire.{WitnessFormat}
use blockchain_zc_parser.Transaction.Witnesses.{new-IsValid, as_slice_lem}

pub record WitnessIter : Type 0 where
  pub cursor : Cursor
  pub remaining : ℕ

module _ (t : Target) where
  -- The result of the varint is dropped; the slice behind it may panic.
  unfoldable pub items : Witness → ParseResult WitnessIter
  items w =
      let (_, skip_cursor) = read_varint t (new w.raw) in
      and_then (slice w.raw (position skip_cursor) (length w.raw))
        λ rest. ok (record { cursor = new rest; remaining = w.item_count })

  unfoldable pub next_item : WitnessIter → Option (ParseResult (List ℕ)) × WitnessIter
  next_item it =
      if it.remaining == 0
      then (none, it)
      else (let (r, c) = read_var_bytes t max_witness_item_size it.cursor in
          (some r, record { cursor = c; remaining = it.remaining - 1 }))

  -- What the first `n` calls yield.
  unfoldable pub calls : ℕ → WitnessIter → List (Option (ParseResult (List ℕ)))
  calls zero it = []
  calls (suc n) it = let (o, it') = next_item it in o ∷ calls n it'

-- Every item, and then none.
abbrev pub yields : List (List ℕ) → List (Option (ParseResult (List ℕ)))
yields [] = none ∷ []
yields (a ∷ as') = some (ok a) ∷ yields as'

module _ (t : Target) where
  next_item_more :
      (n : ℕ) (c : Cursor)
      → next_item t (record { cursor = c; remaining = suc n }) ≡ (
        some (read_var_bytes t max_witness_item_size c).0,
        record { cursor = (read_var_bytes t max_witness_item_size c).1; remaining = n },
      )
  unfolding next_item
  next_item_more n c = rw (nonzero, one_less) refl
    where
      nonzero : (suc n == 0) ≡ false
      nonzero = ground arith

      one_less : suc n - 1 ≡ n
      one_less = omega arith

  next_item_done :
      (c : Cursor)
      → next_item t (record { cursor = c; remaining = 0 })
        ≡ (none, record { cursor = c; remaining = 0 })
  unfolding next_item
  next_item_done c = refl

  drained :
      (as' : List (List ℕ)) (c : Cursor) (ys : List ℕ)
      → IsValid t c
      → Many (VarBytes max_witness_item_size) as' ys
      → unread c ≡ ys
      → calls t (suc (length as')) (record { cursor = c; remaining = length as' }) ≡ yields as'
  unfolding calls
  drained [] c ys v many u = ap (λ k. k.0 ∷ []) ended
    where
      ended :
          next_item t (record { cursor = c; remaining = 0 })
          ≡ (none, record { cursor = c; remaining = 0 })
      ended = next_item_done c
  drained (a ∷ as') c ys v (xs, zs, f, many, e) u =
      ap (λ k. k.0 ∷ calls t (suc (length as')) k.1) (next_item_more (length as') c)
      ∙ (ap
            (λ k.
              some k.0
              ∷ calls t (suc (length as')) (record { cursor = k.1; remaining = length as' }))
            ((read_var_bytes-Decodes t max_witness_item_size
                (omega (arith, usize_max-ge t))).complete
              c a xs zs v f (u ∙ e))
          ∙ ap (λ l. some (ok a) ∷ l)
              (drained as' (advance c (length xs)) zs (advance-IsValid t c v xs zs (u ∙ e)) many
                (unread-advance t c v xs zs (u ∙ e))))

  -- For a witness whose raw bytes are the encoding of `as'`, as `Witness::parse` builds it, `items` gives
  -- an iterator without a panic, whose calls yield the items in their order without an error, and then
  -- none. The raw bytes make a valid cursor.
  pub items_lem :
      (as' : List (List ℕ)) (bs : List ℕ)
      → IsValid t (new bs)
      → WitnessFormat as' bs
      → (it : WitnessIter) × (items t (record { raw = bs; item_count = length as' }) ≡ ok it)
        × (calls t (suc (length as')) it ≡ yields as')
  unfolding items
  items_lem as' bs v (xs, ys, (h, l), many, e) = (
    record { cursor = new (unread behind); remaining = length as' },
    rw ((read_varint-Decodes t).complete (new bs) (length as') xs ys v h e, as_slice_lem t behind w)
        refl,
    drained as' (new (unread behind)) (unread behind) (new-IsValid t behind w)
        (subst (Many (VarBytes max_witness_item_size) as')
          (sym (unread-advance t (new bs) v xs ys e)) many)
        refl,
  )
    where
      behind : Cursor
      behind = advance (new bs) (length xs)

      w : IsValid t behind
      w = advance-IsValid t (new bs) v xs ys e

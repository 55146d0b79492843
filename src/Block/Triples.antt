-- ===== src/Block/Triples.antt =====
-- What the block parsers keep of the cursor and of the closures' state, and what their errors and the
-- elements that they hand over satisfy.
use blockchain_zc_parser.Base.{
  ℕ, ◌≡◌, refl, sym, ap, ◌∙◌, subst, List, ◌++◌, length, All, take, drop, take-append-drop, arith,
  inl, inr, ◌⊎◌, ◌≤◌, ◌<◌,
}
use blockchain_zc_parser.Error.{ParseError, ParseResult, ok, err, fault, and_then}
use blockchain_zc_parser.Error.Truthful.{Truthful}
use blockchain_zc_parser.Action.Triple.{
  Ends, Triple, Any, bind-Triple, after_triple, lift-Triple, pure-Triple,
}
use blockchain_zc_parser.Target.{Target}
use blockchain_zc_parser.Bytes.{IsByte}
use blockchain_zc_parser.Cursor.{Cursor, new, position, as_slice}
use blockchain_zc_parser.Cursor.Format.{IsValid, Format}
use blockchain_zc_parser.Cursor.Triples.{
  Within, Found, read_array-Triple, read_u32_le-Triple, read_i32_le-Triple, read_varint-Triple,
  to_usize-Triple, limit-Triple, skip-Triple,
}
use blockchain_zc_parser.Transaction.{TxInput, TxOutput, Callback, parse_with}
use blockchain_zc_parser.Transaction.Wire.{InputFormat, OutputFormat}
use blockchain_zc_parser.Transaction.Witnesses.{new-IsValid, as_slice_lem}
use blockchain_zc_parser.Transaction.Tail.{Summary}
use blockchain_zc_parser.Transaction.Triples.{Both, on_cursor-Triple, parse_with-Triple}
use blockchain_zc_parser.Block.{
  BlockHeader, BlockTxIter, header_fields, parse_header, read_prefix, new_iter, parse_next, next_tx,
  max_block_txn,
}
use blockchain_zc_parser.Block.Next.{next_tx_done, next_tx_more, count}
use mathlib.Core.List.{append_assoc}
use blockchain_zc_parser.Block.Header.{raw-IsValid}

module _ (t : Target) (E : ParseError → Type 0)
    (honest : (e : ParseError) → Truthful t e → E e) where
  header_fields-Triple : (bs raw : List ℕ) → Triple (Within t bs) E Any (header_fields t raw)
  unfolding header_fields
  header_fields-Triple bs raw = bind-Triple (read_i32_le-Triple t E honest bs) λ _ _.
      bind-Triple (read_array-Triple t E honest bs 32) λ _ _.
        bind-Triple (read_array-Triple t E honest bs 32) λ _ _.
          bind-Triple (read_u32_le-Triple t E honest bs) λ _ _.
            bind-Triple (read_u32_le-Triple t E honest bs)
              λ _ _. bind-Triple (read_u32_le-Triple t E honest bs) λ _ _. pure-Triple _ tt

  header_fields-Ends :
      (raw : List ℕ)
      → length raw ≡ 80
      → All IsByte raw
      → Ends E Any (header_fields t raw (new raw)).0
  header_fields-Ends raw l o =
      ((header_fields-Triple raw raw).triple (new raw)
        (record { same = refl; valid = raw-IsValid t raw l o })).1

  parse_header-Triple : (bs : List ℕ) → Triple (Within t bs) E Any (parse_header t)
  unfolding parse_header
  parse_header-Triple bs =
      bind-Triple (read_array-Triple t E honest bs 80) λ raw (part, (e, l, o), b).
        lift-Triple (header_fields t raw (new raw)).0
          (header_fields-Ends raw (ap length e ∙ l) (subst (All IsByte) (sym e) o))

  read_prefix-Triple : (bs : List ℕ) → Triple (Within t bs) E Any (read_prefix t)
  unfolding read_prefix
  read_prefix-Triple bs = bind-Triple (parse_header-Triple bs) λ h _.
      bind-Triple (read_varint-Triple t E honest bs) λ v _.
        bind-Triple (to_usize-Triple t E honest v)
          λ n _. bind-Triple (limit-Triple t E honest n max_block_txn) λ _ _. pure-Triple (h, n) tt

-- The bytes behind an offset, as an input of their own.
abbrev Tail : Target → List ℕ → List ℕ → Type 0
Tail t bs rest = IsValid t (new rest) × ((front : List ℕ) × (bs ≡ front ++ rest))

as_slice-Tail :
    (t : Target) (E : ParseError → Type 0) (bs : List ℕ) (c : Cursor)
    → Within t bs c
    → Ends E (Tail t bs) (as_slice c)
as_slice-Tail t E bs c w = subst (Ends E (Tail t bs)) (sym (as_slice_lem t c w.valid)) (
  new-IsValid t c w.valid,
  (
    take c.pos bs,
    sym (ap (λ k. take c.pos bs ++ k) (ap (drop c.pos) w.same) ∙ take-append-drop c.pos bs),
  ),
)

-- What is found in a tail is found in the whole.
tail-Found :
    {A : Type 0} (F : Format A) (bs front rest : List ℕ) (a : A)
    → bs ≡ front ++ rest
    → Found F rest a
    → Found F bs a
tail-Found F bs front rest a h (part, f, (before, back, e)) = (
  part,
  f,
  (
    front ++ before,
    back,
    h ∙ (ap (λ k. front ++ k) e ∙ sym (append_assoc front before (part ++ back))),
  ),
)

-- The iterator's cursor and the closures' state.
abbrev pub Iterates : {S : Type 0} → Target → List ℕ → (S → Type 0) → BlockTxIter × S → Type 0
Iterates t bs P x = Within t bs x.0.cursor × P x.1

-- The block header and an iterator over the bytes.
abbrev pub Over : Target → List ℕ → BlockHeader × BlockTxIter → Type 0
Over t bs (h, it) = Within t bs it.cursor

module _ (t : Target) (bs : List ℕ) where
  -- `BlockTxIter::new` on a slice of bytes does not panic; the iterator that it returns has a valid cursor
  -- over the slice; and what its errors say of the numbers in them is so.
  pub new_iter-Ends : IsValid t (new bs) → Ends (Truthful t) (Over t bs) (new_iter t bs)
  unfolding new_iter
  new_iter-Ends v =
      let (w, q) =
        (read_prefix-Triple t (Truthful t) (λ e h. h) bs).triple (new bs)
          (record { same = refl; valid = v }) in
      go (read_prefix t (new bs)) w q
    where
      go :
          (d : ParseResult (BlockHeader × ℕ) × Cursor)
          → Within t bs d.1
          → Ends (Truthful t) Any d.0
          → Ends (Truthful t) (Over t bs) (
              and_then d.0
                λ (header, n). ok (header, record { cursor = d.1; total = n; consumed = 0 }))
      go (ok (h, n), c) w q = w
      go (err e, c) w q = q
      go (fault, c) w q = q

module _ (t : Target) (E : ParseError → Type 0) (honest : (e : ParseError) → Truthful t e → E e)
    (bs : List ℕ) where
  module _ {S : Type 0} (P : S → Type 0) (on_input : Callback S TxInput)
      (on_output : Callback S TxOutput)
      (keep_in : (i : TxInput) → Found InputFormat bs i → Triple P E Any (on_input i))
      (keep_out : (o : TxOutput) → Found OutputFormat bs o → Triple P E Any (on_output o)) where
    pub parse_next-Triple : Triple (Both t bs P) E Any (parse_next t on_input on_output)
    unfolding parse_next
    parse_next-Triple = record {
      triple = λ (c, s) (w, i).
          after_triple {I = Both t bs P} (as_slice c, (c, s)) (w, i) (as_slice-Tail t E bs c w)
            λ rest (v, (front, h)). record {
              triple = λ (c, s) (w, i).
                  let d : ParseResult Summary × (Cursor × S) =
                    parse_with t on_input on_output (new rest, s) in
                  let ((_, j), q) =
                    (parse_with-Triple t E honest P rest on_input on_output
                        (λ a f. keep_in a (tail-Found InputFormat bs front rest a h f))
                        (λ a f. keep_out a (tail-Found OutputFormat bs front rest a h f))).triple
                      (new rest, s) (record { same = refl; valid = v }, i) in
                  after_triple {I = Both t bs P} (d.0, (c, d.1.1)) (w, j) q
                    λ _ _.
                      on_cursor-Triple t E honest P bs (skip-Triple t E honest bs (position d.1.0));
            };
    }

    counted :
        (it : BlockTxIter) (d : ParseResult (Unit {0}) × (Cursor × S))
        → Within t bs d.1.0 × P d.1.1
        → Ends E Any d.0
        → Iterates t bs P (count t on_input on_output it d).1
          × Ends E Any (count t on_input on_output it d).0
    counted it (ok u, d) h q = (h, tt)
    counted it (err e, d) h q = (h, q)
    counted it (fault, d) h q = (h, q)

    -- Of closures that do not panic, keep `P` of their state and fail only with errors of `E`, as long as
    -- they are called with inputs and outputs whose serialised form is a part of the iterator's bytes:
    -- `next_tx`, whatever the bytes and the iterator's counters, does not panic, leaves a valid cursor
    -- over the same bytes, keeps `P`, and fails only with errors of `E`, which has to hold of the errors
    -- whose numbers are truthful. So every element handed over is a part of the buffer, also on a failure.
    pub next_tx-Triple : Triple (Iterates t bs P) E Any (next_tx t on_input on_output)
    next_tx-Triple = record { triple = λ (it, s) (w, i). go it s w i (omega arith) }
      where
        go :
            (it : BlockTxIter) (s : S)
            → Within t bs it.cursor
            → P s
            → (it.total ≤ it.consumed) ⊎ (it.consumed < it.total)
            → Iterates t bs P (next_tx t on_input on_output (it, s)).1
              × Ends E Any (next_tx t on_input on_output (it, s)).0
        go it s w i (inl l) = rw (next_tx_done t on_input on_output it s l) ((w, i), tt)
        go it s w i (inr l) = rw (next_tx_more t on_input on_output it s l) (
            let (h, q) = parse_next-Triple.triple (it.cursor, s) (w, i) in
            counted it (parse_next t on_input on_output (it.cursor, s)) h q)

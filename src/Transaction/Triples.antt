-- ===== src/Transaction/Triples.antt =====
-- What the parsers of a transaction's pieces and the streaming parser keep of the cursor and of the
-- closures' state, and what their errors and the elements that they hand over satisfy.
use blockchain_zc_parser.Base.{
  ℕ, ◌≡◌, ◌≢◌, refl, sym, ap, ◌∙◌, subst, List, Bool, true, false, ◌==◌, not, arith,
}
use blockchain_zc_parser.Base.Int.{ℤ}
use blockchain_zc_parser.Error.{
  ParseError, ParseResult, ok, err, fault, and_then, invalid_segwit_flag, invalid_input_count,
}
use blockchain_zc_parser.Error.Truthful.{Truthful, segwit_flag, no_inputs}
use blockchain_zc_parser.Action.{Action, after}
use blockchain_zc_parser.Action.Triple.{
  Ends, Triple, Any, any-Triple, bind-Triple, pure-Triple, refuse_if-Triple, for_range-Triple,
  if-Triple,
}
use blockchain_zc_parser.Target.{Target}
use blockchain_zc_parser.Bytes.{slice}
use blockchain_zc_parser.Script.{parse_script, max_script_size}
use blockchain_zc_parser.Cursor.{Cursor, new, position, skip}
use blockchain_zc_parser.Cursor.Format.{unread, IsValid}
use blockchain_zc_parser.Cursor.Triples.{
  Within, Found, format-Triple, raised, read_u8-Triple, read_array-Triple, read_u16_le-Triple,
  read_u32_le-Triple, read_i32_le-Triple, read_u64_le-Triple, read_varint-Triple, to_usize-Triple,
  limit-Triple, read_var_bytes-Triple, skip-Triple,
}
use blockchain_zc_parser.Transaction.{
  Witness, TxInput, TxOutput, Callback, on_cursor, on_user, parse_out_point, parse_input,
  parse_output, read_witness, parse_witness, skip_witness, parse_with, detect_segwit,
  varint_from_first, max_io_count, max_witness_items, max_witness_item_size,
}
use blockchain_zc_parser.Transaction.Wire.{
  InputFormat, OutputFormat, parse_input-Decodes, parse_output-Decodes,
}
use blockchain_zc_parser.Transaction.Witnesses.{cut, new-IsValid}
use blockchain_zc_parser.Transaction.Skip.{
  WitnessSkipped, skip_witness-parsed, skip_witness-Decodes,
}
use blockchain_zc_parser.Transaction.Tail.{finish, read_outputs}

-- The cursor and the closures' state.
abbrev pub Both : {S : Type 0} → Target → List ℕ → (S → Type 0) → Cursor × S → Type 0
Both t bs P x = Within t bs x.0 × P x.1

err_injective : (A : Type 0) (x e : ParseError) → ◌≡◌ {A = ParseResult A} (err x) (err e) → x ≡ e
err_injective A x e q = cc

module _ (t : Target) (E : ParseError → Type 0)
    (honest : (e : ParseError) → Truthful t e → E e) where
  parse_script-Triple : (bs : List ℕ) → Triple (Within t bs) E Any (parse_script t)
  unfolding parse_script
  parse_script-Triple bs =
      bind-Triple (read_var_bytes-Triple t E honest bs max_script_size) λ _ _. pure-Triple _ tt

  parse_out_point-Triple : (bs : List ℕ) → Triple (Within t bs) E Any (parse_out_point t)
  unfolding parse_out_point
  parse_out_point-Triple bs =
      bind-Triple (read_array-Triple t E honest bs 32)
        λ _ _. bind-Triple (read_u32_le-Triple t E honest bs) λ _ _. pure-Triple _ tt

  parse_input-Any : (bs : List ℕ) → Triple (Within t bs) E Any (parse_input t)
  unfolding parse_input
  parse_input-Any bs = bind-Triple (parse_out_point-Triple bs) λ _ _.
      bind-Triple (parse_script-Triple bs)
        λ _ _. bind-Triple (read_u32_le-Triple t E honest bs) λ _ _. pure-Triple _ tt

  parse_output-Any : (bs : List ℕ) → Triple (Within t bs) E Any (parse_output t)
  unfolding parse_output
  parse_output-Any bs =
      bind-Triple (read_u64_le-Triple t E honest bs)
        λ _ _. bind-Triple (parse_script-Triple bs) λ _ _. pure-Triple _ tt

  parse_input-Triple : (bs : List ℕ) → Triple (Within t bs) E (Found InputFormat bs) (parse_input t)
  parse_input-Triple bs =
      format-Triple t bs E (parse_input-Decodes t) (raised t bs E parse_input-Any)

  parse_output-Triple :
      (bs : List ℕ) → Triple (Within t bs) E (Found OutputFormat bs) (parse_output t)
  parse_output-Triple bs =
      format-Triple t bs E (parse_output-Decodes t) (raised t bs E parse_output-Any)

  read_witness-Triple : (bs : List ℕ) → Triple (Within t bs) E Any (read_witness t)
  unfolding read_witness
  read_witness-Triple bs = bind-Triple (read_varint-Triple t E honest bs) λ v _.
      bind-Triple (to_usize-Triple t E honest v) λ n _.
        bind-Triple (limit-Triple t E honest n max_witness_items) λ _ _.
          bind-Triple
            (for_range-Triple n (
              bind-Triple (read_var_bytes-Triple t E honest bs max_witness_item_size)
                λ _ _. pure-Triple tt tt))
            λ _ _. pure-Triple n tt

  varint_from_first-Triple :
      (bs : List ℕ) (b : ℕ) → Triple (Within t bs) E Any (varint_from_first t b)
  unfolding varint_from_first
  varint_from_first-Triple bs b = if-Triple _ (pure-Triple b tt) (
      if-Triple (b == 0xfd) (read_u16_le-Triple t E honest bs) (
        if-Triple (b == 0xfe) (read_u32_le-Triple t E honest bs)
          (read_u64_le-Triple t E honest bs)))

  detect_segwit-Triple : (bs : List ℕ) (b : ℕ) → Triple (Within t bs) E Any (detect_segwit t b)
  unfolding detect_segwit
  detect_segwit-Triple bs b =
      if-Triple (b == 0)
        (bind-Triple (read_u8-Triple t E honest bs) λ flag _.
          bind-Triple
            (refuse_if-Triple (not (flag == 1)) (invalid_segwit_flag flag)
              (λ h. honest _ (segwit_flag (other flag h))))
            λ _ _. pure-Triple true tt)
        (pure-Triple false tt)
    where
      other : (flag : ℕ) → not (flag == 1) ≡ true → flag ≢ 1
      other flag h e = ground arith

  -- The slice behind the reads of a witness gives no error of its own.
  sliced_err :
      (d : ParseResult ℕ × Cursor) (xs : List ℕ) (e : ParseError)
      → Ends E Any d.0
      → cut t d xs ≡ err e
      → E e
  unfolding cut
  sliced_err (ok n, c) xs e h q = absurd (no_error (slice xs 0 (position c)) (slice_ne xs c) q)
    where
      slice_ne : (xs : List ℕ) (c : Cursor) (e : ParseError) → slice xs 0 (position c) ≢ err e
      slice_ne xs c e q = ground arith

      no_error :
          (r : ParseResult (List ℕ))
          → ((e : ParseError) → r ≢ err e)
          → and_then {B = Witness × ℕ} r
              (λ raw. ok (record { raw = raw; item_count = n }, position c))
            ≢ err e
      no_error (ok raw) k q = cc
      no_error (err x) k q = k x refl
      no_error fault k q = cc
  sliced_err (err x, c) xs e h q = subst E (err_injective (Witness × ℕ) x e q) h
  sliced_err (fault, c) xs e h q = elim h [ ]

  parse_witness_err :
      (xs : List ℕ) (e : ParseError) → IsValid t (new xs) → parse_witness t xs ≡ err e → E e
  unfolding parse_witness cut
  parse_witness_err xs e v q =
      sliced_err (read_witness t (new xs)) xs e
        ((read_witness-Triple xs).triple (new xs) (record { same = refl; valid = v })).1 q

  skip_witness-Triple :
      (bs : List ℕ) → Triple (Within t bs) E (Found WitnessSkipped bs) (skip_witness t)
  skip_witness-Triple bs = format-Triple t bs E (skip_witness-Decodes t) λ c e v q.
      go c e v (parse_witness t (unread c))
        (λ x. parse_witness_err (unread c) x (new-IsValid t c v))
        (sym (ap (λ k. k.0) (skip_witness-parsed t c v)) ∙ q)
    where
      go :
          (c : Cursor) (e : ParseError)
          → IsValid t c
          → (r : ParseResult (Witness × ℕ)) → ((x : ParseError) → r ≡ err x → E x)
          → (after (r, c) (λ (_, consumed). skip t consumed)).0 ≡ err e
          → E e
      go c e v (ok (w, n)) h q = raised t bs E (λ xs. skip-Triple t E honest xs n) c e v q
      go c e v (err x) h q = h e (ap err (err_injective (Unit {0}) x e q))
      go c e v fault h q = absurd (cc)

  module _ {S : Type 0} (P : S → Type 0) where
    pub on_cursor-Triple :
        {A : Type 0} {Q : A → Type 0} (bs : List ℕ) {p : Action Cursor A}
        → Triple (Within t bs) E Q p
        → Triple (Both t bs P) E Q (on_cursor p)
    on_cursor-Triple bs h = record {
      triple = λ x (w, i). let (v, q) = h.triple x.0 w in ((v, i), q);
    }

    on_user-Triple :
        {A : Type 0} (bs : List ℕ) {p : Action S A}
        → Triple P E Any p
        → Triple (Both t bs P) E Any (on_user p)
    on_user-Triple bs h = record { triple = λ x (w, i). let (j, q) = h.triple x.1 i in ((w, j), q) }

    finish-Triple :
        (bs : List ℕ) (version : ℤ) (seg : Bool) (n m : ℕ)
        → Triple (Both t bs P) E Any (finish t version seg n m)
    finish-Triple bs version seg n m =
        bind-Triple
          (if-Triple seg
            (for_range-Triple n (on_cursor-Triple bs (any-Triple (skip_witness-Triple bs))))
            (pure-Triple tt tt))
          λ _ _.
            bind-Triple (on_cursor-Triple bs (read_u32_le-Triple t E honest bs))
              λ lock _. pure-Triple _ tt

    module _ (bs : List ℕ) (on_input : Callback S TxInput) (on_output : Callback S TxOutput)
        (keep_in : (i : TxInput) → Found InputFormat bs i → Triple P E Any (on_input i))
        (keep_out : (o : TxOutput) → Found OutputFormat bs o → Triple P E Any (on_output o)) where
      read_outputs-Triple :
          (version : ℤ) (seg : Bool) (n : ℕ)
          → Triple (Both t bs P) E Any (read_outputs t on_output version seg n)
      read_outputs-Triple version seg n =
          bind-Triple (on_cursor-Triple bs (read_varint-Triple t E honest bs)) λ w _.
            bind-Triple (to_usize-Triple t E honest w) λ m _.
              bind-Triple (limit-Triple t E honest m max_io_count) λ _ _.
                bind-Triple
                  (for_range-Triple m (
                    bind-Triple (on_cursor-Triple bs (parse_output-Triple bs))
                      λ o f. on_user-Triple bs (keep_out o f)))
                  λ _ _. finish-Triple bs version seg n m

      pub parse_with-Triple : Triple (Both t bs P) E Any (parse_with t on_input on_output)
      unfolding parse_with
      parse_with-Triple =
          bind-Triple (on_cursor-Triple bs (read_i32_le-Triple t E honest bs)) λ version _.
            bind-Triple (on_cursor-Triple bs (read_u8-Triple t E honest bs)) λ b _.
              bind-Triple (on_cursor-Triple bs (detect_segwit-Triple bs b)) λ seg _.
                bind-Triple
                  (on_cursor-Triple bs (
                    if-Triple seg (read_varint-Triple t E honest bs)
                      (varint_from_first-Triple bs b)))
                  λ v _. bind-Triple (to_usize-Triple t E honest v) λ n _.
                    bind-Triple
                      (refuse_if-Triple (n == 0) invalid_input_count (λ _. honest _ no_inputs))
                      λ _ _. bind-Triple (limit-Triple t E honest n max_io_count) λ _ _.
                        bind-Triple
                          (for_range-Triple n (
                            bind-Triple (on_cursor-Triple bs (parse_input-Triple bs))
                              λ i f. on_user-Triple bs (keep_in i f)))
                          λ _ _. read_outputs-Triple version seg n

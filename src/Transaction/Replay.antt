-- ===== src/Transaction/Replay.antt =====
-- The streaming parser `parse_with` and its closures: what it does, from its recorded calls.
use blockchain_zc_parser.Base.{ℕ, ◌≡◌, refl, sym, ap, ◌∙◌, [], Bool, if◌then◌else◌, ◌==◌, ltb}
use blockchain_zc_parser.Base.Int.{ℤ}
use blockchain_zc_parser.Error.{ParseResult, ok, err, fault, invalid_input_count, oversized_data}
use blockchain_zc_parser.Action.{after, lift, ◌>>◌}
use blockchain_zc_parser.Target.{Target, to_usize}
use blockchain_zc_parser.Cursor.{Cursor, read_i32_le, read_u8, read_varint, read_u32_le}
use blockchain_zc_parser.Transaction.{
  TxInput, TxOutput, Callback, parse_input, parse_output, skip_witness, parse_with, detect_segwit,
  varint_from_first, max_io_count,
}
use blockchain_zc_parser.Transaction.Tail.{finish, read_outputs}
use blockchain_zc_parser.Transaction.Events.{
  record_input, record_output, replay, outcome, Follows, bind-Follows, on_cursor-Follows,
  input-Follows, output-Follows, lift-Follows, refuse_if-Follows, for_range-Follows, if-Follows,
}

module _ {S : Type 0} (on_input : Callback S TxInput) (on_output : Callback S TxOutput)
    (t : Target) where
  finish-Follows :
      (version : ℤ) (seg : Bool) (n m : ℕ)
      → Follows on_input on_output (finish t version seg n m) (finish t version seg n m)
  finish-Follows version seg n m =
      bind-Follows (if-Follows seg (for_range-Follows n (on_cursor-Follows (skip_witness t)))) λ _.
        bind-Follows (on_cursor-Follows (read_u32_le t))
          λ lock. lift-Follows (ok (version, lock, n, m))

  read_outputs-Follows :
      (version : ℤ) (seg : Bool) (n : ℕ)
      → Follows on_input on_output
          (read_outputs t record_output version seg n)
          (read_outputs t on_output version seg n)
  read_outputs-Follows version seg n = bind-Follows (on_cursor-Follows (read_varint t)) λ w.
      bind-Follows (lift-Follows (to_usize t w)) λ m.
        bind-Follows (refuse_if-Follows (ltb max_io_count m) (oversized_data m max_io_count)) λ _.
          bind-Follows
            (for_range-Follows m (bind-Follows (on_cursor-Follows (parse_output t)) output-Follows))
            λ _. finish-Follows version seg n m

  pub parse_with-Follows :
      Follows on_input on_output
        (parse_with t record_input record_output)
        (parse_with t on_input on_output)
  unfolding parse_with
  parse_with-Follows = bind-Follows (on_cursor-Follows (read_i32_le t)) λ version.
      bind-Follows (on_cursor-Follows read_u8) λ b.
        bind-Follows (on_cursor-Follows (detect_segwit t b)) λ seg.
          bind-Follows (on_cursor-Follows (if seg then read_varint t else varint_from_first t b))
            λ v. bind-Follows (lift-Follows (to_usize t v)) λ n.
              bind-Follows (refuse_if-Follows (n == 0) invalid_input_count) λ _.
                bind-Follows
                  (refuse_if-Follows (ltb max_io_count n) (oversized_data n max_io_count))
                  λ _.
                    bind-Follows
                      (for_range-Follows n
                        (bind-Follows (on_cursor-Follows (parse_input t)) input-Follows))
                      λ _. read_outputs-Follows version seg n

module _ (t : Target) {S : Type 0} (on_input : Callback S TxInput)
    (on_output : Callback S TxOutput) where
  -- What `parse_with` does on any input, as its recorded calls replayed; `k` is the cursor at a closure's
  -- failure.
  pub parse_with-outcome :
      (c : Cursor) (s : S)
      → (k : Cursor) × (parse_with t on_input on_output (c, s)
          ≡ outcome
              (replay on_input on_output (parse_with t record_input record_output (c, [])).1.1 s)
              (parse_with t record_input record_output (c, [])).0
              (parse_with t record_input record_output (c, [])).1.0
              k)
  parse_with-outcome c s =
      let (es, k, e, m) = (parse_with-Follows on_input on_output t).follows c [] s in
      (
        k,
        m
            ∙ ap
                (λ l.
                  outcome (replay on_input on_output l s)
                    (parse_with t record_input record_output (c, [])).0
                    (parse_with t record_input record_output (c, [])).1.0 k)
                (sym e),
      )

-- The result of a streaming parser and the closures' state, without the cursor.
abbrev pub at_user : {S A : Type 0} → ParseResult A × (Cursor × S) → ParseResult A × S
at_user (r, (c, s)) = (r, s)

-- On any input, `parse_with` returns what a replay of its recorded calls returns with the parser's own
-- result behind it, in the closures' state that the replay reaches: the closures are called with the
-- recorded elements in their order, up to the first call that fails, whose error is the result.
pub parse_with-replay :
    (t : Target) {S : Type 0} (on_input : Callback S TxInput) (on_output : Callback S TxOutput)
    (c : Cursor) (s : S)
    → at_user (parse_with t on_input on_output (c, s))
      ≡ (replay on_input on_output (parse_with t record_input record_output (c, [])).1.1
            >> lift (parse_with t record_input record_output (c, [])).0)
          s
parse_with-replay t {S} on_input on_output c s =
    let (k, m) = parse_with-outcome t on_input on_output c s in
    ap at_user m
    ∙ go (replay on_input on_output (parse_with t record_input record_output (c, [])).1.1 s) _ _ k
  where
    go :
        {A : Type 0} (w : ParseResult (Unit {0}) × S) (r : ParseResult A) (x y : Cursor)
        → at_user (outcome w r x y) ≡ after w (λ _. lift r)
    go (ok u, m) r x y = refl
    go (err e, m) r x y = refl
    go (fault, m) r x y = refl

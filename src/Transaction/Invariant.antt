-- ===== src/Transaction/Invariant.antt =====
-- An invariant of the closures' state through the streaming parser `parse_with`.
use blockchain_zc_parser.Base.{ℕ, zero, suc, Bool, true, false, if◌then◌else◌, ◌==◌, ltb}
use blockchain_zc_parser.Base.Int.{ℤ}
use blockchain_zc_parser.Error.{
  ParseError, ParseResult, ok, err, fault, invalid_input_count, oversized_data,
}
use blockchain_zc_parser.Action.{Action, after, lift, pure, ◌>>=◌, refuse_if, for_range}
use blockchain_zc_parser.Target.{Target, to_usize}
use blockchain_zc_parser.Cursor.{Cursor, read_i32_le, read_u8, read_varint, read_u32_le}
use blockchain_zc_parser.Transaction.{
  TxInput, TxOutput, Callback, Streaming, on_cursor, on_user, parse_input, parse_output,
  skip_witness, parse_with, detect_segwit, varint_from_first, max_io_count,
}
use blockchain_zc_parser.Transaction.Tail.{finish, read_outputs}

-- Each call of the closure keeps `P`, whatever it returns.
abbrev pub IsKept : {S A : Type 0} → (S → Type 0) → Callback S A → Type 0
IsKept {S} {A} P on = (a : A) (s : S) → P s → P (on a s).1

-- A streaming parser keeps `P` of the closures' state, whatever it returns.
pub record Keeps {S : Type 0} (P : S → Type 0) {A : Type 0} (p : Streaming S A) : Type 0 where
  pub keeps : (c : Cursor) (s : S) → P s → P (p (c, s)).1.1

module _ {S : Type 0} {P : S → Type 0} where
  pub after_keeps :
      {A B : Type 0} {f : A → Streaming S B}
      → (r : ParseResult A × (Cursor × S)) → P r.1.1
      → ((a : A) → Keeps P (f a))
      → P (after r f).1.1
  after_keeps (ok a, (c, s)) h k = (k a).keeps c s h
  after_keeps (err e, (c, s)) h k = h
  after_keeps (fault, (c, s)) h k = h

  bind-Keeps :
      {A B : Type 0} {p : Streaming S A} {f : A → Streaming S B}
      → Keeps P p
      → ((a : A) → Keeps P (f a))
      → Keeps P (p >>= f)
  bind-Keeps {p} h k = record { keeps = λ c s i. after_keeps (p (c, s)) (h.keeps c s i) k }

  on_cursor-Keeps : {A : Type 0} (p : Action Cursor A) → Keeps P (on_cursor p)
  on_cursor-Keeps p = record { keeps = λ c s h. h }

  on_user-Keeps :
      {A : Type 0} (on : Callback S A) → IsKept P on → (a : A) → Keeps P (on_user (on a))
  on_user-Keeps on k a = record { keeps = λ c s h. k a s h }

  lift-Keeps : {A : Type 0} (r : ParseResult A) → Keeps P (lift r)
  lift-Keeps r = record { keeps = λ c s h. h }

  refuse_if-Keeps : (b : Bool) (e : ParseError) → Keeps P (refuse_if b e)
  refuse_if-Keeps true e = record { keeps = λ c s h. h }
  refuse_if-Keeps false e = record { keeps = λ c s h. h }

  for_range-Keeps :
      {body : Streaming S (Unit {0})} → (n : ℕ) → Keeps P body → Keeps P (for_range n body)
  unfolding for_range
  for_range-Keeps zero b = record { keeps = λ c s h. h }
  for_range-Keeps (suc n) b = bind-Keeps b (λ _. for_range-Keeps n b)

  if-Keeps :
      {p : Streaming S (Unit {0})} → (b : Bool) → Keeps P p → Keeps P (if b then p else pure tt)
  if-Keeps true h = h
  if-Keeps false h = record { keeps = λ c s i. i }

module _ (t : Target) {S : Type 0} (on_input : Callback S TxInput) (on_output : Callback S TxOutput)
    (P : S → Type 0) (keep_in : IsKept P on_input) (keep_out : IsKept P on_output) where
  elements :
      {A : Type 0} (p : Action Cursor A) (on : Callback S A)
      → IsKept P on
      → (n : ℕ) → Keeps P (for_range n (on_cursor p >>= λ a. on_user (on a)))
  elements p on k n = for_range-Keeps n (bind-Keeps (on_cursor-Keeps p) (on_user-Keeps on k))

  finish-Keeps : (version : ℤ) (seg : Bool) (n m : ℕ) → Keeps P (finish t version seg n m)
  finish-Keeps version seg n m =
      bind-Keeps (if-Keeps seg (for_range-Keeps n (on_cursor-Keeps (skip_witness t)))) λ _.
        bind-Keeps (on_cursor-Keeps (read_u32_le t)) λ lock. lift-Keeps (ok (version, lock, n, m))

  read_outputs-Keeps :
      (version : ℤ) (seg : Bool) (n : ℕ) → Keeps P (read_outputs t on_output version seg n)
  read_outputs-Keeps version seg n = bind-Keeps (on_cursor-Keeps (read_varint t)) λ w.
      bind-Keeps (lift-Keeps (to_usize t w)) λ m.
        bind-Keeps (refuse_if-Keeps (ltb max_io_count m) (oversized_data m max_io_count)) λ _.
          bind-Keeps (elements (parse_output t) on_output keep_out m)
            λ _. finish-Keeps version seg n m

  pub parse_with-Keeps : Keeps P (parse_with t on_input on_output)
  unfolding parse_with
  parse_with-Keeps = bind-Keeps (on_cursor-Keeps (read_i32_le t)) λ version.
      bind-Keeps (on_cursor-Keeps read_u8) λ b.
        bind-Keeps (on_cursor-Keeps (detect_segwit t b)) λ seg.
          bind-Keeps (on_cursor-Keeps (if seg then read_varint t else varint_from_first t b)) λ v.
            bind-Keeps (lift-Keeps (to_usize t v)) λ n.
              bind-Keeps (refuse_if-Keeps (n == 0) invalid_input_count) λ _.
                bind-Keeps (refuse_if-Keeps (ltb max_io_count n) (oversized_data n max_io_count))
                  λ _.
                    bind-Keeps (elements (parse_input t) on_input keep_in n)
                      λ _. read_outputs-Keeps version seg n

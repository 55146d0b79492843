-- ===== src/Transaction/Wire.antt =====
-- The wire formats of inputs, outputs and witnesses, and that the parsers read them.
use blockchain_zc_parser.Base.{
  ℕ, ◌≡◌, refl, sym, ap, ◌∙◌, subst, List, [], ◌++◌, append-nil, length, arith,
}
use blockchain_zc_parser.Action.{Action, pure, ◌>>=◌}
use blockchain_zc_parser.Target.{Target, usize_max-ge}
use blockchain_zc_parser.Bytes.{from_le_bytes}
use blockchain_zc_parser.Script.{Script, parse_script, max_script_size}
use blockchain_zc_parser.Cursor.{Cursor}
use blockchain_zc_parser.Cursor.Format.{Format, Decodes}
use blockchain_zc_parser.Cursor.Rules.{bind-Decodes}
use blockchain_zc_parser.Cursor.Checks.{pure-Decodes, change-Decodes, for_range-Decodes, Many}
use blockchain_zc_parser.Cursor.Reads.{read_array-Decodes, read_u32_le-Decodes, read_u64_le-Decodes}
use blockchain_zc_parser.Cursor.Words.{Raw, Word}
use blockchain_zc_parser.Cursor.VarInt.{UpTo, VarBytes, counted-Decodes, read_var_bytes-Decodes}
use blockchain_zc_parser.Transaction.{
  OutPoint, TxInput, TxOutput, parse_out_point, parse_input, parse_output, read_witness,
  max_witness_items, max_witness_item_size,
}

-- A script behind its length.
abbrev pub ScriptFormat : Format Script
ScriptFormat s bs = VarBytes max_script_size s.bytes bs

-- 32 bytes of the transaction's hash, and the output's index.
abbrev pub OutPointFormat : Format OutPoint
OutPointFormat o bs =
    (xs : List ℕ) × (ys : List ℕ) × Raw 32 o.txid.array xs
    × Word 4 from_le_bytes o.vout ys
    × (bs ≡ xs ++ ys)

abbrev pub InputFormat : Format TxInput
InputFormat i bs =
    (xs : List ℕ) × (ys : List ℕ) × (zs : List ℕ) × OutPointFormat i.previous_output xs
    × ScriptFormat i.script_sig ys
    × Word 4 from_le_bytes i.sequence zs
    × (bs ≡ xs ++ (ys ++ zs))

abbrev pub OutputFormat : Format TxOutput
OutputFormat o bs =
    (xs : List ℕ) × (ys : List ℕ) × Word 8 from_le_bytes o.value xs
    × ScriptFormat o.script_pubkey ys
    × (bs ≡ xs ++ ys)

-- The item count, and so many items behind their lengths.
abbrev pub WitnessFormat : Format (List (List ℕ))
WitnessFormat items bs =
    (xs : List ℕ) × (ys : List ℕ) × UpTo max_witness_items (length items) xs
    × Many (VarBytes max_witness_item_size) items ys
    × (bs ≡ xs ++ ys)

-- A last step that only builds the result.
pub build-Decodes :
    (t : Target) {A B : Type 0} {p : Action Cursor A} {F : Format A} (f : A → B)
    → Decodes t p F
    → Decodes t (p >>= λ a. pure (f a)) (λ b bs. (a : A) × (b ≡ f a) × F a bs)
build-Decodes t {F} f d =
    change-Decodes t (bind-Decodes t d (λ a bs h. pure-Decodes t (f a)))
      (λ b bs (a, xs, ys, h, (e, n), s). (a, e, subst (F a) (sym (append-nil xs) ∙ rw (s, n)) h))
      (λ b bs (a, e, h). (a, bs, [], h, (e, refl), sym (append-nil bs)))

pub parse_script-Decodes : (t : Target) → Decodes t (parse_script t) ScriptFormat
unfolding parse_script
parse_script-Decodes t =
    change-Decodes t
      (build-Decodes t (λ bs. record { bytes = bs })
        (read_var_bytes-Decodes t max_script_size (omega (arith, usize_max-ge t))))
      (λ s bs (a, e, h). subst (λ k. VarBytes max_script_size k bs) (sym (ap (λ k. k.bytes) e)) h)
      (λ s bs h. (s.bytes, refl, h))

pub parse_out_point-Decodes : (t : Target) → Decodes t (parse_out_point t) OutPointFormat
unfolding parse_out_point
parse_out_point-Decodes t =
    change-Decodes t
      (bind-Decodes t (read_array-Decodes t 32) λ a bs h.
        build-Decodes t (λ n. record { txid = record { array = a }; vout = n })
          (read_u32_le-Decodes t))
      (λ o bs (a, xs, ys, h, (n, e, k), s). rw e (xs, ys, h, k, s))
      (λ o bs (xs, ys, h, k, s). (o.txid.array, xs, ys, h, (o.vout, refl, k), s))

pub parse_input-Decodes : (t : Target) → Decodes t (parse_input t) InputFormat
unfolding parse_input
parse_input-Decodes t =
    change-Decodes t
      (bind-Decodes t (parse_out_point-Decodes t) λ o bs h.
        bind-Decodes t (parse_script-Decodes t) λ s bs₂ h₂.
          build-Decodes t (λ n. record { previous_output = o; script_sig = s; sequence = n })
            (read_u32_le-Decodes t))
      (λ i bs (o, xs, ws, h, (s, ys, zs, h₂, (n, e, h₃), q₂), q).
        rw e (xs, ys, zs, h, h₂, h₃, rw (q, q₂)))
      (λ i bs (xs, ys, zs, h, h₂, h₃, q). (
        i.previous_output,
        xs,
        ys ++ zs,
        h,
        (i.script_sig, ys, zs, h₂, (i.sequence, refl, h₃), refl),
        q,
      ))

pub parse_output-Decodes : (t : Target) → Decodes t (parse_output t) OutputFormat
unfolding parse_output
parse_output-Decodes t =
    change-Decodes t
      (bind-Decodes t (read_u64_le-Decodes t) λ v bs h.
        build-Decodes t (λ s. record { value = v; script_pubkey = s }) (parse_script-Decodes t))
      (λ o bs (v, xs, ys, h, (s, e, k), q). rw e (xs, ys, h, k, q))
      (λ o bs (xs, ys, h, k, q). (o.value, xs, ys, h, (o.script_pubkey, refl, k), q))

-- A witness of `n` items.
abbrev pub CountFormat : Format ℕ
CountFormat n bs = (items : List (List ℕ)) × (n ≡ length items) × WitnessFormat items bs

pub read_witness-Decodes : (t : Target) → Decodes t (read_witness t) CountFormat
unfolding read_witness
read_witness-Decodes t =
    change-Decodes t
      (counted-Decodes t max_witness_items (omega (arith, usize_max-ge t)) _ _ λ n l.
        bind-Decodes t
          (for_range-Decodes t n
            (read_var_bytes-Decodes t max_witness_item_size (omega (arith, usize_max-ge t))))
          λ u bs h. pure-Decodes t n)
      (λ m bs (n, xs, ws, hu, (_, ys, zs, (items, l, many), (e, k), q₂), q). (
        items,
        e ∙ sym l,
        (
          xs,
          ys,
          subst (λ j. UpTo max_witness_items j xs) (sym l) hu,
          many,
          rw (q, q₂, k, append-nil),
        ),
      ))
      (λ m bs (items, e, (xs, ys, hu, many, q)). (
        length items,
        xs,
        ys,
        hu,
        (tt, ys, [], (items, refl, many), (e, refl), sym (append-nil ys)),
        q,
      ))

-- ===== src/Example/Outputs.antt =====
-- What `main` prints of an output that its closure is called with.
use Prim.Native.String.{String}
use text.Mathlib.Text.{◌==◌ as str_eq}
use blockchain_zc_parser.Base.{
  ℕ, ◌≡◌, refl, sym, ap, ◌∙◌, List, [], ◌∷◌, ◌++◌, append_assoc, append-nil, length, Bool, true,
  false, ◌&&◌, ◌||◌, if◌then◌else◌, Bool-cases, ◌⊎◌, inl, inr, arith,
}
use blockchain_zc_parser.Error.{ok}
use blockchain_zc_parser.Script.Classify.{
  ScriptType, p2pkh, p2sh, p2wpkh, p2wsh, p2tr, p2pk, op_return, multisig, unknown, classify,
}
use blockchain_zc_parser.Script.Templates.{classify-ok}
use blockchain_zc_parser.Transaction.{TxOutput}
use blockchain_zc_parser.Example.Opts.{Opts}
use blockchain_zc_parser.Example.Report.{
  should_print_tx, should_print_outputs_for_tx, print_output, print_typed, on_output,
}
use blockchain_zc_parser.Example.Lines.{Line, Report, output, print_if, saturating_add}
use blockchain_zc_parser.Example.Listing.{script_lines, classified_lines}

-- Lines that are printed on a condition.
abbrev pub when : Bool → List Line → List Line
when b ls = if b then ls else []

pub when_append : (b : Bool) (xs ys : List Line) → when b (xs ++ ys) ≡ when b xs ++ when b ys
when_append true xs ys = refl
when_append false xs ys = refl

pub when_nil : (b : Bool) → when b [] ≡ []
when_nil true = refl
when_nil false = refl

pub print_if-lines :
    (b : Bool) (l : Line) (r : Report) → (print_if b l r).lines ≡ r.lines ++ when b (l ∷ [])
print_if-lines true l r = refl
print_if-lines false l r = sym (append-nil r.lines)

-- The lines that are new in `m`, a report on the same transaction.
abbrev pub Adds : List Line → Report → Report → Type 0
Adds ls r m = (m.tx_idx ≡ r.tx_idx) × (m.lines ≡ r.lines ++ ls)

pub Adds-nil : (r : Report) → Adds [] r r
Adds-nil r = (refl, sym (append-nil r.lines))

pub Adds-append :
    (xs ys : List Line) (r m n : Report) → Adds xs r m → Adds ys m n → Adds (xs ++ ys) r n
Adds-append xs ys r m n (i, e) (j, f) =
    (j ∙ i, f ∙ (ap (λ l. l ++ ys) e ∙ append_assoc r.lines xs ys))

and_false : (b c : Bool) → c ≡ false → (b && c) ≡ false
and_false b c h = ground arith

and_true : (b : Bool) → (b && true) ≡ b
and_true b = ground arith

module _ (o : Opts) where
  module _ (out : TxOutput) where
    abbrev outputs_wanted : Report → Bool
    outputs_wanted r = should_print_outputs_for_tx o r.tx_idx

    Adds-print_if : (b : Bool) (l : Line) (r : Report) → Adds (when b (l ∷ [])) r (print_if b l r)
    Adds-print_if true l r = (refl, refl)
    Adds-print_if false l r = Adds-nil r

    -- `--no-opreturn` leaves a line out.
    Adds-unless :
        (b w : Bool) (l : Line) (r : Report)
        → Adds (when w (if b then [] else l ∷ [])) r (if b then r else print_if w l r)
    Adds-unless true w l r = rw (when_nil w) (Adds-nil r)
    Adds-unless false w l r = Adds-print_if w l r

    other_kind :
        (kind : String) (r : Report)
        → str_eq kind "OP_RETURN" ≡ false
        → Adds
            (when (outputs_wanted r) (output out.value kind (length out.script_pubkey.bytes) ∷ []))
            r
            (print_output o out kind r)
    unfolding print_output
    other_kind kind r h =
        rw (and_false o.no_opreturn (str_eq kind "OP_RETURN") h)
          (Adds-print_if (outputs_wanted r) _ r)

    op_return_kind :
        (d : List ℕ) (r : Report)
        → Adds
            (when
              (outputs_wanted r)
              (script_lines o out.value (length out.script_pubkey.bytes) (op_return d)))
            r
            (print_output o out "OP_RETURN" r)
    unfolding print_output
    op_return_kind d r =
        rw (and_true o.no_opreturn) (Adds-unless o.no_opreturn (outputs_wanted r) _ r)

    print_typed-Adds :
        (kind : ScriptType) (r : Report)
        → Adds
            (when
              (outputs_wanted r)
              (script_lines o out.value (length out.script_pubkey.bytes) kind))
            r
            (print_typed o out kind r)
    unfolding print_typed
    print_typed-Adds (p2pkh b) r = other_kind "P2PKH" r refl
    print_typed-Adds (p2sh b) r = other_kind "P2SH" r refl
    print_typed-Adds (p2wpkh b) r = other_kind "P2WPKH" r refl
    print_typed-Adds (p2wsh b) r = other_kind "P2WSH" r refl
    print_typed-Adds (p2tr b) r = other_kind "P2TR" r refl
    print_typed-Adds (p2pk b) r = other_kind "P2PK" r refl
    print_typed-Adds (op_return b) r = op_return_kind b r
    print_typed-Adds (multisig m n) r = Adds-print_if (outputs_wanted r) _ r
    print_typed-Adds unknown r = other_kind "unknown" r refl

    quiet_outputs :
        (i : ℕ) → (o.summary || o.no_outputs) ≡ true → should_print_outputs_for_tx o i ≡ false
    unfolding should_print_outputs_for_tx should_print_tx
    quiet_outputs i h = ground arith

    abbrev pub lines_of_output : List Line
    lines_of_output =
        classified_lines o out.value (length out.script_pubkey.bytes)
          (classify out.script_pubkey.bytes)

    pub on_output-Adds :
        (r : Report)
        → (m : Report) × (on_output o out r ≡ (ok tt, m))
          × Adds (when (outputs_wanted r) lines_of_output) r m
    unfolding on_output
    on_output-Adds r =
        go (Bool-cases (o.summary || o.no_outputs)) (classify-ok out.script_pubkey.bytes)
      where
        added : Report
        added = record r { total_value = saturating_add r.total_value out.value }

        go :
            ((o.summary || o.no_outputs) ≡ true) ⊎ ((o.summary || o.no_outputs) ≡ false)
            → ((s : ScriptType) × (classify out.script_pubkey.bytes ≡ ok s))
            → (m : Report) × (on_output o out r ≡ (ok tt, m))
              × Adds (when (outputs_wanted r) lines_of_output) r m
        go (inl h) k = (added, rw h, rw (quiet_outputs r.tx_idx h) (refl, sym (append-nil r.lines)))
        go (inr h) (s, e) = (print_typed o out s added, rw (h, e), rw e (print_typed-Adds s added))

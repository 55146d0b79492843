-- ===== src/Transaction/Fits.antt =====
-- Whatever the parser reads fits the types of its fields and the limits, and has no shorter form than
-- its serialised one.
use blockchain_zc_parser.Base.{
  ℕ, ◌^◌, ◌≤◌, ◌<◌, ◌≡◌, refl, sym, ap, ◌∙◌, subst, List, [], ◌∷◌, ◌++◌, length, length-append, All,
  Bool, true, false, arith, inl, inr, Bool-cases, ltb, ltb→lt, ◌*◌,
}
use blockchain_zc_parser.Base.Int.{ℤ}
use blockchain_zc_parser.Bytes.{
  IsByte, from_le_bytes, to_le_bytes, signed, from_le_bytes-lt, length-to_le_bytes,
}
use blockchain_zc_parser.Cursor.Format.{Format}
use blockchain_zc_parser.Cursor.Checks.{Many}
use blockchain_zc_parser.Cursor.Words.{Word}
use blockchain_zc_parser.Cursor.VarInt.{VarInt, VarBytes}
use blockchain_zc_parser.Script.{max_script_size}
use blockchain_zc_parser.Transaction.{TxInput, TxOutput, max_witness_item_size}
use blockchain_zc_parser.Transaction.Wire.{InputFormat, OutputFormat, WitnessFormat}
use blockchain_zc_parser.Transaction.Tail.{WitnessesFormat}
use blockchain_zc_parser.Transaction.Whole.{marker, Tx, TxFormat}
use blockchain_zc_parser.Transaction.Serialise.{
  concat, pattern32, var_bytes, input_bytes, output_bytes, witness_bytes, witnesses_bytes,
  serialise, FitsI32, BytesUpTo, InputFits, OutputFits, WitnessFits, WitnessesFit, TxFits,
}
use blockchain_zc_parser.Example.Synthetic.{encode_varint}
use blockchain_zc_parser.Example.Encode.{Word-lt, encode_varint_shortest}

signed-FitsI32 : (v : ℕ) → v < 2 ^ 32 → FitsI32 (signed 32 v)
signed-FitsI32 v h = elim (Bool-cases (ltb (2 * v) (2 ^ 32))) [
  | inl p ↦ rw p (omega (arith, ltb→lt (2 * v) (2 ^ 32) p))
  | inr p ↦ rw p (ground arith)
]

-- A whole is no longer than another whose parts are not.
append-le :
    (as' bs xs ys zs : List ℕ)
    → length as' ≤ length xs
    → length bs ≤ length ys
    → zs ≡ xs ++ ys
    → length (as' ++ bs) ≤ length zs
append-le as' bs xs ys zs p q g =
    omega (arith, p, q, ap length g, length-append xs ys, length-append as' bs)

word-le : (n v : ℕ) (bs : List ℕ) → length bs ≡ n → length (to_le_bytes n v) ≤ length bs
word-le n v bs l = omega (arith, l, length-to_le_bytes n v)

version-FitsI32 :
    (v : ℤ) (bs : List ℕ) → Word 4 (λ ws. signed 32 (from_le_bytes ws)) v bs → FitsI32 v
version-FitsI32 v bs (l, o, e) =
    subst FitsI32 (sym e) (
      signed-FitsI32 (from_le_bytes bs) (omega (arith, from_le_bytes-lt bs o, ap (λ k. 256 ^ k) l)))

VarBytes-fits :
    (max : ℕ) (a bs : List ℕ)
    → VarBytes max a bs
    → BytesUpTo max a × (length (var_bytes a) ≤ length bs)
VarBytes-fits max a bs (n, xs, ys, (v, m), (e, l, o), g) =
    let same : n ≡ length a = sym (ap length e ∙ l) in
    (
      (subst (λ k. k ≤ max) same m, subst (All IsByte) (sym e) o),
      append-le (encode_varint (length a)) a xs ys bs
          (encode_varint_shortest (length a) xs (subst (λ k. VarInt k xs) same v))
          (omega (arith, ap length e)) g,
    )

Many-fits :
    {A : Type 0} (F : Format A) (P : A → Type 0) (f : A → List ℕ)
    → ((a : A) (bs : List ℕ) → F a bs → P a × (length (f a) ≤ length bs))
    → (as' : List A) (bs : List ℕ) → Many F as' bs
    → All P as' × (length (concat f as') ≤ length bs)
Many-fits F P f k [] bs h = (tt, omega arith)
Many-fits F P f k (a ∷ as') bs (xs, ys, h, hs, g) =
    let (p, l) = k a xs h in
    let (ps, ls) = Many-fits F P f k as' ys hs in
    ((p, ps), append-le (f a) (concat f as') xs ys bs l ls g)

InputFormat-fits :
    (i : TxInput) (bs : List ℕ)
    → InputFormat i bs
    → InputFits i × (length (input_bytes i) ≤ length bs)
InputFormat-fits i bs (xs, ys, zs, (us, vs, (e, l, o), w, g₁), s, q, g) =
    let (script, short) = VarBytes-fits max_script_size i.script_sig.bytes ys s in
    (
      record {
        txid = ap length e ∙ l;
        txid_octets = subst (All IsByte) (sym e) o;
        vout = omega (arith, Word-lt 4 i.previous_output.vout vs w);
        script_sig = script;
        sequence = omega (arith, Word-lt 4 i.sequence zs q);
      },
      append-le _ _ xs (ys ++ zs) bs
          (append-le i.previous_output.txid.array (to_le_bytes 4 i.previous_output.vout) us vs xs
            (omega (arith, ap length e)) (word-le 4 i.previous_output.vout vs w.0) g₁)
          (append-le (var_bytes i.script_sig.bytes) (to_le_bytes 4 i.sequence) ys zs (ys ++ zs)
            short (word-le 4 i.sequence zs q.0) refl)
          g,
    )

OutputFormat-fits :
    (o : TxOutput) (bs : List ℕ)
    → OutputFormat o bs
    → OutputFits o × (length (output_bytes o) ≤ length bs)
OutputFormat-fits o bs (xs, ys, w, s, g) =
    let (script, short) = VarBytes-fits max_script_size o.script_pubkey.bytes ys s in
    (
      record { value = omega (arith, Word-lt 8 o.value xs w); script_pubkey = script },
      append-le (to_le_bytes 8 o.value) (var_bytes o.script_pubkey.bytes) xs ys bs
          (word-le 8 o.value xs w.0) short g,
    )

WitnessFormat-fits :
    (items : List (List ℕ)) (bs : List ℕ)
    → WitnessFormat items bs
    → WitnessFits items × (length (witness_bytes items) ≤ length bs)
WitnessFormat-fits items bs (xs, ys, (v, m), h, g) =
    let (p, k) =
      Many-fits (VarBytes max_witness_item_size) (BytesUpTo max_witness_item_size) var_bytes
        (VarBytes-fits max_witness_item_size) items ys h in
    (
      (m, p),
      append-le (encode_varint (length items)) (concat var_bytes items) xs ys bs
          (encode_varint_shortest (length items) xs v) k g,
    )

WitnessesFormat-fits :
    (seg : Bool) (n : ℕ) (ws : List (List (List ℕ))) (bs : List ℕ)
    → WitnessesFormat seg n ws bs
    → WitnessesFit seg n ws × (length (witnesses_bytes seg ws) ≤ length bs)
WitnessesFormat-fits true n ws bs (l, h) =
    let (p, k) = Many-fits WitnessFormat WitnessFits witness_bytes WitnessFormat-fits ws bs h in
    ((l, p), k)
WitnessesFormat-fits false n ws bs (e, h) = (e, omega arith)

module _ (x : Tx) (bs : List ℕ) (f : TxFormat x bs) where
  in_fits : All InputFits x.inputs × (length (concat input_bytes x.inputs) ≤ length f.input_bytes)
  in_fits =
      Many-fits InputFormat InputFits input_bytes InputFormat-fits x.inputs f.input_bytes f.inputs

  out_fits :
      All OutputFits x.outputs × (length (concat output_bytes x.outputs) ≤ length f.output_bytes)
  out_fits =
      Many-fits OutputFormat OutputFits output_bytes OutputFormat-fits x.outputs f.output_bytes
        f.outputs

  wit_fits :
      WitnessesFit x.is_segwit (length x.inputs) x.witnesses
      × (length (witnesses_bytes x.is_segwit x.witnesses) ≤ length f.witness_bytes)
  wit_fits =
      WitnessesFormat-fits x.is_segwit (length x.inputs) x.witnesses f.witness_bytes f.witnesses

  pub TxFormat-fits : TxFits x
  TxFormat-fits = record {
    version = version-FitsI32 x.version f.version_bytes f.version;
    some_input = f.some_input;
    input_count = f.input_count.1;
    inputs = in_fits.0;
    output_count = f.output_count.1;
    outputs = out_fits.0;
    witnesses = wit_fits.0;
    locktime = omega (arith, Word-lt 4 x.locktime f.locktime_bytes f.locktime);
  }

  pub serialise_shortest : length (serialise x) ≤ length bs
  serialise_shortest =
      append-le (to_le_bytes 4 (pattern32 x.version)) _ f.version_bytes _ bs
        (word-le 4 (pattern32 x.version) f.version_bytes f.version.0)
        (append-le (marker x.is_segwit) _ (marker x.is_segwit) _ _ (omega arith)
          (append-le (encode_varint (length x.inputs)) _ f.count_bytes _ _
            (encode_varint_shortest (length x.inputs) f.count_bytes f.input_count.0)
            (append-le _ _ f.input_bytes _ _ in_fits.1
              (append-le (encode_varint (length x.outputs)) _ f.output_count_bytes _ _
                (encode_varint_shortest (length x.outputs) f.output_count_bytes f.output_count.0)
                (append-le _ _ f.output_bytes _ _ out_fits.1
                  (append-le _ (to_le_bytes 4 x.locktime) f.witness_bytes f.locktime_bytes _
                    wit_fits.1 (word-le 4 x.locktime f.locktime_bytes f.locktime.0) refl)
                  refl)
                refl)
              refl)
            refl)
          refl)
        f.whole

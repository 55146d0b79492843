-- ===== src/Block/Header.antt =====
-- `BlockHeader::parse` and the prefix of a block.
use blockchain_zc_parser.Base.{
  ℕ, ◌≡◌, ◌≢◌, refl, sym, ap, ◌∙◌, subst, List, [], ◌∷◌, ◌++◌, length, length-append, append-nil,
  All, All-append, arith,
}
use blockchain_zc_parser.Error.{ParseResult, ok, err, fault}
use blockchain_zc_parser.Action.{pure}
use blockchain_zc_parser.Target.{Target, usize_max-ge}
use blockchain_zc_parser.Bytes.{IsByte}
use blockchain_zc_parser.Cursor.{Cursor, new}
use blockchain_zc_parser.Cursor.Format.{Format, Decodes, IsValid, Ran}
use blockchain_zc_parser.Cursor.Rules.{bind-Decodes}
use blockchain_zc_parser.Cursor.Checks.{lift-Decodes, pure-Decodes, change-Decodes}
use blockchain_zc_parser.Cursor.Reads.{read_array-Decodes}
use blockchain_zc_parser.Cursor.VarInt.{UpTo, counted-Decodes}
use blockchain_zc_parser.Block.{
  BlockHeader, header_fields, parse_header, read_prefix, max_block_txn,
}
use blockchain_zc_parser.Block.Fields.{Fields, FieldsOf, HeaderFormat, fields-Decodes}

Ran-ne-fault :
    {A : Type 0} {F : Format A} {c c' : Cursor} {r : ParseResult A} → Ran F c r c' → r ≢ fault
Ran-ne-fault (Ran.accepted bs rest h e m) = cc
Ran-ne-fault (Ran.rejected b lo hi) = cc

Fields-length : (h : BlockHeader) (bs : List ℕ) → Fields h bs → length bs ≡ 80
Fields-length h bs f =
    rw (f.whole, length-append, length-append, length-append, length-append, length-append)
      (omega
        (arith, f.version.0, f.prev_block.0, f.merkle_root.0, f.timestamp.0, f.bits.0, f.nonce.0))

Fields-IsByte : (h : BlockHeader) (bs : List ℕ) → Fields h bs → All IsByte bs
Fields-IsByte h bs f = rw f.whole (
    All-append IsByte _ _ f.version.1 (
      All-append IsByte _ _ f.prev_block.1 (
        All-append IsByte _ _ f.merkle_root.1
          (All-append IsByte _ _ f.timestamp.1 (All-append IsByte _ _ f.bits.1 f.nonce.1)))))

empty_rest : (xs rest : List ℕ) → length (xs ++ rest) ≡ length xs → rest ≡ []
empty_rest xs [] e = refl
empty_rest xs (r ∷ rest) e = absurd (omega (arith, length-append xs (r ∷ rest)))

module _ (t : Target) (raw : List ℕ) (long : length raw ≡ 80) (octets : All IsByte raw) where
  pub raw-IsValid : IsValid t (new raw)
  raw-IsValid = record {
    fits = omega arith;
    small = omega (arith, long, usize_max-ge t);
    octets = octets;
  }

  fields-ok : (h : BlockHeader) → FieldsOf raw h raw → (header_fields t raw (new raw)).0 ≡ ok h
  fields-ok h f =
      ap (λ k. k.0)
        ((fields-Decodes t raw).complete (new raw) h raw [] raw-IsValid f (sym (append-nil raw)))

  fields-inv : (h : BlockHeader) → (header_fields t raw (new raw)).0 ≡ ok h → FieldsOf raw h raw
  fields-inv h e = go _ _ ((fields-Decodes t raw).sound (new raw) raw-IsValid) e
    where
      go :
          (r : ParseResult BlockHeader) (d : Cursor)
          → Ran (FieldsOf raw) (new raw) r d
          → r ≡ ok h
          → FieldsOf raw h raw
      go (ok k) d (Ran.accepted bs rest f u m) q =
          let none : rest ≡ [] =
            empty_rest bs rest (ap length (sym u) ∙ (long ∙ sym (Fields-length k bs f.0))) in
          let same : bs ≡ raw = sym (u ∙ rw none (append-nil bs)) in
          rw (← (header-injective k h q)) (subst (FieldsOf raw k) same f)
        where
          header-injective : (a b : BlockHeader) → ok a ≡ ok b → a ≡ b
          header-injective a b w = cc
      go (err x) d f q = absurd (cc)
      go fault d f q = absurd (cc)

-- `BlockHeader::parse` reads the fields from their places in the next 80 bytes.
pub parse_header-Decodes : (t : Target) → Decodes t (parse_header t) HeaderFormat
unfolding parse_header
parse_header-Decodes t =
    change-Decodes t
      (bind-Decodes t (read_array-Decodes t 80) λ raw bs (e, l, o).
        lift-Decodes t (header_fields t raw (new raw)).0 (
          Ran-ne-fault
            ((fields-Decodes t raw).sound (new raw) (raw-IsValid t raw (rw e l) (rw e o)))))
      (λ h bs (raw, xs, ys, (e, l, o), (q, n), g).
        let same : bs ≡ raw = rw (g, n, append-nil, e) in
        let f : FieldsOf raw h raw = fields-inv t raw (rw e l) (rw e o) h q in
        (rw same f.0, f.1 ∙ sym same))
      (λ h bs (f, e).
        let octets : All IsByte bs = Fields-IsByte h bs f in
        (
          bs,
          bs,
          [],
          (refl, Fields-length h bs f, octets),
          (fields-ok t bs (Fields-length h bs f) octets h (f, e), refl),
          sym (append-nil bs),
        ))

-- The header and the count of a block.
abbrev pub PrefixFormat : Format (BlockHeader × ℕ)
PrefixFormat (h, n) bs =
    (xs : List ℕ) × (ys : List ℕ) × HeaderFormat h xs × UpTo max_block_txn n ys × (bs ≡ xs ++ ys)

pub read_prefix-Decodes : (t : Target) → Decodes t (read_prefix t) PrefixFormat
unfolding read_prefix
read_prefix-Decodes t =
    change-Decodes t
      (bind-Decodes t (parse_header-Decodes t) λ h bs _.
        counted-Decodes t max_block_txn (omega (arith, usize_max-ge t)) (λ n. pure (h, n)) _
          (λ n l. pure-Decodes t (h, n)))
      (λ p bs (h, xs, ys, f, (n, ns, es, u, (q, e), g₂), g).
        rw q (xs, ns, f, u, rw (g, g₂, e, append-nil)))
      (λ (h, n) bs (xs, ys, f, u, g).
        (h, xs, ys, f, (n, ys, [], u, (refl, refl), sym (append-nil ys)), g))

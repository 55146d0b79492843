-- ===== src/Transaction/Skip.antt =====
-- The skip of a witness in the streaming parser: `Witness::parse` on the unread slice, then `skip`.
use blockchain_zc_parser.Base.{
  ℕ, ◌≡◌, refl, sym, ◌∙◌, subst, List, ◌++◌, length, All, All-append_left, arith,
}
use blockchain_zc_parser.Error.{ParseResult, ok, err, fault}
use blockchain_zc_parser.Action.{after}
use blockchain_zc_parser.Target.{Target}
use blockchain_zc_parser.Bytes.{IsByte}
use blockchain_zc_parser.Cursor.{Cursor, skip}
use blockchain_zc_parser.Cursor.Format.{
  unread, advance, Format, Ran, accepted, rejected, Decodes, IsValid, unread-IsByte,
}
use blockchain_zc_parser.Transaction.{Witness, parse_witness, skip_witness}
use blockchain_zc_parser.Transaction.Wire.{WitnessFormat}
use blockchain_zc_parser.Transaction.Witnesses.{
  Parsed, parsed, skip-Decodes, new-IsValid, as_slice_lem, parse_witness-Parsed,
  parse_witness_complete, parse_witness_truncated,
}
use blockchain_zc_parser.Cursor.Rules.{after-IsEof}

abbrev pub WitnessSkipped : Format (Unit {0})
WitnessSkipped _ bs = (items : List (List ℕ)) × WitnessFormat items bs

module _ (t : Target) (c : Cursor) (v : IsValid t c) where
  abbrev skip_parsed : ParseResult (Witness × ℕ) → ParseResult (Unit {0}) × Cursor
  skip_parsed r = after (r, c) (λ (_, consumed). skip t consumed)

  pub skip_witness-parsed : skip_witness t c ≡ skip_parsed (parse_witness t (unread c))
  unfolding skip_witness
  skip_witness-parsed = rw (as_slice_lem t c v)

  pub skip_front :
      (n : ℕ) (bs rest : List ℕ)
      → unread c ≡ bs ++ rest
      → n ≡ length bs
      → skip t n c ≡ (ok tt, advance c (length bs))
  skip_front n bs rest e l = (skip-Decodes t n).complete c tt bs rest v (sym l, octets) e
    where
      octets : All IsByte bs
      octets = All-append_left IsByte bs rest (subst (All IsByte) e (unread-IsByte t c v))

  skip_sound :
      (r : ParseResult (Witness × ℕ))
      → Parsed (unread c) r
      → Ran WitnessSkipped c (skip_parsed r).0 (skip_parsed r).1
  skip_sound (ok (w, n)) (parsed items bs rest h e _ l) =
      rw (skip_front n bs rest e l) (accepted bs rest (items, h) e refl)
  skip_sound (err x) p = rejected refl (omega arith) v.fits
  skip_sound fault p = elim p [ ]

pub skip_witness-Decodes : (t : Target) → Decodes t (skip_witness t) WitnessSkipped
skip_witness-Decodes t = record {
  sound = λ c v.
      rw (skip_witness-parsed t c v)
        (skip_sound t c v _ (parse_witness-Parsed t (unread c) (new-IsValid t c v)));
  complete = λ c a bs rest v (items, h) e.
      skip_witness-parsed t c v
      ∙ rw (parse_witness_complete t items bs rest (unread c) (new-IsValid t c v) h e)
          (skip_front t c v (length bs) bs rest e refl);
  truncated = λ c a x back v h. rw (skip_witness-parsed t c v) (
      after-IsEof (parse_witness t (unread c), c) _
        (parse_witness_truncated t h.0 x back (unread c) (new-IsValid t c v) h.1));
}

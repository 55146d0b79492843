-- ===== src/Example/Args.antt =====
-- The options that a command line can say.
use Prim.Native.String.{String, ◌++◌ as ◌<>◌}
use blockchain_zc_parser.Base.{
  ℕ, ◌≡◌, refl, ◌∙◌, List, [], ◌∷◌, ◌++◌, Bool, true, false, Option, none, some, if◌then◌else◌,
  arith,
}
use blockchain_zc_parser.Example.Opts.{
  Opts, defaults, Parsed, parsed, usage_error, plain, help_flag, unknown_flag, arg, first_path,
  Expects, any, limit_number, tx_number, parse_args, parse_opts,
}

abbrev flag : Bool → String → List String → List String
flag on name rest = if on then name ∷ rest else rest

abbrev numbered : String → Option String → List String → List String
numbered name none rest = rest
numbered name (some text) rest = name ∷ text ∷ rest

-- Options as the arguments say them: the numbers as texts.
pub record Said : Type 0 where
  pub summary : Bool
  pub limit_tx : Option String
  pub only_tx : Option String
  pub no_outputs : Bool
  pub no_opreturn : Bool
  pub path : String

unfoldable pub command_line : Said → List String
command_line s = flag s.summary "--summary" (
    flag s.no_outputs "--no-outputs" (
      flag s.no_opreturn "--no-opreturn"
        (numbered "--limit-tx" s.limit_tx (numbered "--tx" s.only_tx (s.path ∷ [])))))

-- The argument ends the reading with the result `r`.
pub data Stops (a : String) (o : Opts) (path : Option String) (r : Parsed) : Type 0 where
  helped : arg a ≡ help_flag → r ≡ parsed (record o { help = true }) path → Stops a o path r
  refused : arg a ≡ unknown_flag → r ≡ usage_error ("unknown flag: " <> a) → Stops a o path r

module _ (parse_usize : String → Option ℕ) where
  -- The text reads as the number.
  abbrev pub Reads : Option String → Option ℕ → Type 0
  Reads none none = Unit
  Reads (some text) (some n) = parse_usize text ≡ some n
  Reads _ _ = ⊥

  abbrev pub means : Said → Option ℕ → Option ℕ → Opts
  means s limit only = record {
    summary = s.summary;
    limit_tx = limit;
    only_tx = only;
    no_outputs = s.no_outputs;
    no_opreturn = s.no_opreturn;
    help = false;
  }

  parse_args-path :
      (o : Opts) (path : String)
      → arg path ≡ plain
      → parse_args parse_usize (path ∷ []) any o none ≡ parsed o (some path)
  unfolding parse_args
  parse_args-path o path h = ground arith

  parse_args-tx :
      (o : Opts) (text : Option String) (n : Option ℕ) (path : String)
      → o.only_tx ≡ none
      → Reads text n
      → arg path ≡ plain
      → parse_args parse_usize (numbered "--tx" text (path ∷ [])) any o none
        ≡ parsed (record o { only_tx = n }) (some path)
  unfolding parse_args arg
  parse_args-tx o none none path z r h = parse_args-path o path h ∙ rw z
  parse_args-tx o none (some n) path z r h = elim r [ ]
  parse_args-tx o (some text) none path z r h = elim r [ ]
  parse_args-tx o (some text) (some n) path z r h =
      rw r (parse_args-path (record o { only_tx = some n }) path h)

  parse_args-limit_tx :
      (o : Opts) (text : Option String) (n : Option ℕ) (rest : List String)
      → o.limit_tx ≡ none
      → Reads text n
      → parse_args parse_usize (numbered "--limit-tx" text rest) any o none
        ≡ parse_args parse_usize rest any (record o { limit_tx = n }) none
  unfolding parse_args arg
  parse_args-limit_tx o none none rest z r = rw z
  parse_args-limit_tx o none (some n) rest z r = elim r [ ]
  parse_args-limit_tx o (some text) none rest z r = elim r [ ]
  parse_args-limit_tx o (some text) (some n) rest z r = rw r

  parse_args-flags :
      (summary no_outputs no_opreturn : Bool) (rest : List String)
      → parse_args parse_usize
          (flag summary "--summary"
            (flag no_outputs "--no-outputs" (flag no_opreturn "--no-opreturn" rest)))
          any
          defaults
          none
        ≡ parse_args parse_usize rest any
            (record defaults {
              summary = summary;
              no_outputs = no_outputs;
              no_opreturn = no_opreturn;
            })
            none
  unfolding parse_args arg
  parse_args-flags true true true rest = refl
  parse_args-flags true true false rest = refl
  parse_args-flags true false true rest = refl
  parse_args-flags true false false rest = refl
  parse_args-flags false true true rest = refl
  parse_args-flags false true false rest = refl
  parse_args-flags false false true rest = refl
  parse_args-flags false false false rest = refl

  -- Any options but help, and any path that is not itself a flag, can be said: `parse_opts` reads them
  -- back from the command line that lists the flags, the numbers by texts that parse to them, and the
  -- path.
  pub parse_opts-command_line :
      (s : Said) (limit only : Option ℕ)
      → Reads s.limit_tx limit
      → Reads s.only_tx only
      → arg s.path ≡ plain
      → parse_opts parse_usize (command_line s) ≡ parsed (means s limit only) (some s.path)
  unfolding parse_opts command_line
  parse_opts-command_line s limit only r₁ r₂ h =
      parse_args-flags s.summary s.no_outputs s.no_opreturn _
      ∙ (parse_args-limit_tx _ s.limit_tx limit _ refl r₁
          ∙ parse_args-tx _ s.only_tx only s.path refl r₂ h)

  -- The number behind a flag, read in two runs.
  in_both :
      {f g : ℕ → Parsed} {r : Parsed} (n : Option ℕ) (message : String) (o' : Opts)
      (path' : Option String)
      → ((k : ℕ) → f k ≡ parsed o' path' → g k ≡ r)
      → (elim n [ some k ↦ f k | none ↦ usage_error message ]) ≡ parsed o' path'
      → (elim n [ some k ↦ g k | none ↦ usage_error message ]) ≡ r
  in_both none message o' path' ih h = absurd (cc)
  in_both (some k) message o' path' ih h = ih k h

  -- Arguments that are read without an error and without help are read before what follows them.
  parse_args-append :
      (args rest : List String) (e : Expects) (o o' : Opts) (path path' : Option String)
      → o.help ≡ false
      → o'.help ≡ false
      → parse_args parse_usize args e o path ≡ parsed o' path'
      → parse_args parse_usize (args ++ rest) e o path ≡ parse_args parse_usize rest any o' path'
  unfolding parse_args
  parse_args-append [] rest any o o' path path' z z' h = cc
  parse_args-append [] rest limit_number o o' path path' z z' h = absurd (cc)
  parse_args-append [] rest tx_number o o' path path' z z' h = absurd (cc)
  parse_args-append (a ∷ args) rest limit_number o o' path path' z z' h =
      in_both (parse_usize a) "expected number after --limit-tx" o' path'
        (λ k. parse_args-append args rest any (record o { limit_tx = some k }) o' path path' z z') h
  parse_args-append (a ∷ args) rest any o o' path path' z z' h = ground (
    arith,
    parse_args-append args rest any (record o { summary = true }) o' path path' z z',
    parse_args-append args rest any (record o { no_outputs = true }) o' path path' z z',
    parse_args-append args rest any (record o { no_opreturn = true }) o' path path' z z',
    parse_args-append args rest limit_number o o' path path' z z',
    parse_args-append args rest tx_number o o' path path' z z',
    parse_args-append args rest any o o' (first_path path a) path' z z',
  )
  parse_args-append (a ∷ args) rest tx_number o o' path path' z z' h =
      in_both (parse_usize a) "expected number after --tx" o' path'
        (λ k. parse_args-append args rest any (record o { only_tx = some k }) o' path path' z z') h

  -- Behind arguments that are read without an error and without help, `--help` and `-h` end the reading
  -- with help set, and an unknown flag ends it with an error that names it. What follows is not looked at.
  pub parse_opts-Stops :
      (args rest : List String) (a : String) (o : Opts) (path : Option String) (r : Parsed)
      → o.help ≡ false
      → parse_opts parse_usize args ≡ parsed o path
      → Stops a o path r
      → parse_opts parse_usize (args ++ (a ∷ rest)) ≡ r
  unfolding parse_opts parse_args
  parse_opts-Stops args rest a o path r z h (helped k q) =
      parse_args-append args (a ∷ rest) any defaults o none path refl z h ∙ ground arith
  parse_opts-Stops args rest a o path r z h (refused k q) =
      parse_args-append args (a ∷ rest) any defaults o none path refl z h ∙ ground arith

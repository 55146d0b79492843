-- ===== src/Example/Opts.antt =====
-- `parse_opts`: the options of the command line. A text is a native string; `str::parse::<usize>` is a
-- parameter.
use Prim.Native.String.{String, ◌++◌ as ◌<>◌}
use text.Mathlib.Text.{◌==◌ as str_eq, starts_with}
use blockchain_zc_parser.Base.{
  ℕ, List, [], ◌∷◌, Bool, true, false, ◌||◌, Option, none, some, if◌then◌else◌,
}

pub record Opts : Type 0 where
  pub summary : Bool
  pub limit_tx : Option ℕ
  pub only_tx : Option ℕ
  pub no_outputs : Bool
  pub no_opreturn : Bool
  pub help : Bool

-- `Opts::default()`
abbrev pub defaults : Opts
defaults = record {
  summary = false;
  limit_tx = none;
  only_tx = none;
  no_outputs = false;
  no_opreturn = false;
  help = false;
}

-- `Result<(Opts, Option<String>), String>`
pub data Parsed : Type 0 where
  parsed : Opts → Option String → Parsed
  usage_error : String → Parsed

pub data Arg : Type 0 where
  summary_flag no_outputs_flag no_opreturn_flag limit_tx_flag tx_flag help_flag unknown_flag plain :
      Arg

-- The arm of the match.
unfoldable pub arg : String → Arg
arg a =
    if str_eq a "--summary"
    then summary_flag
    else if str_eq a "--no-outputs"
    then no_outputs_flag
    else if str_eq a "--no-opreturn"
    then no_opreturn_flag
    else if str_eq a "--limit-tx"
    then limit_tx_flag
    else if str_eq a "--tx"
    then tx_flag
    else if str_eq a "--help" || str_eq a "-h"
    then help_flag
    else if starts_with a "--"
    then unknown_flag
    else plain

-- The first argument that is no flag.
abbrev pub first_path : Option String → String → Option String
first_path none a = some a
first_path (some path) a = some path

-- What the next argument is read as.
pub data Expects : Type 0 where
  any limit_number tx_number : Expects

module _ (parse_usize : String → Option ℕ) where
  -- The loop over `args[i..]`. A flag that takes a number looks at the argument behind it.
  unfoldable pub parse_args : List String → Expects → Opts → Option String → Parsed
  parse_args [] any o path = parsed o path
  parse_args [] limit_number o path = usage_error "expected number after --limit-tx"
  parse_args [] tx_number o path = usage_error "expected number after --tx"
  parse_args (a ∷ rest) limit_number o path = elim (parse_usize a) [
    | some n ↦ parse_args rest any (record o { limit_tx = some n }) path
    | none ↦ usage_error "expected number after --limit-tx"
  ]
  parse_args (a ∷ rest) tx_number o path = elim (parse_usize a) [
    | some n ↦ parse_args rest any (record o { only_tx = some n }) path
    | none ↦ usage_error "expected number after --tx"
  ]
  parse_args (a ∷ rest) any o path = elim (arg a) [
    | summary_flag ↦ parse_args rest any (record o { summary = true }) path
    | no_outputs_flag ↦ parse_args rest any (record o { no_outputs = true }) path
    | no_opreturn_flag ↦ parse_args rest any (record o { no_opreturn = true }) path
    | limit_tx_flag ↦ parse_args rest limit_number o path
    | tx_flag ↦ parse_args rest tx_number o path
    | help_flag ↦ parsed (record o { help = true }) path
    | unknown_flag ↦ usage_error ("unknown flag: " <> a)
    | plain ↦ parse_args rest any o (first_path path a)
  ]

  unfoldable pub parse_opts : List String → Parsed
  parse_opts args = parse_args args any defaults none

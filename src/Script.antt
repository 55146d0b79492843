-- ===== src/Script.antt =====
-- src/script.rs: scripts and their parser, and the types of the classification and of the iterator.
pub mod Refine
pub mod Collect
pub mod Walk
pub mod Classify
pub mod Patterns
pub mod Templates
pub mod Encoding
pub mod Iterate
pub mod Reader
pub mod Opcodes
pub mod Instructions
use blockchain_zc_parser.Base.{ℕ, List, Bool, length, ◌==◌}
use blockchain_zc_parser.Action.{Action, pure, ◌>>=◌}
use blockchain_zc_parser.Target.{Target}
use blockchain_zc_parser.Cursor.{Cursor, read_var_bytes}

abbrev pub max_script_size : ℕ
max_script_size = 10_000

pub record Script : Type 0 where
  pub bytes : List ℕ

unfoldable pub parse_script : Target → Action Cursor Script
parse_script t = do bs ← read_var_bytes t max_script_size; pure (record { bytes = bs })

abbrev pub len : Script → ℕ
len s = length s.bytes

abbrev pub is_empty : Script → Bool
is_empty s = length s.bytes == 0

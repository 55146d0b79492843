-- ===== src/UnitTests/Scripts.antt =====
-- The tests of src/script.rs.
use blockchain_zc_parser.Base.{ℕ, ◌≡◌, refl, List, [], ◌∷◌, length, Bool, true, false, ◌&&◌}
use blockchain_zc_parser.Target.{Target, bits32, bits64}
use blockchain_zc_parser.Cursor.{new, read_u8, read_bytes, read_varint, read_var_bytes}
use blockchain_zc_parser.Script.{parse_script}
use blockchain_zc_parser.Script.Classify.{ScriptType, p2pkh, op_return, classify, script_type}
use blockchain_zc_parser.UnitTests.{unwrapped}

abbrev is_p2pkh : ScriptType → Bool
is_p2pkh (p2pkh h) = true
is_p2pkh _ = false

abbrev is_op_return : ScriptType → Bool
is_op_return (op_return d) = true
is_op_return _ = false

p2pkh_classification : Target → Bool
unfolding parse_script read_var_bytes read_varint read_u8 read_bytes classify
p2pkh_classification t =
    let script_bytes : List ℕ =
      0x76 ∷ 0xa9 ∷ 0x14 ∷ 0x89 ∷ 0xab ∷ 0xcd ∷ 0xef ∷ 0xab ∷ 0xba ∷ 0xab ∷ 0xba ∷ 0xab ∷ 0xba
      ∷ 0xab ∷ 0xba ∷ 0xab ∷ 0xba ∷ 0xab ∷ 0xba ∷ 0xab ∷ 0xba ∷ 0xab ∷ 0xba ∷ 0x88 ∷ 0xac ∷ [] in
    let raw : List ℕ = length script_bytes ∷ script_bytes in
    unwrapped (parse_script t (new raw)).0 λ script. unwrapped (script_type script) is_p2pkh

op_return_classification : Target → Bool
unfolding parse_script read_var_bytes read_varint read_u8 read_bytes classify
op_return_classification t =
    let script_bytes : List ℕ = 0x6a ∷ 0x04 ∷ 0xde ∷ 0xad ∷ 0xbe ∷ 0xef ∷ [] in
    let raw : List ℕ = length script_bytes ∷ script_bytes in
    unwrapped (parse_script t (new raw)).0 λ script. unwrapped (script_type script) is_op_return

script_tests_pass : (t : Target) → (p2pkh_classification t && op_return_classification t) ≡ true
unfolding p2pkh_classification op_return_classification
script_tests_pass bits32 = refl
script_tests_pass bits64 = refl

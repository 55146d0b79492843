-- ===== src/Tests/Script.antt =====
-- Runs of the classification.
use blockchain_zc_parser.Base.{List, ℕ, ◌↔◌, arith, ◌≡◌, ◌≢◌, refl, [], ◌∷◌, ◌++◌, replicate}
use blockchain_zc_parser.Error.{ok}
use blockchain_zc_parser.Target.{bits64}
use blockchain_zc_parser.Cursor.{new}
use blockchain_zc_parser.Cursor.Format.{advance, advance-IsValid}
use blockchain_zc_parser.Cursor.Accepted.{Begins}
use blockchain_zc_parser.Script.Instructions.{
  push_bytes, instructions, next, push_len, pushdata_len, push,
}
use blockchain_zc_parser.Script.Encoding.{InstructionFormat}
use blockchain_zc_parser.Script.Walk.{collect_iff, collect_total}
use blockchain_zc_parser.Script.Collect.{more_instructions, collect}
use blockchain_zc_parser.Script.Refine.{reading, Step, next-Step}
use blockchain_zc_parser.Cursor.Checks.{Many}
use blockchain_zc_parser.Cursor.Format.{IsValid}
use blockchain_zc_parser.Base.{some}
use blockchain_zc_parser.Error.{fault}
use blockchain_zc_parser.Script.Instructions.{op}
use blockchain_zc_parser.Script.Iterate.{next_iff}
use blockchain_zc_parser.Tests.{new-valid}
use blockchain_zc_parser.Script.Classify.{
  ScriptType, p2pkh, op_return, unknown, classify, between, strip_prefix, strip_suffix,
}
use blockchain_zc_parser.Script.Templates.{Template, classify_iff, classify_unknown_iff}

-- The script of `p2pkh_classification`.
classify_iff_example :
    classify (0x76 ∷ 0xa9 ∷ 0x14 ∷ (replicate 20 0xab ++ (0x88 ∷ 0xac ∷ [])))
    ≡ ok (p2pkh (replicate 20 0xab))
classify_iff_example =
    (classify_iff (p2pkh (replicate 20 0xab))
        (0x76 ∷ 0xa9 ∷ 0x14 ∷ (replicate 20 0xab ++ (0x88 ∷ 0xac ∷ []))) known).1
      (refl, refl)
  where
    known : p2pkh (replicate 20 0xab) ≢ unknown
    known e = cc

-- One opcode that begins no template.
classify_unknown_iff_example :
    (classify (0xac ∷ []) ≡ ok unknown) ↔ ((s : ScriptType) → ¬ Template s (0xac ∷ []))
classify_unknown_iff_example = classify_unknown_iff (0xac ∷ [])

-- The script of `op_return_classification`.
op_return_run : classify (0x6a ∷ 0xde ∷ 0xad ∷ []) ≡ ok (op_return (0xde ∷ 0xad ∷ []))
unfolding classify between strip_prefix strip_suffix
op_return_run = refl

-- A push of two bytes, a push of one byte by OP_PUSHDATA1, and OP_CHECKSIG.
abbrev script_bytes : List ℕ
script_bytes = 2 ∷ 0xaa ∷ 0xbb ∷ 0x4c ∷ 1 ∷ 0xcc ∷ 0xac ∷ []

next_iff_example :
    Begins InstructionFormat
      (advance (new script_bytes) 3)
      (push_bytes (0xcc ∷ []))
      (advance (new script_bytes) 6)
unfolding next push_len pushdata_len push
next_iff_example =
    (next_iff bits64 (advance (new script_bytes) 3)
        (advance-IsValid bits64 (new script_bytes) (new-valid script_bytes refl (omega arith))
          (2 ∷ 0xaa ∷ 0xbb ∷ []) (0x4c ∷ 1 ∷ 0xcc ∷ 0xac ∷ []) refl)
        (push_bytes (0xcc ∷ [])) (advance (new script_bytes) 6) (omega arith)).0
      refl

-- A push of five bytes, of which one is there.
abbrev cut_script : List ℕ
cut_script = 5 ∷ 0xaa ∷ []

collect_iff_example :
    Many InstructionFormat
      (push_bytes (0xaa ∷ 0xbb ∷ []) ∷ push_bytes (0xcc ∷ []) ∷ op 0xac ∷ [])
      script_bytes
unfolding collect more_instructions next push_len pushdata_len push
collect_iff_example =
    (collect_iff bits64 script_bytes
        (push_bytes (0xaa ∷ 0xbb ∷ []) ∷ push_bytes (0xcc ∷ []) ∷ op 0xac ∷ [])
        (new-valid script_bytes refl (omega arith))).0
      refl

collect_total_example : collect 4 (instructions cut_script) ≢ fault
collect_total_example =
    collect_total bits64 cut_script (new-valid cut_script refl (omega arith)) 4 (omega arith)

next-Step_example :
    Step
      (reading script_bytes)
      (some (ok (push_bytes (0xaa ∷ 0xbb ∷ []))))
      (reading (0x4c ∷ 1 ∷ 0xcc ∷ 0xac ∷ []))
    × IsValid bits64 (advance (new script_bytes) 3)
unfolding next push_len pushdata_len push
next-Step_example =
    next-Step bits64 (instructions script_bytes) (new-valid script_bytes refl (omega arith))

-- ===== src/Script/Classify.antt =====
-- `ScriptType::classify`: the slice patterns of the match, arm by arm, and the templates that they
-- stand for.
use blockchain_zc_parser.Base.{
  ℕ, ◌-◌, List, [], ◌∷◌, length, take, drop, ◌&&◌, ◌==◌, leb, if◌then◌else◌, Option, none, some,
}
use blockchain_zc_parser.Error.{ParseResult, ok, and_then}
use blockchain_zc_parser.Bytes.{to_array}
use blockchain_zc_parser.Hash.{bytes_eq}
use blockchain_zc_parser.Script.{Script}

pub data ScriptType : Type 0 where
  -- pubkey_hash
  p2pkh : List ℕ → ScriptType
  -- script_hash
  p2sh : List ℕ → ScriptType
  -- pubkey_hash
  p2wpkh : List ℕ → ScriptType
  -- script_hash
  p2wsh : List ℕ → ScriptType
  -- x_only_pubkey
  p2tr : List ℕ → ScriptType
  -- pubkey
  p2pk : List ℕ → ScriptType
  -- data
  op_return : List ℕ → ScriptType
  -- required, total
  multisig : ℕ → ℕ → ScriptType
  unknown : ScriptType

-- What a slice holds behind `front`, if it begins so.
unfoldable pub strip_prefix : List ℕ → List ℕ → Option (List ℕ)
strip_prefix [] b = some b
strip_prefix (x ∷ front) [] = none
strip_prefix (x ∷ front) (y ∷ b) = if y == x then strip_prefix front b else none

-- What it holds before `back`, if it ends so.
unfoldable pub strip_suffix : List ℕ → List ℕ → Option (List ℕ)
strip_suffix back b =
    let n = length b - length back in
    if leb (length back) (length b) && bytes_eq (drop n b) back then some (take n b) else none

-- The slice pattern `[front, middle @ .., back]` with the guard `middle.len() == n`.
unfoldable pub between : List ℕ → List ℕ → ℕ → List ℕ → Option (List ℕ)
between front back n b = elim (strip_prefix front b) [
  | none ↦ none
  | some rest ↦ elim (strip_suffix back rest) [
    | none ↦ none
    | some middle ↦ if length middle == n then some middle else none
  ]
]

-- An arm of the match.
abbrev pub arm :
    Option (List ℕ)
    → (List ℕ → ParseResult ScriptType)
    → ParseResult ScriptType
    → ParseResult ScriptType
arm (some middle) f next = f middle
arm none f next = next

-- `hash.try_into().unwrap()`
abbrev pub array : ℕ → (List ℕ → ScriptType) → List ℕ → ParseResult ScriptType
array n f hash = and_then (to_array n hash) λ h. ok (f h)

unfoldable pub classify : List ℕ → ParseResult ScriptType
unfolding between strip_prefix strip_suffix
classify b = arm (between (0x76 ∷ 0xa9 ∷ 0x14 ∷ []) (0x88 ∷ 0xac ∷ []) 20 b) (array 20 p2pkh) (
    arm (between (0xa9 ∷ 0x14 ∷ []) (0x87 ∷ []) 20 b) (array 20 p2sh) (
      arm (between (0x00 ∷ 0x14 ∷ []) [] 20 b) (array 20 p2wpkh) (
        arm (between (0x00 ∷ 0x20 ∷ []) [] 32 b) (array 32 p2wsh) (
          arm (between (0x51 ∷ 0x20 ∷ []) [] 32 b) (array 32 p2tr) (
            arm (between (0x21 ∷ []) (0xac ∷ []) 33 b) (λ pk. ok (p2pk pk))
              (arm (between (0x41 ∷ []) (0xac ∷ []) 65 b) (λ pk. ok (p2pk pk))
                (arm (strip_prefix (0x6a ∷ []) b) (λ rest. ok (op_return rest)) (ok unknown))))))))

-- `Script::script_type`
abbrev pub script_type : Script → ParseResult ScriptType
script_type script = classify script.bytes

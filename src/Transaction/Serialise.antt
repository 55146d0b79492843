-- ===== src/Transaction/Serialise.antt =====
-- The serialised form of a transaction with the shortest counts and lengths, those of the program's
-- own `encode_varint`, and the transactions that have one.
use blockchain_zc_parser.Base.{
  ℕ, ◌-◌, ◌^◌, ◌≤◌, ◌<◌, ◌≡◌, ◌≢◌, refl, List, [], ◌∷◌, ◌++◌, length, All, Bool, true, false, arith,
}
use blockchain_zc_parser.Base.Int.{ℤ, pos, negsuc}
use blockchain_zc_parser.Bytes.{
  IsByte, from_le_bytes, to_le_bytes, signed, from_le_bytes-to_le_bytes, length-to_le_bytes,
}
use blockchain_zc_parser.Script.{max_script_size}
use blockchain_zc_parser.Cursor.Format.{Format}
use blockchain_zc_parser.Cursor.Checks.{Many}
use blockchain_zc_parser.Cursor.Words.{Word}
use blockchain_zc_parser.Cursor.VarInt.{UpTo, VarBytes}
use blockchain_zc_parser.Transaction.{
  TxInput, TxOutput, max_io_count, max_witness_items, max_witness_item_size,
}
use blockchain_zc_parser.Transaction.Wire.{InputFormat, OutputFormat, WitnessFormat}
use blockchain_zc_parser.Transaction.Tail.{WitnessesFormat}
use blockchain_zc_parser.Transaction.Whole.{marker, Tx, TxFormat}
use blockchain_zc_parser.Example.Synthetic.{encode_varint}
use blockchain_zc_parser.Example.Encode.{to_le_bytes-IsByte, to_le_bytes-Word, encode_varint-VarInt}

abbrev pub concat : {A : Type 0} → (A → List ℕ) → List A → List ℕ
concat f [] = []
concat f (a ∷ as') = f a ++ concat f as'

-- The bit pattern of an `i32`.
abbrev pub pattern32 : ℤ → ℕ
pattern32 (pos n) = n
pattern32 (negsuc n) = 2 ^ 32 - 1 - n

abbrev pub var_bytes : List ℕ → List ℕ
var_bytes bs = encode_varint (length bs) ++ bs

abbrev pub input_bytes : TxInput → List ℕ
input_bytes i =
    (i.previous_output.txid.array ++ to_le_bytes 4 i.previous_output.vout)
    ++ (var_bytes i.script_sig.bytes ++ to_le_bytes 4 i.sequence)

abbrev pub output_bytes : TxOutput → List ℕ
output_bytes o = to_le_bytes 8 o.value ++ var_bytes o.script_pubkey.bytes

abbrev pub witness_bytes : List (List ℕ) → List ℕ
witness_bytes items = encode_varint (length items) ++ concat var_bytes items

abbrev pub witnesses_bytes : Bool → List (List (List ℕ)) → List ℕ
witnesses_bytes true ws = concat witness_bytes ws
witnesses_bytes false ws = []

abbrev pub serialise : Tx → List ℕ
serialise x =
    to_le_bytes 4 (pattern32 x.version)
    ++ (marker x.is_segwit
        ++ (encode_varint (length x.inputs)
            ++ (concat input_bytes x.inputs
                ++ (encode_varint (length x.outputs)
                    ++ (concat output_bytes x.outputs
                        ++ (witnesses_bytes x.is_segwit x.witnesses
                            ++ to_le_bytes 4 x.locktime))))))

abbrev pub FitsI32 : ℤ → Type 0
FitsI32 (pos n) = n < 2 ^ 31
FitsI32 (negsuc n) = n < 2 ^ 31

-- At most `max` bytes.
abbrev pub BytesUpTo : ℕ → List ℕ → Type 0
BytesUpTo max bs = (length bs ≤ max) × All IsByte bs

pub record InputFits (i : TxInput) : Type 0 where
  pub txid : length i.previous_output.txid.array ≡ 32
  pub txid_octets : All IsByte i.previous_output.txid.array
  pub vout : i.previous_output.vout < 2 ^ 32
  pub script_sig : BytesUpTo max_script_size i.script_sig.bytes
  pub sequence : i.sequence < 2 ^ 32

pub record OutputFits (o : TxOutput) : Type 0 where
  pub value : o.value < 2 ^ 64
  pub script_pubkey : BytesUpTo max_script_size o.script_pubkey.bytes

abbrev pub WitnessFits : List (List ℕ) → Type 0
WitnessFits items = (length items ≤ max_witness_items) × All (BytesUpTo max_witness_item_size) items

abbrev pub WitnessesFit : Bool → ℕ → List (List (List ℕ)) → Type 0
WitnessesFit true n ws = (length ws ≡ n) × All WitnessFits ws
WitnessesFit false n ws = ws ≡ []

-- The transactions with values of the fields' types and counts and lengths within the limits.
pub record TxFits (x : Tx) : Type 0 where
  pub version : FitsI32 x.version
  pub some_input : length x.inputs ≢ 0
  pub input_count : length x.inputs ≤ max_io_count
  pub inputs : All InputFits x.inputs
  pub output_count : length x.outputs ≤ max_io_count
  pub outputs : All OutputFits x.outputs
  pub witnesses : WitnessesFit x.is_segwit (length x.inputs) x.witnesses
  pub locktime : x.locktime < 2 ^ 32

pub version-Word :
    (v : ℤ)
    → FitsI32 v
    → Word 4 (λ ws. signed 32 (from_le_bytes ws)) v (to_le_bytes 4 (pattern32 v))
version-Word (pos n) h = (
  length-to_le_bytes 4 n,
  to_le_bytes-IsByte 4 n,
  rw (from_le_bytes-to_le_bytes 4 n (omega arith)) (ground arith),
)
version-Word (negsuc n) h = (
  length-to_le_bytes 4 (2 ^ 32 - 1 - n),
  to_le_bytes-IsByte 4 (2 ^ 32 - 1 - n),
  rw (from_le_bytes-to_le_bytes 4 (2 ^ 32 - 1 - n) (omega arith)) (ground arith),
)

pub word : (n v : ℕ) → v < 256 ^ n → Word n from_le_bytes v (to_le_bytes n v)
word n v h = to_le_bytes-Word n v v h refl

pub count-UpTo : (max n : ℕ) → max < 2 ^ 64 → n ≤ max → UpTo max n (encode_varint n)
count-UpTo max n m h = (encode_varint-VarInt n (omega arith), h)

var_bytes-VarBytes :
    (max : ℕ) (bs : List ℕ) → max < 2 ^ 64 → BytesUpTo max bs → VarBytes max bs (var_bytes bs)
var_bytes-VarBytes max bs m (h, o) = (
  length bs,
  encode_varint (length bs),
  bs,
  count-UpTo max (length bs) m h,
  (refl, refl, o),
  refl,
)

pub concat-Many :
    {A : Type 0} (F : Format A) (P : A → Type 0) (f : A → List ℕ) (as' : List A)
    → ((a : A) → P a → F a (f a))
    → All P as'
    → Many F as' (concat f as')
concat-Many F P f [] k h = refl
concat-Many F P f (a ∷ as') k (h, hs) = (f a, concat f as', k a h, concat-Many F P f as' k hs, refl)

input_bytes-InputFormat : (i : TxInput) → InputFits i → InputFormat i (input_bytes i)
input_bytes-InputFormat i f = (
  i.previous_output.txid.array ++ to_le_bytes 4 i.previous_output.vout,
  var_bytes i.script_sig.bytes,
  to_le_bytes 4 i.sequence,
  (
    i.previous_output.txid.array,
    to_le_bytes 4 i.previous_output.vout,
    (refl, f.txid, f.txid_octets),
    word 4 i.previous_output.vout (omega (arith, f.vout)),
    refl,
  ),
  var_bytes-VarBytes max_script_size i.script_sig.bytes (omega arith) f.script_sig,
  word 4 i.sequence (omega (arith, f.sequence)),
  refl,
)

output_bytes-OutputFormat : (o : TxOutput) → OutputFits o → OutputFormat o (output_bytes o)
output_bytes-OutputFormat o f = (
  to_le_bytes 8 o.value,
  var_bytes o.script_pubkey.bytes,
  word 8 o.value (omega (arith, f.value)),
  var_bytes-VarBytes max_script_size o.script_pubkey.bytes (omega arith) f.script_pubkey,
  refl,
)

witness_bytes-WitnessFormat :
    (items : List (List ℕ)) → WitnessFits items → WitnessFormat items (witness_bytes items)
witness_bytes-WitnessFormat items (n, h) = (
  encode_varint (length items),
  concat var_bytes items,
  count-UpTo max_witness_items (length items) (omega arith) n,
  concat-Many (VarBytes max_witness_item_size) (BytesUpTo max_witness_item_size) var_bytes items
      (λ bs k. var_bytes-VarBytes max_witness_item_size bs (omega arith) k) h,
  refl,
)

witnesses_bytes-WitnessesFormat :
    (seg : Bool) (n : ℕ) (ws : List (List (List ℕ)))
    → WitnessesFit seg n ws
    → WitnessesFormat seg n ws (witnesses_bytes seg ws)
witnesses_bytes-WitnessesFormat true n ws (l, h) =
    (l, concat-Many WitnessFormat WitnessFits witness_bytes ws witness_bytes-WitnessFormat h)
witnesses_bytes-WitnessesFormat false n ws h = (h, refl)

pub serialise-TxFormat : (x : Tx) → TxFits x → TxFormat x (serialise x)
serialise-TxFormat x f = record {
  version_bytes = to_le_bytes 4 (pattern32 x.version);
  count_bytes = encode_varint (length x.inputs);
  input_bytes = concat input_bytes x.inputs;
  output_count_bytes = encode_varint (length x.outputs);
  output_bytes = concat output_bytes x.outputs;
  witness_bytes = witnesses_bytes x.is_segwit x.witnesses;
  locktime_bytes = to_le_bytes 4 x.locktime;
  version = version-Word x.version f.version;
  some_input = f.some_input;
  input_count = count-UpTo max_io_count (length x.inputs) (omega arith) f.input_count;
  inputs = concat-Many InputFormat InputFits input_bytes x.inputs input_bytes-InputFormat f.inputs;
  output_count = count-UpTo max_io_count (length x.outputs) (omega arith) f.output_count;
  outputs =
      concat-Many OutputFormat OutputFits output_bytes x.outputs output_bytes-OutputFormat
        f.outputs;
  witnesses = witnesses_bytes-WitnessesFormat x.is_segwit (length x.inputs) x.witnesses f.witnesses;
  locktime = word 4 x.locktime (omega (arith, f.locktime));
  whole = refl;
}

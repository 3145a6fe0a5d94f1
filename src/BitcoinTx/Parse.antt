-- ===== src/BitcoinTx/Parse.antt =====
-- `parse_transaction`, loop by loop. Each reader takes the bytes that are left and returns its value
-- with the bytes behind it.
use sara_pro.Prelude.{
  ℕ, zero, suc, ◌+◌, List, [], ◌∷◌, reverse, Bool, true, false, ◌&&◌, not, length, ltb, ◌==◌,
  if◌then◌else◌, Result, ok, err, ◌>>=◌, ◌>>◌, raise_if, or_raise,
}
use sara_pro.Bytes.{Bytes, Text, le_value, signed_value, to_hex, from_hex, strip}
use sara_pro.BitcoinTx.Types.{
  TxError, TxInput, TxOutput, BitcoinTransaction, max_money, max_vector_items, max_script_bytes,
  invalid_hex, too_short, unsupported_witness_flag, input_count_exceeds_bound, zero_inputs,
  script_sig_exceeds_bound, output_count_exceeds_bound, zero_outputs,
  output_value_exceeds_max_money, total_exceeds_max_money, script_pubkey_exceeds_bound,
  witness_count_exceeds_bound, witness_element_exceeds_bound, trailing_bytes,
}
use sara_pro.BitcoinTx.CompactSize.{read_compact_size, read_slice}

-- A reader of an `A`.
abbrev pub Reader : Type 0 → Type 0
Reader A = Bytes → Result TxError (A × Bytes)

-- A length, its bound, and that many bytes.
unfoldable pub read_bounded : TxError → Reader Bytes
read_bounded too_long xs = do
  (n, xs) ← read_compact_size xs
  raise_if (ltb max_script_bytes n) too_long
  read_slice xs n

-- `for _ in range(count)`: the list of what `read` returns in each round.
module _ {A : Type 0} (read : Reader A) where
  unfoldable pub read_many : ℕ → Reader (List A)
  read_many zero xs = ok ([], xs)
  read_many (suc n) xs = do (a, xs) ← read xs; (rest, xs) ← read_many n xs; ok (a ∷ rest, xs)

-- The body of the loop that appends to `inputs`.
unfoldable pub parse_input : Reader TxInput
parse_input xs = do
  (prev_raw, xs) ← read_slice xs 32
  (vout_raw, xs) ← read_slice xs 4
  (script_sig, xs) ← read_bounded script_sig_exceeds_bound xs
  (seq_raw, xs) ← read_slice xs 4
  ok (
    record {
      prev_txid = to_hex (reverse prev_raw);
      vout = le_value vout_raw;
      script_sig = script_sig;
      sequence = le_value seq_raw;
      witness = [];
    },
    xs,
  )

-- The body of the loop that appends to `outputs`; `total` is the sum of the values before it.
unfoldable pub parse_output : ℕ → Reader TxOutput
parse_output total xs = do
  (value_raw, xs) ← read_slice xs 8
  let value = le_value value_raw
  raise_if (ltb max_money value) output_value_exceeds_max_money
  raise_if (ltb max_money (total + value)) total_exceeds_max_money
  (script, xs) ← read_bounded script_pubkey_exceeds_bound xs
  ok (record { value_sat = value; script_pubkey = script }, xs)

unfoldable pub parse_outputs : ℕ → ℕ → Reader (List TxOutput)
parse_outputs total zero xs = ok ([], xs)
parse_outputs total (suc n) xs = do
  (o, xs) ← parse_output total xs
  (rest, xs) ← parse_outputs (total + o.value_sat) n xs
  ok (o ∷ rest, xs)

unfoldable pub parse_witness : Reader (List Bytes)
parse_witness xs = do
  (item_count, xs) ← read_compact_size xs
  raise_if (ltb max_vector_items item_count) witness_count_exceeds_bound
  read_many (read_bounded witness_element_exceeds_bound) item_count xs

-- The loop that appends to `witnessed`.
unfoldable pub parse_witnesses : List TxInput → Reader (List TxInput)
parse_witnesses [] xs = ok ([], xs)
parse_witnesses (txin ∷ ins) xs = do
  (items, xs) ← parse_witness xs
  (rest, xs) ← parse_witnesses ins xs
  ok (record txin { witness = items } ∷ rest, xs)

unfoldable pub parse_segwit_part : Bool → List TxInput → Reader (List TxInput)
parse_segwit_part segwit ins xs = if segwit then parse_witnesses ins xs else ok (ins, xs)

-- The test for the marker byte 0 and a flag that is not 0.
unfoldable pub strip_marker : Reader Bool
strip_marker (m ∷ flag ∷ xs) =
    if m == 0 && not (flag == 0)
    then if flag == 1 then ok (true, xs) else err unsupported_witness_flag
    else ok (false, m ∷ flag ∷ xs)
strip_marker (m ∷ []) = ok (false, m ∷ [])
strip_marker [] = ok (false, [])

unfoldable pub parse_vin : Reader (List TxInput)
parse_vin xs = do
  (vin_count, xs) ← read_compact_size xs
  raise_if (ltb max_vector_items vin_count) input_count_exceeds_bound
  raise_if (vin_count == 0) zero_inputs
  read_many parse_input vin_count xs

unfoldable pub parse_vout : Reader (List TxOutput)
parse_vout xs = do
  (vout_count, xs) ← read_compact_size xs
  raise_if (ltb max_vector_items vout_count) output_count_exceeds_bound
  raise_if (vout_count == 0) zero_outputs
  parse_outputs 0 vout_count xs

abbrev pub at_end : {A : Type 0} → A × Bytes → Result TxError A
at_end (a, []) = ok a
at_end (a, _ ∷ _) = err trailing_bytes

unfoldable pub parse_body : Reader BitcoinTransaction
parse_body xs = do
  (version_raw, xs) ← read_slice xs 4
  (segwit, xs) ← strip_marker xs
  (inputs, xs) ← parse_vin xs
  (outputs, xs) ← parse_vout xs
  (inputs, xs) ← parse_segwit_part segwit inputs xs
  (lock_raw, xs) ← read_slice xs 4
  ok (
    record {
      version = signed_value 4 (le_value version_raw);
      inputs = inputs;
      outputs = outputs;
      locktime = le_value lock_raw;
      segwit = segwit;
    },
    xs,
  )

-- `parse_transaction` of a `bytes` object
unfoldable pub parse_transaction : Bytes → Result TxError BitcoinTransaction
parse_transaction raw = do
  raise_if (ltb (length raw) 10) too_short
  parsed ← parse_body raw
  at_end parsed

-- `parse_transaction` of a `str`
unfoldable pub parse_transaction_hex : Text → Result TxError BitcoinTransaction
parse_transaction_hex text = do
  raw ← or_raise (from_hex (strip text)) invalid_hex
  parse_transaction raw

-- The argument `raw: bytes | str`.
pub data RawTx : Type 0 where
  raw_bytes : Bytes → RawTx
  raw_text : Text → RawTx

unfoldable pub parse_raw : RawTx → Result TxError BitcoinTransaction
parse_raw (raw_bytes raw) = parse_transaction raw
parse_raw (raw_text t) = parse_transaction_hex t

-- ===== src/PsbtGuard/Whole.antt =====
-- `parse_psbt`: the global map, the counts, and the maps of the inputs and of the outputs.
use sara_pro.Prelude.{
  ℕ, zero, suc, ◌*◌, List, [], ◌∷◌, Option, none, some, Bool, true, false, ◌||◌, not, length, take,
  drop, ltb, ◌==◌, if◌then◌else◌, Result, ok, ◌>>=◌, ◌>>◌, raise_if, map_err, or_raise,
}
use sara_pro.Bytes.{Bytes, text_eq, is_empty, from_hex, strip}
use sara_pro.BitcoinTx.Types.{BitcoinTransaction}
use sara_pro.BitcoinTx.Parse.{RawTx, raw_bytes, raw_text, parse_transaction}
use sara_pro.BitcoinTx.Evaluate.{any_input}
use sara_pro.PsbtGuard.{
  PsbtError, not_hexadecimal, too_large, bad_magic, v2_only_field, bad_unsigned_tx,
  unsigned_tx_segwit, unsigned_tx_signed, unsigned_tx_present, no_inputs_or_outputs, bad_modifiable,
  count_bound, trailing_maps, PsbtEntry, read_map, entries_of, singleton, compact_value,
}
use sara_pro.PsbtGuard.Fields.{Hashes, if_present}
use sara_pro.PsbtGuard.Metadata.{validate_common_metadata}
use sara_pro.PsbtGuard.Parse.{ParsedPsbt, required, parse_version, reconstruct_v2}

abbrev pub max_psbt_bytes : ℕ
max_psbt_bytes = 16 * 1024 * 1024

-- `b"psbt\xff"`
abbrev pub psbt_magic : Bytes
psbt_magic = 0x70 ∷ 0x73 ∷ 0x62 ∷ 0x74 ∷ 0xFF ∷ []

-- What the global map says of the maps that follow; version 0 has its transaction there.
pub record Counts : Type 0 where
  pub unsigned_tx : Option BitcoinTransaction
  pub input_count : ℕ
  pub output_count : ℕ

unfoldable pub has_any : List PsbtEntry → List ℕ → Bool
has_any globals [] = false
has_any globals (t ∷ l) = not (is_empty (entries_of globals t)) || has_any globals l

unfoldable pub counts_v0 : List PsbtEntry → Result PsbtError Counts
counts_v0 globals = do
  raise_if (has_any globals (0x02 ∷ 0x03 ∷ 0x04 ∷ 0x05 ∷ 0x06 ∷ [])) v2_only_field
  tx_entry ← required globals 0x00
  tx ← map_err bad_unsigned_tx (parse_transaction tx_entry.value)
  raise_if tx.segwit unsigned_tx_segwit
  raise_if (any_input (λ i. not (is_empty i.script_sig) || not (is_empty i.witness)) tx.inputs)
      unsigned_tx_signed
  ok (record {
    unsigned_tx = some tx;
    input_count = length tx.inputs;
    output_count = length tx.outputs;
  })

unfoldable pub counts_v2 : List PsbtEntry → Result PsbtError Counts
counts_v2 globals = do
  raise_if (not (is_empty (entries_of globals 0x00))) unsigned_tx_present
  input_entry ← required globals 0x04
  input_count ← compact_value input_entry
  output_entry ← required globals 0x05
  output_count ← compact_value output_entry
  raise_if (input_count == 0 || output_count == 0) no_inputs_or_outputs
  modifiable ← singleton globals 0x06 false true
  if_present (λ e. raise_if (not (length e.value == 1)) bad_modifiable) modifiable
  ok (record { unsigned_tx = none; input_count = input_count; output_count = output_count })

-- `for _ in range(count)`: a map in each round
unfoldable pub read_maps : ℕ → Bytes → Result PsbtError (List (List PsbtEntry) × Bytes)
read_maps zero xs = ok ([], xs)
read_maps (suc n) xs = do (m, ys) ← read_map xs; (ms, rest) ← read_maps n ys; ok (m ∷ ms, rest)

unfoldable pub transaction_of :
    Option BitcoinTransaction
    → List PsbtEntry
    → List (List PsbtEntry)
    → List (List PsbtEntry)
    → Result PsbtError BitcoinTransaction
transaction_of (some tx) globals inputs outputs = ok tx
transaction_of none globals inputs outputs = reconstruct_v2 globals inputs outputs

-- The bytes behind the magic.
unfoldable pub parse_maps : Hashes → Bytes → Result PsbtError ParsedPsbt
parse_maps h xs = do
  (globals, ys) ← read_map xs
  version ← parse_version globals
  counts ← if version == 0 then counts_v0 globals else counts_v2 globals
  raise_if (ltb 100_000 counts.input_count || ltb 100_000 counts.output_count) count_bound
  (inputs, zs) ← read_maps counts.input_count ys
  (outputs, rest) ← read_maps counts.output_count zs
  raise_if (not (is_empty rest)) trailing_maps
  validate_common_metadata h globals inputs outputs
  tx ← transaction_of counts.unsigned_tx globals inputs outputs
  ok (record {
    version = version;
    global_map = globals;
    input_maps = inputs;
    output_maps = outputs;
    transaction = tx;
  })

unfoldable pub parse_psbt_bytes : Hashes → Bytes → Result PsbtError ParsedPsbt
parse_psbt_bytes h raw = do
  raise_if (ltb max_psbt_bytes (length raw)) too_large
  raise_if (not (text_eq (take 5 raw) psbt_magic)) bad_magic
  parse_maps h (drop 5 raw)

-- `parse_psbt`
unfoldable pub parse_psbt : Hashes → RawTx → Result PsbtError ParsedPsbt
parse_psbt h (raw_bytes raw) = parse_psbt_bytes h raw
parse_psbt h (raw_text t) = do
  raw ← or_raise (from_hex (strip t)) not_hexadecimal
  parse_psbt_bytes h raw

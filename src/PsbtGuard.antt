-- ===== src/PsbtGuard.antt =====
-- psbt_guard.py, the key-value maps of a PSBT: `_read_map` and the access to fields. A reader returns the
-- bytes that are left in place of an offset.
pub mod Maps
pub mod Curve
pub mod Fields
pub mod Metadata
pub mod Parse
pub mod Whole
pub mod Locktime
pub mod Parsed
pub mod Accepted
pub mod Provenance
pub mod Resolved
pub mod Audit
pub mod Report
pub mod Allowance
use sara_pro.Prelude.{
  ℕ, zero, suc, ◌+◌, ◌-◌, ◌*◌, ◌/◌, ◌%◌, ◌≡◌, List, [], ◌∷◌, Option, none, some, Bool, true, false,
  ◌&&◌, ◌||◌, not, length, take, drop, ltb, leb, ◌==◌, if◌then◌else◌, Result, ok, err, ◌>>=◌, ◌>>◌,
  raise_if, map_err,
}
use sara_pro.Bytes.{Bytes, text_in, le_value, is_empty}
use sara_pro.BitcoinTx.Types.{TxError}
use sara_pro.BitcoinTx.CompactSize.{read_compact_size}
use sara_pro.SignaturePolicy.{SignatureError}

-- A PsbtGuardError by its message.
pub data PsbtError : Type 0 where
  entry_limit bad_key duplicate_key bad_value : PsbtError
  compact_size bad_key_type : TxError → PsbtError
  missing_field repeated_field unexpected_key_data : PsbtError
  bad_compact_value : TxError → PsbtError
  trailing_bytes not_four_bytes bad_derivation : PsbtError
  sighash_length sighash_high_bits : PsbtError
  bad_tap_key leaf_list_truncated bad_preimage_key preimage_mismatch : PsbtError
  bad_leaf_count bad_final_witness bad_tree_length : TxError → PsbtError
  bad_signature_key sighash_disagrees bad_script_signature_key : PsbtError
  bad_ecdsa bad_schnorr : SignatureError → PsbtError
  bad_control_block control_block_depth bad_leaf_key empty_leaf_script bad_merkle_root : PsbtError
  too_many_elements bad_element final_trailing_bytes retained_metadata : PsbtError
  bad_aggregate_key bad_participants bad_participant_key : PsbtError
  bad_musig_key_data bad_musig_key bad_musig_value : PsbtError
  empty_tree tree_truncated tree_too_deep tree_script_truncated out_of_fuel : PsbtError
  bad_xpub xpub_depth bad_derivation_key bad_internal_key : PsbtError
  unknown_version bad_time_locktime bad_height_locktime incompatible_locktimes : PsbtError
  bad_previous_txid bad_amount negative_amount : PsbtError
  not_hexadecimal too_large bad_magic v2_only_field : PsbtError
  bad_unsigned_tx tx_error : TxError → PsbtError
  unsigned_tx_segwit unsigned_tx_signed unsigned_tx_present : PsbtError
  no_inputs_or_outputs bad_modifiable count_bound trailing_maps : PsbtError
  witness_utxo_truncated witness_utxo_amount witness_utxo_length : PsbtError
  bad_witness_utxo bad_non_witness_utxo : TxError → PsbtError
  redeem_missing redeem_mismatch redeem_not_segwit redeem_unexpected : PsbtError
  witness_missing witness_mismatch witness_unexpected : PsbtError
  duplicate_outpoint no_provenance txid_mismatch outside_outputs : PsbtError
  not_segwit_form sources_disagree : PsbtError
  bad_proprietary : TxError → PsbtError
  no_identifier recovery_outside outputs_exceed_inputs bad_cap : PsbtError
  sighash_rejected : SignatureError → PsbtError

abbrev pub max_map_entries : ℕ
max_map_entries = 10_000

abbrev pub max_field_bytes : ℕ
max_field_bytes = 4 * 1024 * 1024

pub record PsbtEntry : Type 0 where
  pub key_type : ℕ
  pub key_data : Bytes
  pub value : Bytes
  pub raw_key : Bytes

-- The part of a round of `_read_map` behind the length of a key that is not empty.
unfoldable pub read_entry : List Bytes → ℕ → Bytes → Result PsbtError (PsbtEntry × Bytes)
read_entry seen key_len xs = do
  raise_if (ltb max_field_bytes key_len || ltb (length xs) key_len) bad_key
  raise_if (text_in (take key_len xs) seen) duplicate_key
  (key_type, key_data) ← map_err bad_key_type (read_compact_size (take key_len xs))
  (value_len, ys) ← map_err compact_size (read_compact_size (drop key_len xs))
  raise_if (ltb max_field_bytes value_len || ltb (length ys) value_len) bad_value
  ok (
    record {
      key_type = key_type;
      key_data = key_data;
      value = take value_len ys;
      raw_key = take key_len xs;
    },
    drop value_len ys,
  )

-- The loop of `_read_map`; the number is how many entries may still be read before the loop raises, which
-- is one more than the limit less the entries that there are.
unfoldable pub read_entries : ℕ → List Bytes → Bytes → Result PsbtError (List PsbtEntry × Bytes)
read_entries zero seen xs = err entry_limit
read_entries (suc n) seen xs = do
  (key_len, ys) ← map_err compact_size (read_compact_size xs)
  elim (key_len == 0) [
    | true ↦ ok ([], ys)
    | false ↦ do
      (entry, zs) ← read_entry seen key_len ys
      (entries, rest) ← read_entries n (entry.raw_key ∷ seen) zs
      ok (entry ∷ entries, rest)
  ]

-- `_read_map`
unfoldable pub read_map : Bytes → Result PsbtError (List PsbtEntry × Bytes)
read_map xs = read_entries (max_map_entries + 1) [] xs

-- `_entries_of`
unfoldable pub entries_of : List PsbtEntry → ℕ → List PsbtEntry
entries_of [] key_type = []
entries_of (e ∷ l) key_type =
    let rest = entries_of l key_type in if e.key_type == key_type then e ∷ rest else rest

unfoldable pub single_of : List PsbtEntry → Bool → Bool → Result PsbtError (Option PsbtEntry)
single_of [] required no_keydata = if required then err missing_field else ok none
single_of (e ∷ []) required no_keydata = do
  raise_if (no_keydata && not (is_empty e.key_data)) unexpected_key_data
  ok (some e)
single_of (_ ∷ _ ∷ _) required no_keydata = err repeated_field

-- `_singleton`
unfoldable pub singleton : List PsbtEntry → ℕ → Bool → Bool → Result PsbtError (Option PsbtEntry)
singleton entries key_type required no_keydata =
    single_of (entries_of entries key_type) required no_keydata

-- `_compact_value`
unfoldable pub compact_value : PsbtEntry → Result PsbtError ℕ
compact_value entry = do
  (value, rest) ← map_err bad_compact_value (read_compact_size entry.value)
  raise_if (not (is_empty rest)) trailing_bytes
  ok value

-- `_validate_derivation_value`
unfoldable pub validate_derivation_value : Bytes → Result PsbtError ℕ
validate_derivation_value value = do
  raise_if (ltb (length value) 4 || not ((length value - 4) % 4 == 0)) bad_derivation
  ok ((length value - 4) / 4)

unfoldable pub sighash_of : Option PsbtEntry → Result PsbtError (Option ℕ)
sighash_of none = ok none
sighash_of (some e) = do
  raise_if (not (length e.value == 4)) sighash_length
  raise_if (ltb 0xFF (le_value e.value)) sighash_high_bits
  ok (some (le_value e.value))

-- `_declared_sighash`
unfoldable pub declared_sighash : List PsbtEntry → Result PsbtError (Option ℕ)
declared_sighash m = do sighash ← singleton m 0x03 false true; sighash_of sighash

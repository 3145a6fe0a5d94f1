-- ===== src/PsbtGuard/Fields.antt =====
-- The checks of the fields of an input of a PSBT. An exception's message without the index of its map.
use sara_pro.Prelude.{
  ℕ, zero, suc, ◌-◌, ◌*◌, ◌/◌, ◌%◌, List, [], ◌∷◌, Option, none, some, Bool, true, false, ◌&&◌,
  ◌||◌, not, length, take, drop, ltb, ◌==◌, Result, ok, ◌>>=◌, ◌>>◌, raise_if, map_err, each_of,
}
use sara_pro.Bytes.{Bytes, text_eq, is_empty}
use sara_pro.BitcoinTx.CompactSize.{read_compact_size}
use sara_pro.SignaturePolicy.{
  Allowed, parse_strict_der_ecdsa_signature, parse_schnorr_signature, enforce_sighash_policy,
  is_member,
}
use sara_pro.PsbtGuard.{
  PsbtError, bad_tap_key, leaf_list_truncated, bad_preimage_key, preimage_mismatch, bad_leaf_count,
  bad_final_witness, bad_signature_key, sighash_disagrees, bad_script_signature_key, bad_ecdsa,
  bad_schnorr, bad_control_block, control_block_depth, bad_leaf_key, empty_leaf_script,
  bad_merkle_root, too_many_elements, bad_element, final_trailing_bytes, retained_metadata,
  bad_aggregate_key, bad_participants, bad_participant_key, bad_musig_key_data, bad_musig_key,
  bad_musig_value, PsbtEntry, max_field_bytes, entries_of, singleton, validate_derivation_value,
  declared_sighash,
}
use sara_pro.PsbtGuard.Curve.{is_valid_secp256k1_pubkey, is_valid_xonly_pubkey}

abbrev pub Check : Type 0
Check = Result PsbtError (Unit {0})

abbrev pub no_more : Allowed
no_more = record { allow_none = false; allow_single = false; allow_anyonecanpay = false }

-- RIPEMD-160 and SHA-256
pub record Hashes : Type 0 where
  pub ripemd160 : Bytes → Bytes
  pub sha256 : Bytes → Bytes

-- `_validate_tap_derivation`
unfoldable pub validate_tap_derivation : PsbtEntry → Check
validate_tap_derivation e = do
  raise_if (not (length e.key_data == 32) || not (is_valid_xonly_pubkey e.key_data)) bad_tap_key
  (count, rest) ← map_err bad_leaf_count (read_compact_size e.value)
  raise_if (ltb (length rest) (32 * count)) leaf_list_truncated
  n ← validate_derivation_value (drop (32 * count) rest)
  ok tt

unfoldable pub check_preimage : ℕ → (Bytes → Bytes) → PsbtEntry → Check
check_preimage key_len digest e = do
  raise_if (not (length e.key_data == key_len)) bad_preimage_key
  raise_if (not (text_eq (digest e.value) e.key_data)) preimage_mismatch

-- `_validate_hash_preimages`
unfoldable pub validate_hash_preimages : Hashes → List PsbtEntry → Check
validate_hash_preimages h m = do
  each_of (check_preimage 20 h.ripemd160) (entries_of m 0x0A)
  each_of (check_preimage 32 h.sha256) (entries_of m 0x0B)
  each_of (check_preimage 20 (λ b. h.ripemd160 (h.sha256 b))) (entries_of m 0x0C)
  each_of (check_preimage 32 (λ b. h.sha256 (h.sha256 b))) (entries_of m 0x0D)

-- `declared is not None and sighash != declared`
abbrev pub disagrees : Option ℕ → ℕ → Bool
disagrees none sighash = false
disagrees (some d) sighash = not (sighash == d)

unfoldable pub check_partial_signature : Option ℕ → PsbtEntry → Check
check_partial_signature declared e = do
  raise_if (not (is_valid_secp256k1_pubkey e.key_data)) bad_signature_key
  parsed ← map_err bad_ecdsa (parse_strict_der_ecdsa_signature e.value true)
  map_err bad_ecdsa (enforce_sighash_policy parsed.sighash_type false no_more)
  raise_if (disagrees declared parsed.sighash_type) sighash_disagrees

-- `_validate_partial_signatures`
unfoldable pub validate_partial_signatures : List PsbtEntry → Check
validate_partial_signatures m = do
  declared ← declared_sighash m
  each_of (check_partial_signature declared) (entries_of m 0x02)

unfoldable pub check_schnorr : Option ℕ → Bytes → Check
check_schnorr declared value = do
  parsed ← map_err bad_schnorr (parse_schnorr_signature value)
  map_err bad_schnorr (enforce_sighash_policy parsed.sighash_type true no_more)
  raise_if (disagrees declared parsed.sighash_type) sighash_disagrees

-- A check of a field that may be missing.
abbrev pub if_present : (PsbtEntry → Check) → Option PsbtEntry → Check
if_present check none = ok tt
if_present check (some e) = check e

unfoldable pub check_script_signature : Option ℕ → PsbtEntry → Check
check_script_signature declared e = do
  raise_if (not (length e.key_data == 64)) bad_script_signature_key
  raise_if (not (is_valid_xonly_pubkey (take 32 e.key_data))) bad_script_signature_key
  check_schnorr declared e.value

unfoldable pub check_leaf_script : PsbtEntry → Check
check_leaf_script e = do
  raise_if (ltb (length e.key_data) 33 || not ((length e.key_data - 33) % 32 == 0))
      bad_control_block
  raise_if (ltb 128 ((length e.key_data - 33) / 32)) control_block_depth
  raise_if (not (is_valid_xonly_pubkey (take 32 (drop 1 e.key_data)))) bad_leaf_key
  raise_if (ltb (length e.value) 1) empty_leaf_script

-- `_validate_taproot_fields`
unfoldable pub validate_taproot_fields : List PsbtEntry → Check
validate_taproot_fields m = do
  declared ← declared_sighash m
  key_sig ← singleton m 0x13 false true
  if_present (λ e. check_schnorr declared e.value) key_sig
  each_of (check_script_signature declared) (entries_of m 0x14)
  each_of check_leaf_script (entries_of m 0x15)
  root ← singleton m 0x18 false true
  if_present (λ e. raise_if (not (length e.value == 32)) bad_merkle_root) root

-- The loop of `_parse_final_scriptwitness`.
unfoldable pub witness_items : ℕ → Bytes → Result PsbtError (List Bytes × Bytes)
witness_items zero xs = ok ([], xs)
witness_items (suc n) xs = do
  (size, ys) ← map_err bad_final_witness (read_compact_size xs)
  raise_if (ltb max_field_bytes size || ltb (length ys) size) bad_element
  (items, rest) ← witness_items n (drop size ys)
  ok (take size ys ∷ items, rest)

-- `_parse_final_scriptwitness`
unfoldable pub parse_final_scriptwitness : Bytes → Result PsbtError (List Bytes)
parse_final_scriptwitness value = do
  (count, xs) ← map_err bad_final_witness (read_compact_size value)
  raise_if (ltb 10_000 count) too_many_elements
  (items, rest) ← witness_items count xs
  raise_if (not (is_empty rest)) final_trailing_bytes
  ok items

abbrev pub is_present : Option PsbtEntry → Bool
is_present none = false
is_present (some e) = true

abbrev pub signing_metadata : List ℕ
signing_metadata =
    0x02 ∷ 0x03 ∷ 0x04 ∷ 0x05 ∷ 0x06 ∷ 0x0A ∷ 0x0B ∷ 0x0C ∷ 0x0D ∷ 0x13 ∷ 0x14 ∷ 0x15 ∷ 0x16 ∷ 0x17
    ∷ 0x18 ∷ 0x1A ∷ 0x1B ∷ 0x1C ∷ []

unfoldable pub any_of_types : List ℕ → List PsbtEntry → Bool
any_of_types types [] = false
any_of_types types (e ∷ l) = is_member e.key_type types || any_of_types types l

abbrev pub check_witness : PsbtEntry → Check
check_witness e = do items ← parse_final_scriptwitness e.value; ok tt

-- `_validate_finalization_exclusivity`
unfoldable pub validate_finalization_exclusivity : List PsbtEntry → Check
validate_finalization_exclusivity m = do
  final_sig ← singleton m 0x07 false true
  final_wit ← singleton m 0x08 false true
  if_present check_witness final_wit
  raise_if ((is_present final_sig || is_present final_wit) && any_of_types signing_metadata m)
      retained_metadata

-- `for off in range(0, len(value), 33)`, of so many rounds
unfoldable pub check_participants : ℕ → Bytes → Check
check_participants zero xs = ok tt
check_participants (suc n) xs = do
  raise_if (not (is_valid_secp256k1_pubkey (take 33 xs))) bad_participant_key
  check_participants n (drop 33 xs)

-- `_validate_musig2_participants`
unfoldable pub validate_musig2_participants : PsbtEntry → Check
validate_musig2_participants e = do
  raise_if (not (length e.key_data == 33) || not (is_valid_secp256k1_pubkey e.key_data))
      bad_aggregate_key
  raise_if (is_empty e.value || not (length e.value % 33 == 0)) bad_participants
  check_participants (length e.value / 33) e.value

unfoldable pub check_musig2 : ℕ → PsbtEntry → Check
check_musig2 value_len e = do
  raise_if (not (length e.key_data == 66) && not (length e.key_data == 98)) bad_musig_key_data
  raise_if
      (not (is_valid_secp256k1_pubkey (take 33 e.key_data))
        || not (is_valid_secp256k1_pubkey (take 33 (drop 33 e.key_data))))
      bad_musig_key
  raise_if (not (length e.value == value_len)) bad_musig_value

-- `_validate_musig2_input_fields`
unfoldable pub validate_musig2_input_fields : List PsbtEntry → Check
validate_musig2_input_fields m = do
  each_of validate_musig2_participants (entries_of m 0x1A)
  each_of (check_musig2 66) (entries_of m 0x1B)
  each_of (check_musig2 32) (entries_of m 0x1C)

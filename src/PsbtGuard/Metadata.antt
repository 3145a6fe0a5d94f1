-- ===== src/PsbtGuard/Metadata.antt =====
-- `_validate_tap_tree` and `_validate_common_metadata`.
use sara_pro.Prelude.{
  ℕ, zero, suc, ◌≤◌, ◌≡◌, refl, List, [], ◌∷◌, Bool, true, false, ◌||◌, not, arith, length, take,
  drop, ltb, ◌==◌, Result, ok, err, ◌>>=◌, ◌>>◌, raise_if, map_err, each_of, >>-eq-ok,
  ok_pair-injective, subst, Bool-cases, inl, inr,
}
use sara_pro.Bytes.{Bytes, is_empty, le_value}
use sara_pro.BitcoinTx.Types.{TxError}
use sara_pro.BitcoinTx.CompactSize.{read_compact_size, read_payload, compact_width, is_non_minimal}
use sara_pro.BitcoinTx.Script.{byte_is}
use sara_pro.PsbtGuard.{
  bad_tree_length, empty_tree, tree_truncated, tree_too_deep, tree_script_truncated, out_of_fuel,
  bad_xpub, xpub_depth, bad_derivation_key, bad_internal_key, PsbtEntry, entries_of, singleton,
  validate_derivation_value, declared_sighash,
}
use sara_pro.PsbtGuard.Curve.{is_valid_secp256k1_pubkey, is_valid_xonly_pubkey}
use sara_pro.PsbtGuard.Fields.{
  Check, Hashes, validate_tap_derivation, validate_hash_preimages, if_present,
  validate_partial_signatures, validate_taproot_fields, validate_finalization_exclusivity,
  validate_musig2_participants, validate_musig2_input_fields,
}

-- The loop of `_validate_tap_tree`; each round takes at least one byte.
unfoldable pub tap_leaves : ℕ → Bytes → Check
tap_leaves fuel [] = ok tt
tap_leaves fuel (depth ∷ []) = err tree_truncated
tap_leaves zero (depth ∷ version ∷ xs) = err out_of_fuel
tap_leaves (suc fuel) (depth ∷ version ∷ xs) = do
  raise_if (ltb 128 depth) tree_too_deep
  (script_len, ys) ← map_err bad_tree_length (read_compact_size xs)
  raise_if (ltb (length ys) script_len) tree_script_truncated
  tap_leaves fuel (drop script_len ys)

-- `_validate_tap_tree`
unfoldable pub validate_tap_tree : PsbtEntry → Check
validate_tap_tree e = do raise_if (is_empty e.value) empty_tree; tap_leaves (length e.value) e.value

unfoldable pub check_xpub : PsbtEntry → Check
check_xpub e = do
  raise_if (not (length e.key_data == 78)) bad_xpub
  raise_if (not (byte_is e.key_data 45 (λ b. b == 2 || b == 3))) bad_xpub
  path_count ← validate_derivation_value e.value
  raise_if (not (byte_is e.key_data 4 (λ b. b == path_count))) xpub_depth

unfoldable pub check_derivation : PsbtEntry → Check
check_derivation e = do
  raise_if (not (is_valid_secp256k1_pubkey e.key_data)) bad_derivation_key
  n ← validate_derivation_value e.value
  ok tt

unfoldable pub check_internal_key : PsbtEntry → Check
check_internal_key e =
    raise_if (not (length e.value == 32) || not (is_valid_xonly_pubkey e.value)) bad_internal_key

-- The body of the loop over the inputs.
unfoldable pub check_input_map : Hashes → List PsbtEntry → Check
check_input_map h m = do
  each_of check_derivation (entries_of m 0x06)
  each_of validate_tap_derivation (entries_of m 0x16)
  declared ← declared_sighash m
  validate_hash_preimages h m
  validate_partial_signatures m
  validate_taproot_fields m
  validate_musig2_input_fields m
  validate_finalization_exclusivity m
  tap_internal ← singleton m 0x17 false true
  if_present check_internal_key tap_internal

-- The body of the loop over the outputs.
unfoldable pub check_output_map : List PsbtEntry → Check
check_output_map m = do
  each_of check_derivation (entries_of m 0x02)
  each_of validate_tap_derivation (entries_of m 0x07)
  tap_internal ← singleton m 0x05 false true
  if_present check_internal_key tap_internal
  tree ← singleton m 0x06 false true
  if_present validate_tap_tree tree
  each_of validate_musig2_participants (entries_of m 0x08)

-- `_validate_common_metadata`
unfoldable pub validate_common_metadata :
    Hashes → List PsbtEntry → List (List PsbtEntry) → List (List PsbtEntry) → Check
validate_common_metadata h globals inputs outputs = do
  each_of check_xpub (entries_of globals 0x01)
  each_of (check_input_map h) inputs
  each_of check_output_map outputs

length-drop : {A : Type 0} (n : ℕ) (xs : List A) → length (drop n xs) ≤ length xs
length-drop zero xs = omega arith
length-drop (suc n) [] = omega arith
length-drop (suc n) (x ∷ xs) = omega (arith, length-drop n xs)

read_compact_size-shrinks :
    (xs : Bytes) {n : ℕ} {ys : Bytes} → read_compact_size xs ≡ ok (n, ys) → length ys ≤ length xs
unfolding read_compact_size read_payload
read_compact_size-shrinks [] h = absurd (cc h)
read_compact_size-shrinks (first ∷ xs) {n} {ys} h = elim (Bool-cases (ltb first 253)) [
  | inl small ↦
      let (_, e) = ok_pair-injective (rw small at h) in
      subst (λ (l : Bytes). length l ≤ suc (length xs)) e (omega arith)
  | inr large ↦
      let w = compact_width first in
      let (_, h1) = >>-eq-ok (ltb (length xs) w) _ _ (rw large at h) in
      let (_, h2) = >>-eq-ok (is_non_minimal first (le_value (take w xs))) _ _ h1 in
      let (_, e) = ok_pair-injective h2 in
      let d = length-drop w xs in
      subst (λ (l : Bytes). length l ≤ suc (length xs)) e (omega (arith, d))
]

-- The loop of `_validate_tap_tree` ends before its fuel does.
pub tap_leaves_enough :
    (fuel : ℕ) (xs : Bytes) → length xs ≤ fuel → ¬ (tap_leaves fuel xs ≡ err out_of_fuel)
unfolding tap_leaves
tap_leaves_enough fuel [] h e = cc e
tap_leaves_enough fuel (depth ∷ []) h e = cc e
tap_leaves_enough zero (depth ∷ version ∷ xs) h e = absurd (omega (arith, h))
tap_leaves_enough (suc fuel) (depth ∷ version ∷ xs) h e =
    by_depth (λ ys s. tap_leaves_enough fuel ys (omega (arith, s, h))) (ltb 128 depth) e
  where
    by_script :
        ((ys : Bytes) → length ys ≤ length xs → ¬ (tap_leaves fuel ys ≡ err out_of_fuel))
        → (t : Bool) (n : ℕ) (ys : Bytes) → length ys ≤ length xs
        → ¬ ((raise_if t tree_script_truncated >> tap_leaves fuel (drop n ys)) ≡ err out_of_fuel)
    by_script again true n ys s g = cc g
    by_script again false n ys s g =
        let d = length-drop n ys in again (drop n ys) (omega (arith, s, d)) g

    by_size :
        ((ys : Bytes) → length ys ≤ length xs → ¬ (tap_leaves fuel ys ≡ err out_of_fuel))
        → (r : Result TxError (ℕ × Bytes)) → read_compact_size xs ≡ r
        → ¬ (
            (map_err bad_tree_length r >>= λ t.
            raise_if (ltb (length t.1) t.0) tree_script_truncated >> tap_leaves fuel (drop t.0 t.1))
            ≡ err out_of_fuel)
    by_size again (err x) s g = cc g
    by_size again (ok (n, ys)) s g =
        by_script again (ltb (length ys) n) n ys (read_compact_size-shrinks xs s) g

    by_depth :
        ((ys : Bytes) → length ys ≤ length xs → ¬ (tap_leaves fuel ys ≡ err out_of_fuel))
        → (t : Bool)
        → ¬ (
            (raise_if t tree_too_deep
              >> (map_err bad_tree_length (read_compact_size xs) >>= λ t.
                  raise_if (ltb (length t.1) t.0) tree_script_truncated
                  >> tap_leaves fuel (drop t.0 t.1)))
            ≡ err out_of_fuel)
    by_depth again true g = cc g
    by_depth again false g = by_size again (read_compact_size xs) refl g

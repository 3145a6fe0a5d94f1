-- ===== src/PsbtGuard/Provenance.antt =====
-- Where the inputs of a PSBT come from: the previous outputs, cross-checked, and their scripts.
use sara_pro.Prelude.{
  ℕ, zero, suc, List, [], ◌∷◌, Option, none, some, Bool, true, false, ◌&&◌, ◌||◌, not, length, take,
  drop, ltb, ◌==◌, if◌then◌else◌, Result, ok, err, ◌>>=◌, ◌>>◌, raise_if, map_err, or_raise,
}
use sara_pro.Bytes.{Bytes, Text, CaseTables, text, text_eq, text_in, le_value, lower}
use sara_pro.BitcoinTx.Types.{TxInput, TxOutput, max_money}
use sara_pro.BitcoinTx.CompactSize.{read_compact_size}
use sara_pro.BitcoinTx.Parse.{parse_transaction}
use sara_pro.BitcoinTx.Evaluate.{tx_hash}
use sara_pro.BitcoinTx.Script.{classify_script_pubkey}
use sara_pro.PsbtGuard.{
  PsbtError, witness_utxo_truncated, witness_utxo_amount, witness_utxo_length, bad_witness_utxo,
  bad_non_witness_utxo, tx_error, redeem_missing, redeem_mismatch, redeem_not_segwit,
  redeem_unexpected, witness_missing, witness_mismatch, witness_unexpected, duplicate_outpoint,
  no_provenance, txid_mismatch, outside_outputs, not_segwit_form, sources_disagree, PsbtEntry,
  singleton,
}
use sara_pro.PsbtGuard.Fields.{Check, Hashes, is_present}

-- `_parse_witness_utxo`
unfoldable pub parse_witness_utxo : Bytes → Result PsbtError TxOutput
parse_witness_utxo value = do
  raise_if (ltb (length value) 9) witness_utxo_truncated
  raise_if (ltb max_money (le_value (take 8 value))) witness_utxo_amount
  (script_len, script) ← map_err bad_witness_utxo (read_compact_size (drop 8 value))
  raise_if (not (length script == script_len)) witness_utxo_length
  ok (record { value_sat = le_value (take 8 value); script_pubkey = script })

-- `l[i]`
unfoldable pub output_at : ℕ → List TxOutput → Option TxOutput
output_at i [] = none
output_at zero (o ∷ l) = some o
output_at (suc i) (o ∷ l) = output_at i l

abbrev pub never_segwit : List Text
never_segwit = text "P2PKH" ∷ text "P2PK" ∷ text "P2MS" ∷ text "UNKNOWN" ∷ text "OP_RETURN" ∷ []

abbrev pub outputs_differ : TxOutput → TxOutput → Bool
outputs_differ a b =
    not (a.value_sat == b.value_sat) || not (text_eq a.script_pubkey b.script_pubkey)

-- `prevout_id in seen_prevouts`
unfoldable pub seen_before : Text → ℕ → List (Text × ℕ) → Bool
seen_before txid vout [] = false
seen_before txid vout ((t, v) ∷ l) = (text_eq t txid && v == vout) || seen_before txid vout l

module _ (h : Hashes) where
  -- The script that the redeemScript stands for.
  unfoldable pub effective_script : TxOutput → Option PsbtEntry → Bool → Result PsbtError Bytes
  effective_script prevout redeem has_non_witness =
      if text_eq (classify_script_pubkey prevout.script_pubkey) (text "P2SH")
      then redeemed redeem
      else (do raise_if (is_present redeem) redeem_unexpected; ok prevout.script_pubkey)
    where
      redeemed : Option PsbtEntry → Result PsbtError Bytes
      redeemed none = err redeem_missing
      redeemed (some e) = do
        raise_if
            (not (length prevout.script_pubkey == 23)
              || not (
                  text_eq (h.ripemd160 (h.sha256 e.value))
                    (take 20 (drop 2 prevout.script_pubkey))))
            redeem_mismatch
        raise_if
            (not (text_in (classify_script_pubkey e.value) (text "P2WPKH" ∷ text "P2WSH" ∷ []))
              && not has_non_witness)
            redeem_not_segwit
        ok e.value

  unfoldable pub check_witness_script : Bytes → Option PsbtEntry → Check
  check_witness_script effective none =
      raise_if (text_eq (classify_script_pubkey effective) (text "P2WSH")) witness_missing
  check_witness_script effective (some e) =
      if text_eq (classify_script_pubkey effective) (text "P2WSH")
      then raise_if (not (text_eq (h.sha256 e.value) (take 32 (drop 2 effective)))) witness_mismatch
      else err witness_unexpected

  -- `_validate_input_script_commitments`
  unfoldable pub validate_input_script_commitments : TxOutput → List PsbtEntry → Check
  validate_input_script_commitments prevout m = do
    redeem ← singleton m 0x04 false true
    witness_script ← singleton m 0x05 false true
    nonw ← singleton m 0x00 false true
    effective ← effective_script prevout redeem (is_present nonw)
    check_witness_script effective witness_script

  module _ (tables : CaseTables) where
    -- The output that the non-witness UTXO transaction has at the input's index.
    unfoldable pub from_non_witness : TxInput → PsbtEntry → Result PsbtError TxOutput
    from_non_witness txin e = do
      prev_tx ← map_err bad_non_witness_utxo (parse_transaction e.value)
      txid ← map_err tx_error (tx_hash h.sha256 prev_tx false)
      raise_if (not (text_eq (lower tables txid) (lower tables txin.prev_txid))) txid_mismatch
      or_raise (output_at txin.vout prev_tx.outputs) outside_outputs

    unfoldable pub from_witness : Bool → PsbtEntry → Result PsbtError TxOutput
    from_witness has_non_witness e = do
      o ← parse_witness_utxo e.value
      raise_if
          (not has_non_witness && text_in (classify_script_pubkey o.script_pubkey) never_segwit)
          not_segwit_form
      ok o

    -- The previous output, from one source or from two that agree.
    unfoldable pub resolve :
        TxInput → Option PsbtEntry → Option PsbtEntry → Result PsbtError TxOutput
    resolve txin none none = err no_provenance
    resolve txin (some n) none = from_non_witness txin n
    resolve txin none (some w) = from_witness false w
    resolve txin (some n) (some w) = do
      a ← from_non_witness txin n
      b ← from_witness true w
      raise_if (outputs_differ a b) sources_disagree
      ok b

    -- The body of the loop of `_validate_input_utxo_provenance`.
    unfoldable pub resolve_input : TxInput → List PsbtEntry → Result PsbtError TxOutput
    resolve_input txin m = do
      nonw ← singleton m 0x00 false true
      wit ← singleton m 0x01 false true
      chosen ← resolve txin nonw wit
      validate_input_script_commitments chosen m
      ok chosen

    -- `_validate_input_utxo_provenance`, with the outpoints of the inputs before; zip ends with the
    -- shorter list.
    unfoldable pub resolve_inputs :
        List (Text × ℕ) → List TxInput → List (List PsbtEntry) → Result PsbtError (List TxOutput)
    resolve_inputs seen (txin ∷ ins) (m ∷ ms) = do
      raise_if (seen_before (lower tables txin.prev_txid) txin.vout seen) duplicate_outpoint
      chosen ← resolve_input txin m
      rest ← resolve_inputs ((lower tables txin.prev_txid, txin.vout) ∷ seen) ins ms
      ok (chosen ∷ rest)
    resolve_inputs seen [] ms = ok []
    resolve_inputs seen (txin ∷ ins) [] = ok []

-- ===== src/PsbtGuard/Audit.antt =====
-- The parts of `audit_psbt`: field types, proprietary names, caps on the fee and the outputs. The texts
-- of findings, reasons and controls are left out.
use sara_pro.Prelude.{
  ℕ, suc, ◌+◌, List, [], ◌∷◌, Option, none, some, Bool, true, false, ◌&&◌, ◌||◌, not, length, take,
  drop, ltb, leb, ◌==◌, if◌then◌else◌, Result, ok, err, ◌>>=◌, ◌>>◌, raise_if, map_err,
}
use sara_pro.Prelude.Int.{ℤ, pos, negsuc}
use sara_pro.Bytes.{Bytes, Text, CaseTables, text, text_eq, text_in}
use sara_pro.BitcoinTx.Types.{TxOutput}
use sara_pro.BitcoinTx.CompactSize.{read_compact_size}
use sara_pro.BitcoinTx.Script.{classify_script_pubkey}
use sara_pro.BitcoinTx.Evaluate.{index_in}
use sara_pro.QuantumPolicy.Types.{CryptoPolicyState, normalized_network}
use sara_pro.QuantumPolicy.Outputs.{is_mainnet, evaluate_new_output}
use sara_pro.SignaturePolicy.{Allowed, is_member, enforce_sighash_policy}
use sara_pro.PsbtGuard.{
  PsbtError, bad_proprietary, no_identifier, bad_cap, sighash_rejected, PsbtEntry, declared_sighash,
}
use sara_pro.PsbtGuard.Fields.{Check}

-- A cap on the fee rate: whether it is negative, and whether the float `fee / vsize` exceeds it.
pub record RateCap : Type 0 where
  pub is_negative : Bool
  pub is_exceeded : ℕ → ℕ → Bool

pub record AuditArgs : Type 0 where
  pub network : Text
  pub policy_state : CryptoPolicyState
  pub pq_recovery_output_indexes : List ℤ
  pub reject_global_xpub : Bool
  pub reject_unknown_fields : Bool
  pub reject_proprietary_fields : Bool
  pub allowed_proprietary_prefixes : List Bytes
  pub max_fee_sat : Option ℤ
  pub max_fee_bps_of_input : Option ℤ
  pub max_fee_rate : Option RateCap
  pub reject_address_reuse : Bool
  pub reject_rbf : Bool
  pub reject_dust : Bool
  pub allow_op_return : Bool
  pub max_op_return_script_bytes : ℕ
  pub allow_sighash : Allowed

abbrev pub known_global_types : List ℕ
known_global_types = 0x00 ∷ 0x01 ∷ 0x02 ∷ 0x03 ∷ 0x04 ∷ 0x05 ∷ 0x06 ∷ 0xFB ∷ 0xFC ∷ []

abbrev pub known_input_types : List ℕ
known_input_types =
    0x00 ∷ 0x01 ∷ 0x02 ∷ 0x03 ∷ 0x04 ∷ 0x05 ∷ 0x06 ∷ 0x07 ∷ 0x08 ∷ 0x0A ∷ 0x0B ∷ 0x0C ∷ 0x0D ∷ 0x0E
    ∷ 0x0F ∷ 0x10 ∷ 0x11 ∷ 0x12 ∷ 0x13 ∷ 0x14 ∷ 0x15 ∷ 0x16 ∷ 0x17 ∷ 0x18 ∷ 0x1A ∷ 0x1B ∷ 0x1C
    ∷ 0xFC ∷ []

abbrev pub known_output_types : List ℕ
known_output_types = 0x02 ∷ 0x03 ∷ 0x04 ∷ 0x05 ∷ 0x06 ∷ 0x07 ∷ 0x08 ∷ 0xFC ∷ []

-- `_proprietary_prefix` of a proprietary entry
unfoldable pub proprietary_prefix : PsbtEntry → Result PsbtError Bytes
proprietary_prefix e = do
  (n, rest) ← map_err bad_proprietary (read_compact_size e.key_data)
  raise_if (n == 0 || ltb (length rest) n) no_identifier
  subtype ← map_err bad_proprietary (read_compact_size (drop n rest))
  ok (take n rest)

-- The counters of `_field_policy_counts`, with the unapproved proprietary fields.
pub record FieldCounts : Type 0 where
  pub unknown : ℕ
  pub unapproved : ℕ

abbrev pub one_if : Bool → ℕ
one_if true = 1
one_if false = 0

-- An entry's part in the last counter.
unfoldable pub unapproved_of : List Bytes → PsbtEntry → Result PsbtError ℕ
unapproved_of prefixes e = elim (e.key_type == 0xFC) [
  | false ↦ ok 0
  | true ↦ do prefix ← proprietary_prefix e; ok (one_if (not (text_in prefix prefixes)))
]

unfoldable pub count_fields : List Bytes → List ℕ → List PsbtEntry → Result PsbtError FieldCounts
count_fields prefixes known [] = ok (record { unknown = 0; unapproved = 0 })
count_fields prefixes known (e ∷ l) = do
  u ← unapproved_of prefixes e
  rest ← count_fields prefixes known l
  ok (record {
    unknown = one_if (not (is_member e.key_type known)) + rest.unknown;
    unapproved = u + rest.unapproved;
  })

unfoldable pub count_maps :
    List Bytes → List ℕ → List (List PsbtEntry) → Result PsbtError FieldCounts
count_maps prefixes known [] = ok (record { unknown = 0; unapproved = 0 })
count_maps prefixes known (m ∷ ms) = do
  c ← count_fields prefixes known m
  rest ← count_maps prefixes known ms
  ok (record { unknown = c.unknown + rest.unknown; unapproved = c.unapproved + rest.unapproved })

-- `max_fee_sat` and `max_fee_bps_of_input`: a negative cap, or one above a limit, is refused.
unfoldable pub check_cap : Option ℕ → Option ℤ → Check
check_cap limit none = ok tt
check_cap limit (some (negsuc n)) = err bad_cap
check_cap none (some (pos n)) = ok tt
check_cap (some k) (some (pos n)) = raise_if (ltb k n) bad_cap

unfoldable pub is_above : ℕ → Option ℤ → Bool
is_above n none = false
is_above n (some (pos k)) = ltb k n
is_above n (some (negsuc k)) = true

unfoldable pub check_rate : Option RateCap → Check
check_rate none = ok tt
check_rate (some c) = raise_if c.is_negative bad_cap

unfoldable pub rate_above : ℕ → ℕ → Option RateCap → Bool
rate_above fee vsize none = false
rate_above fee vsize (some c) = c.is_exceeded fee vsize

-- The test of a sighash type, if one is declared.
unfoldable pub check_declared : Allowed → Text → Option ℕ → Check
check_declared allow script_type none = ok tt
check_declared allow script_type (some t) =
    map_err sighash_rejected (enforce_sighash_policy t (text_eq script_type (text "P2TR")) allow)

-- The loop over the declared sighash types.
unfoldable pub check_sighashes : Allowed → List (List PsbtEntry) → List TxOutput → Check
check_sighashes allow (m ∷ ms) (o ∷ os) = do
  declared ← declared_sighash m
  check_declared allow (classify_script_pubkey o.script_pubkey) declared
  check_sighashes allow ms os
check_sighashes allow [] os = ok tt
check_sighashes allow (m ∷ ms) [] = ok tt

-- `_dust_threshold_sat`
unfoldable pub dust_threshold_sat : Text → Option ℕ
dust_threshold_sat t =
    if text_eq t (text "P2PKH")
    then some 546
    else if text_eq t (text "P2SH")
    then some 540
    else if text_eq t (text "P2WPKH")
    then some 294
    else if text_in t (text "P2WSH" ∷ text "P2TR" ∷ text "P2MR" ∷ [])
    then some 330
    else if text_in t (text "P2PK" ∷ text "P2MS" ∷ [])
    then some 546
    else none

abbrev pub below_threshold : ℕ → Option ℕ → Bool
below_threshold v none = false
below_threshold v (some k) = ltb v k

pub record AuditedOutput : Type 0 where
  pub index : ℕ
  pub value_sat : ℕ
  pub script_type : Text
  pub address_reuse_detected : Bool
  pub is_dust : Bool
  pub allowed : Bool

-- `o.script_pubkey in input_scripts`
unfoldable pub reuses : List TxOutput → Bytes → Bool
reuses [] script = false
reuses (o ∷ os) script = text_eq o.script_pubkey script || reuses os script

module _ (tables : CaseTables) (args : AuditArgs) (resolved : List TxOutput) where
  -- What the policy says of an output before its dust is looked at.
  unfoldable pub policy_allows : ℕ → TxOutput → Bool
  policy_allows index o =
      let script_type = classify_script_pubkey o.script_pubkey in
      if text_eq script_type (text "OP_RETURN")
      then (args.allow_op_return
          && (o.value_sat == 0)
          && leb (length o.script_pubkey) args.max_op_return_script_bytes
          && not (is_mainnet (normalized_network tables args.network)))
      else (evaluate_new_output tables
          (record {
            network = args.network;
            script_type = script_type;
            address_reused = reuses resolved o.script_pubkey && args.reject_address_reuse;
            has_pq_recovery_path = index_in index args.pq_recovery_output_indexes;
          })
          args.policy_state).allowed

  -- The body of the loop over the outputs.
  unfoldable pub audit_output : ℕ → TxOutput → AuditedOutput
  audit_output index o =
      let script_type = classify_script_pubkey o.script_pubkey in
      let dust = below_threshold o.value_sat (dust_threshold_sat script_type) in
      record {
        index = index;
        value_sat = o.value_sat;
        script_type = script_type;
        address_reuse_detected = reuses resolved o.script_pubkey;
        is_dust = dust;
        allowed = policy_allows index o && not (args.reject_dust && dust);
      }

  unfoldable pub audit_outputs : ℕ → List TxOutput → List AuditedOutput
  audit_outputs index [] = []
  audit_outputs index (o ∷ os) = audit_output index o ∷ audit_outputs (suc index) os

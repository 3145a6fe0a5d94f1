-- ===== src/PsbtGuard/Report.antt =====
-- `audit_psbt`: the checks in their order, the fee, and whether the PSBT may be signed.
use sara_pro.Prelude.{
  ℕ, ◌+◌, ◌-◌, ◌*◌, ◌/◌, ◌%◌, List, [], ◌∷◌, Option, none, some, Bool, true, false, ◌&&◌, ◌||◌, not,
  length, ltb, ◌==◌, if◌then◌else◌, Result, ok, ◌>>=◌, ◌>>◌, raise_if, map_err,
}
use sara_pro.Bytes.{Text, CaseTables, is_empty}
use sara_pro.BitcoinTx.Types.{TxOutput}
use sara_pro.BitcoinTx.Script.{byte_is}
use sara_pro.BitcoinTx.Parse.{RawTx}
use sara_pro.BitcoinTx.Serialize.{serialize}
use sara_pro.BitcoinTx.Evaluate.{any_input, any_outside, tx_hash}
use sara_pro.QuantumPolicy.Types.{CryptoPolicyState, normalized_network}
use sara_pro.PsbtGuard.{
  PsbtError, recovery_outside, outputs_exceed_inputs, tx_error, PsbtEntry, entries_of, singleton,
}
use sara_pro.PsbtGuard.Fields.{Hashes, any_of_types}
use sara_pro.PsbtGuard.Parse.{ParsedPsbt}
use sara_pro.PsbtGuard.Whole.{parse_psbt}
use sara_pro.PsbtGuard.Provenance.{resolve_inputs}
use sara_pro.PsbtGuard.Audit.{
  AuditArgs, known_global_types, known_input_types, known_output_types, FieldCounts, count_fields,
  count_maps, check_cap, is_above, check_rate, rate_above, check_sighashes, AuditedOutput,
  audit_outputs,
}

-- `sum(o.value_sat for o in l)`
unfoldable pub total_value : List TxOutput → ℕ
total_value [] = 0
total_value (o ∷ os) = o.value_sat + total_value os

unfoldable pub any_output : (AuditedOutput → Bool) → List AuditedOutput → Bool
any_output test [] = false
any_output test (d ∷ l) = test d || any_output test l

-- Some input map has a field of one of the types.
unfoldable pub maps_have : List ℕ → List (List PsbtEntry) → Bool
maps_have types [] = false
maps_have types (m ∷ ms) = any_of_types types m || maps_have types ms

-- `mod.value[0] & 0x03`
abbrev pub is_modifiable : Option PsbtEntry → Bool
is_modifiable none = false
is_modifiable (some e) = byte_is e.value 0 (λ b. not (b % 4 == 0))

unfoldable pub mutable_after_signature : ParsedPsbt → Result PsbtError Bool
mutable_after_signature p = elim (p.version == 2) [
  | false ↦ ok false
  | true ↦ do
    flags ← singleton p.global_map 0x06 false true
    ok (
        maps_have (0x02 ∷ 0x13 ∷ 0x14 ∷ 0x1C ∷ 0x07 ∷ 0x08 ∷ []) p.input_maps
        && is_modifiable flags)
]

pub record PsbtAuditReport : Type 0 where
  pub version : ℕ
  pub txid : Text
  pub network : Text
  pub policy_state : CryptoPolicyState
  pub allowed : Bool
  pub output_decisions : List AuditedOutput
  pub input_value_sat : ℕ
  pub output_value_sat : ℕ
  pub fee_sat : ℕ
  pub fee_bps_of_input : ℕ
  pub minimum_unsigned_vsize : ℕ
  pub global_xpub : Bool
  pub unknown_field_count : ℕ
  pub unapproved_proprietary_field_count : ℕ
  pub mutable : Bool
  pub signals_rbf : Bool

-- `a // b if b else 0`
abbrev pub quotient_or_zero : ℕ → ℕ → ℕ
quotient_or_zero a b = if b == 0 then 0 else a / b

abbrev pub all_outputs_allowed : List AuditedOutput → Bool
all_outputs_allowed l = not (any_output (λ d. not d.allowed) l)

-- The last lines of the audit.
unfoldable pub is_allowed : AuditArgs → PsbtAuditReport → Bool
is_allowed a r =
    all_outputs_allowed r.output_decisions
    && not (a.reject_global_xpub && r.global_xpub)
    && not (a.reject_unknown_fields && not (r.unknown_field_count == 0))
    && not (a.reject_proprietary_fields && not (r.unapproved_proprietary_field_count == 0))
    && not r.mutable
    && not (a.reject_address_reuse && any_output (λ d. d.address_reuse_detected) r.output_decisions)
    && not (a.reject_rbf && r.signals_rbf)
    && not (a.reject_dust && any_output (λ d. d.is_dust) r.output_decisions)
    && not (is_above r.fee_sat a.max_fee_sat)
    && not (is_above r.fee_bps_of_input a.max_fee_bps_of_input)
    && not (rate_above r.fee_sat r.minimum_unsigned_vsize a.max_fee_rate)

module _ (h : Hashes) (tables : CaseTables) (a : AuditArgs) where
  unfoldable pub count_psbt : ParsedPsbt → Result PsbtError FieldCounts
  count_psbt p = do
    g ← count_fields a.allowed_proprietary_prefixes known_global_types p.global_map
    i ← count_maps a.allowed_proprietary_prefixes known_input_types p.input_maps
    o ← count_maps a.allowed_proprietary_prefixes known_output_types p.output_maps
    ok (record {
      unknown = g.unknown + i.unknown + o.unknown;
      unapproved = g.unapproved + i.unapproved + o.unapproved;
    })

  -- The report of a PSBT whose checks have passed.
  unfoldable pub report_of :
      ParsedPsbt → List TxOutput → FieldCounts → Bool → Text → ℕ → PsbtAuditReport
  report_of p resolved counts mutable txid vsize =
      let fee = total_value resolved - total_value p.transaction.outputs in
      let facts : PsbtAuditReport = record {
        version = p.version;
        txid = txid;
        network = normalized_network tables a.network;
        policy_state = a.policy_state;
        allowed = false;
        output_decisions = audit_outputs tables a resolved 0 p.transaction.outputs;
        input_value_sat = total_value resolved;
        output_value_sat = total_value p.transaction.outputs;
        fee_sat = fee;
        fee_bps_of_input = quotient_or_zero (fee * 10_000) (total_value resolved);
        minimum_unsigned_vsize = vsize;
        global_xpub = not (is_empty (entries_of p.global_map 0x01));
        unknown_field_count = counts.unknown;
        unapproved_proprietary_field_count = counts.unapproved;
        mutable = mutable;
        signals_rbf = any_input (λ i. ltb i.sequence 0xFFFFFFFE) p.transaction.inputs;
      } in
      record facts { allowed = is_allowed a facts }

  -- `audit_psbt` of a parsed PSBT
  unfoldable pub audit_parsed : ParsedPsbt → Result PsbtError PsbtAuditReport
  audit_parsed p = do
    resolved ← resolve_inputs h tables [] p.transaction.inputs p.input_maps
    raise_if (any_outside (length p.transaction.outputs) a.pq_recovery_output_indexes)
        recovery_outside
    counts ← count_psbt p
    raise_if (ltb (total_value resolved) (total_value p.transaction.outputs)) outputs_exceed_inputs
    stripped ← map_err tx_error (serialize false p.transaction)
    check_cap none a.max_fee_sat
    check_cap (some 10_000) a.max_fee_bps_of_input
    check_rate a.max_fee_rate
    check_sighashes a.allow_sighash p.input_maps resolved
    mutable ← mutable_after_signature p
    txid ← map_err tx_error (tx_hash h.sha256 p.transaction false)
    ok (report_of p resolved counts mutable txid (length stripped))

  unfoldable pub audit_psbt : RawTx → Result PsbtError PsbtAuditReport
  audit_psbt raw = do p ← parse_psbt h raw; audit_parsed p

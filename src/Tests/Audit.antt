-- ===== src/Tests/Audit.antt =====
-- A PSBT whose input has a witness UTXO, audited on a test network.
use sara_pro.Prelude.{◌≡◌, refl, [], ◌∷◌, ◌++◌, none, some, true, false, ok}
use sara_pro.Prelude.Int.{pos}
use sara_pro.Bytes.{Bytes, text, le_bytes, text_eq}
use sara_pro.BitcoinTx.Types.{TxOutput}
use sara_pro.QuantumPolicy.Types.{ecdsa_allowed}
use sara_pro.PsbtGuard.{PsbtEntry, singleton}
use sara_pro.PsbtGuard.Parse.{ParsedPsbt}
use sara_pro.PsbtGuard.Fields.{no_more}
use sara_pro.PsbtGuard.Provenance.{resolve_inputs, resolve_input}
use sara_pro.PsbtGuard.Resolved.{Resolved, resolve_inputs-Resolved}
use sara_pro.PsbtGuard.Audit.{AuditArgs}
use sara_pro.PsbtGuard.Report.{PsbtAuditReport, report_of, audit_parsed}
use sara_pro.PsbtGuard.Allowance.{Signable, audit_parsed-Signable}
use sara_pro.Tests.{ascii, repeat}
use sara_pro.Tests.Transactions.{tx}
use sara_pro.Tests.Psbt.{no_hashes}

abbrev funding : TxOutput
funding = record { value_sat = 100_000; script_pubkey = 0 ∷ 20 ∷ repeat 20 9 }

abbrev utxo : PsbtEntry
utxo = record {
  key_type = 1;
  key_data = [];
  value = (160 ∷ 134 ∷ 1 ∷ 0 ∷ 0 ∷ 0 ∷ 0 ∷ 0 ∷ 22 ∷ []) ++ funding.script_pubkey;
  raw_key = 1 ∷ [];
}

abbrev funded : ParsedPsbt
funded = record {
  version = 0;
  global_map = [];
  input_maps = (utxo ∷ []) ∷ [];
  output_maps = [] ∷ [];
  transaction = tx;
}

abbrev args : AuditArgs
args = record {
  network = text "signet";
  policy_state = ecdsa_allowed;
  pq_recovery_output_indexes = [];
  reject_global_xpub = true;
  reject_unknown_fields = true;
  reject_proprietary_fields = true;
  allowed_proprietary_prefixes = [];
  max_fee_sat = some (pos 100_000);
  max_fee_bps_of_input = none;
  max_fee_rate = none;
  reject_address_reuse = true;
  reject_rbf = false;
  reject_dust = false;
  allow_op_return = false;
  max_op_return_script_bytes = 83;
  allow_sighash = no_more;
}

funded_resolves : resolve_inputs no_hashes ascii [] tx.inputs funded.input_maps ≡ ok (funding ∷ [])
unfolding resolve_inputs resolve_input sara_pro.PsbtGuard.Provenance.seen_before
    sara_pro.PsbtGuard.Provenance.resolve sara_pro.PsbtGuard.Provenance.from_witness
    sara_pro.PsbtGuard.Provenance.parse_witness_utxo
    sara_pro.PsbtGuard.Provenance.validate_input_script_commitments
    sara_pro.PsbtGuard.Provenance.effective_script
    sara_pro.PsbtGuard.Provenance.check_witness_script singleton sara_pro.PsbtGuard.single_of
    sara_pro.PsbtGuard.entries_of sara_pro.BitcoinTx.CompactSize.read_compact_size
    sara_pro.Bytes.le_value sara_pro.BitcoinTx.Script.classify_script_pubkey text_eq
    sara_pro.Bytes.text_in
funded_resolves = refl

resolve_inputs-Resolved_example :
    Resolved no_hashes ascii [] tx.inputs funded.input_maps (funding ∷ [])
resolve_inputs-Resolved_example =
    resolve_inputs-Resolved no_hashes ascii [] tx.inputs funded.input_maps funded_resolves

abbrev report : PsbtAuditReport
report =
    report_of no_hashes ascii args funded (funding ∷ []) (record { unknown = 0; unapproved = 0 })
      false [] 82

audited : audit_parsed no_hashes ascii args funded ≡ ok report
unfolding audit_parsed resolve_inputs resolve_input sara_pro.PsbtGuard.Provenance.seen_before
    sara_pro.PsbtGuard.Provenance.resolve sara_pro.PsbtGuard.Provenance.from_witness
    sara_pro.PsbtGuard.Provenance.parse_witness_utxo
    sara_pro.PsbtGuard.Provenance.validate_input_script_commitments
    sara_pro.PsbtGuard.Provenance.effective_script
    sara_pro.PsbtGuard.Provenance.check_witness_script singleton sara_pro.PsbtGuard.single_of
    sara_pro.PsbtGuard.entries_of sara_pro.BitcoinTx.CompactSize.read_compact_size
    sara_pro.Bytes.le_value sara_pro.BitcoinTx.Script.classify_script_pubkey text_eq
    sara_pro.Bytes.text_in sara_pro.BitcoinTx.Serialize.serialize
    sara_pro.BitcoinTx.Serialize.serialize_counted sara_pro.BitcoinTx.Serialize.serialize_input
    sara_pro.BitcoinTx.Serialize.serialize_output sara_pro.BitcoinTx.Serialize.serialize_witnesses
    sara_pro.BitcoinTx.Serialize.emit_all sara_pro.BitcoinTx.Serialize.signed_bytes
    sara_pro.BitcoinTx.Serialize.with_length sara_pro.BitcoinTx.CompactSize.encode_compact_size
    sara_pro.Bytes.to_bytes le_bytes sara_pro.Bytes.to_unsigned sara_pro.Bytes.from_hex
    sara_pro.Bytes.hex_digit sara_pro.Bytes.is_ascii_space sara_pro.PsbtGuard.Audit.count_fields
    sara_pro.PsbtGuard.Audit.unapproved_of sara_pro.PsbtGuard.Audit.count_maps
    sara_pro.PsbtGuard.Audit.check_cap sara_pro.PsbtGuard.Audit.check_rate
    sara_pro.PsbtGuard.Audit.check_sighashes sara_pro.PsbtGuard.Report.total_value
    sara_pro.PsbtGuard.Report.mutable_after_signature sara_pro.PsbtGuard.Report.count_psbt
    sara_pro.BitcoinTx.Evaluate.any_outside sara_pro.BitcoinTx.Evaluate.tx_hash
    sara_pro.BitcoinTx.Evaluate.sha256d sara_pro.SignaturePolicy.is_member
    sara_pro.PsbtGuard.declared_sighash sara_pro.PsbtGuard.sighash_of sara_pro.Bytes.to_hex
    sara_pro.PsbtGuard.Audit.check_declared
audited = refl

report_allowed : report.allowed ≡ true
unfolding report_of sara_pro.PsbtGuard.Report.is_allowed sara_pro.PsbtGuard.Report.any_output
    sara_pro.PsbtGuard.Report.total_value sara_pro.PsbtGuard.Audit.audit_outputs
    sara_pro.PsbtGuard.Audit.audit_output sara_pro.PsbtGuard.Audit.policy_allows
    sara_pro.PsbtGuard.Audit.reuses sara_pro.PsbtGuard.Audit.dust_threshold_sat
    sara_pro.PsbtGuard.Audit.is_above sara_pro.PsbtGuard.Audit.rate_above
    sara_pro.QuantumPolicy.Types.normalized_network
    sara_pro.QuantumPolicy.Types.normalized_script_type
    sara_pro.QuantumPolicy.Types.is_always_exposed sara_pro.QuantumPolicy.Types.is_hash_hidden
    sara_pro.QuantumPolicy.Types.is_p2mr sara_pro.QuantumPolicy.Outputs.evaluate_new_output
    sara_pro.QuantumPolicy.Outputs.is_mainnet sara_pro.QuantumPolicy.Outputs.is_test_network
    sara_pro.QuantumPolicy.Outputs.decide_output sara_pro.QuantumPolicy.Outputs.output_allowed
    sara_pro.QuantumPolicy.Outputs.state_allows sara_pro.QuantumPolicy.Outputs.is_unknown_script
    sara_pro.Bytes.text_in sara_pro.Bytes.strip sara_pro.Bytes.strip_left sara_pro.Bytes.is_space
    sara_pro.Bytes.upper sara_pro.Bytes.remove_char text_eq
    sara_pro.BitcoinTx.Script.classify_script_pubkey sara_pro.BitcoinTx.Evaluate.any_input
    sara_pro.BitcoinTx.Evaluate.index_in sara_pro.PsbtGuard.entries_of
report_allowed = refl

audit_parsed-Signable_example : Signable no_hashes ascii args funded report
audit_parsed-Signable_example =
    audit_parsed-Signable no_hashes ascii args funded audited report_allowed

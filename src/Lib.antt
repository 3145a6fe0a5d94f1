-- ===== src/Lib.antt =====
-- A model of the custody core of Sara_pro: the package worldshepherd_qcrypto_kms under
-- research/qcrypto_tsv/v3_6/, which decides whether a Bitcoin transaction may be signed while quantum
-- policies tighten, and keeps the durable ledgers that this decision rests on.
--
-- The parts and how they interact. bitcoin_tx.py parses the bytes of a transaction (BitcoinTx), and asks
-- bitcoin_quantum_policy.py (QuantumPolicy) for each output whether the policy state allows it.
-- policy_epoch.py (PolicyEpoch) anchors the policy state, emergency_state.py (EmergencyState) the
-- emergency mode and authorization_ledger.py (AuthorizationLedger) the receipts; the three are files of
-- hash-chained JSON lines (Ledger). approval_quorum.py (ApprovalQuorum) counts operator approvals,
-- crypto_agility.py (CryptoAgility) judges a set of algorithms, key_lifecycle.py (KeyLifecycle) the keys
-- that use them, signature_policy.py (SignaturePolicy) the encoding of signatures, and psbt_guard.py
-- (PsbtGuard) reads and audits a PSBT; resource_budget.py (ResourceBudget) bounds the sizes of a package.
-- output_intent.py (OutputIntent) compares the outputs with the expected payments and the change, whose
-- addresses address_codec.py (AddressCodec) decodes, and encodes.
-- operation_journal.py (OperationJournal) records each remote signature, so that none is asked for twice, and
-- aws_kms_provider.py (AwsKms) asks for it.
--
-- Files:
--   Prelude            numbers and Boolean tests, lists, results with errors and the loop over a list
--   Bytes              little-endian integers, hex text, str methods, sorted lists, decimal digits
--   Ledger             JSON objects and lines, the chaining loop of two ledgers, what its tip commits to
--   BitcoinTx          CompactSize, Serialize (BitcoinTransaction.serialize), Parse (parse_transaction),
--                      Script (classify_script_pubkey), Evaluate (evaluate_serialized_transaction);
--                      RoundTrip, CompactSize/Laws and Evaluate/Release, Evaluate/Total hold proofs
--   QuantumPolicy      Assess (assess_utxo, build_migration_manifest), Outputs (evaluate_new_output);
--                      Decision, Priority and Manifest hold proofs
--   PolicyEpoch        _read, transition, current, assert_current; Tips, Transition and Rollback hold proofs
--   AuthorizationLedger _verify_unlocked, append_authorization_receipt; Tamper holds proofs
--   EmergencyState     _read, transition, assert_current; Transition and Recovery hold proofs
--   ApprovalQuorum     canonical_bytes, verify_approval_quorum; Quorum holds proofs
--   CryptoAgility      Registry (normalize_algorithm_id, algorithm_spec), evaluate_algorithm_set; Normal
--                      and Satisfied hold proofs
--   KeyLifecycle       canonical_dict, the registry, lookup, authorize_key; Authorize and Distinct hold
--                      proofs
--   PsbtGuard          _read_map and the access to fields, Curve (public keys), Fields and Metadata (the
--                      checks of the maps), Parse and Whole (parse_psbt), Provenance, Audit and Report
--                      (audit_psbt); Maps, Locktime, Parsed, Accepted, Resolved, Allowance hold proofs
--   ResourceBudget     evaluate_resource_budget; Limits holds proofs
--   AddressCodec       address_to_scriptpubkey, Encode (scriptpubkey_to_address); Networks, Kinds,
--                      Base58, Forms and Restores hold proofs
--   OutputIntent       resolve_script, evaluate_output_intent; Intended holds proofs
--   OperationJournal   Operations (claim_for_sign, mark_signed, mark_indeterminate, get), Serve (sequences of
--                      requests); Steps, Progress, Phases and Completion hold proofs
--   AwsKms             the results and their dicts, Descriptor (_descriptor_components), Sign (begin_sign,
--                      reconcile); Sends, Replays, Again, Bound, Kept and Restart hold proofs
--   SignaturePolicy    the parsers and enforce_sighash_policy; Bounds and Layout hold proofs
--   Tests              the theorems at concrete inputs
--
-- How state and code correspond. A function that raises returns a `Result`, whose error names the
-- exception by its message, and guards stand in the order of the code. A parser that the code runs with
-- an offset returns the bytes that are left. A ledger's file is a value that each operation takes and
-- returns; an operation is one step, as the code holds the file lock from reading to appending. A text is
-- the list of its code points. A JSON object is the list of its entries, and a line is what `json.loads`
-- returns; the last line of a file may be one that no newline ends. The journal's directory is a
-- function from file names to what there is at the name.
--
-- Parameters: SHA-256, the digest of an object's canonical JSON, base64, ISO-8601 times and Ed25519, and
-- Python's case tables outside ASCII (`CaseTables`), the `repr` of a dict, and the client of KMS. What a
-- theorem assumes of them stands among its hypotheses.
--
-- Bounds and fuel: Bitcoin's integers keep their widths in bytes, and the parser's safety bounds are the
-- code's; the loop over the entries of a PSBT map runs on the number of entries that may still come. The
-- decimal digits of a number run on fuel, the number and one more, as each digit divides the number by ten
-- (Bytes/Decimal); powers modulo the curve's prime on 256 bits, as the exponent halves (PsbtGuard/Curve);
-- `^` in the checksum of Bech32 on the 32 bits of its numbers, and the bytes of a Base58 number on the
-- length of its address, as a digit of base 58 is less than a byte, and its digits on twice the number of
-- its bytes (AddressCodec/Base58); and the leaves of a Taproot tree on the number of its bytes, as each
-- leaf has some (PsbtGuard/Metadata).
--
-- Not modelled: file permissions, symbolic links, locks and fsync, beyond a file that is refused;
-- the rule of str.lower for a final sigma; to_dict views and reports; negative vout, sequence, value or
-- locktime in a transaction that no parser returns. Findings and reasons of a PSBT's audit are texts and
-- left out, as are the texts and the digest of an output intent. Of the other modules of the repository,
-- the signing gate and the planes above it and the TSV market controls rest on this core, the providers
-- are calls of other systems, and the solvers are floating-point programs.
pub mod Prelude
pub mod Tests
pub mod Bytes
pub mod Ledger
pub mod BitcoinTx
pub mod QuantumPolicy
pub mod CryptoAgility
pub mod SignaturePolicy
pub mod KeyLifecycle
pub mod PsbtGuard
pub mod ResourceBudget
pub mod OperationJournal
pub mod AwsKms
pub mod AddressCodec
pub mod OutputIntent
pub mod PolicyEpoch
pub mod AuthorizationLedger
pub mod EmergencyState
pub mod ApprovalQuorum

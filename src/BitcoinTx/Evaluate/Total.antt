-- ===== src/BitcoinTx/Evaluate/Total.antt =====
-- The evaluation of a transaction that parses, on its way to the report.
use sara_pro.Prelude.{
  ℕ, suc, ◌≡◌, refl, ap₂, ◌++◌, List, [], ◌∷◌, map, Bool, true, false, if◌then◌else◌, length,
  reverse, ok, >>=-eq-ok,
}
use sara_pro.Bytes.{Bytes, IsBytes, Text, CaseTables, text, text_eq, to_hex}
use sara_pro.BitcoinTx.Types.{TxOutput, BitcoinTransaction}
use sara_pro.BitcoinTx.Script.{classify_script_pubkey}
use sara_pro.QuantumPolicy.Types.{normalized_network}
use sara_pro.BitcoinTx.Serialize.{
  serialize, serialize_counted, serialize_input, serialize_output, serialize_witnesses,
  signed_bytes, int_bytes,
}
use sara_pro.BitcoinTx.Parse.{raw_bytes, parse_raw, parse_transaction}
use sara_pro.BitcoinTx.RoundTrip.Canonical.{serialize-parse_transaction}
use sara_pro.BitcoinTx.Evaluate.{
  SerializedOutputDecision, TransactionPolicyReport, decide_op_return, decide_by_policy,
  decide_serialized, decide_outputs, EvaluationArgs, any_outside, tx_hash, sha256d, report_of,
  evaluate_serialized_transaction,
}

module _ (tx : BitcoinTransaction) {version vin vout lock : Bytes} where
  without_witness :
      signed_bytes 4 tx.version ≡ ok version
      → serialize_counted serialize_input tx.inputs ≡ ok vin
      → serialize_counted serialize_output tx.outputs ≡ ok vout
      → int_bytes 4 tx.locktime ≡ ok lock
      → serialize false tx ≡ ok (version ++ (vin ++ (vout ++ lock)))
  unfolding serialize serialize_witnesses
  without_witness e1 e2 e3 e4 = rw (e1, e2, e3, e4)

-- What serializes with its witness serializes without it.
serialize_stripped :
    (tx : BitcoinTransaction) {raw : Bytes}
    → serialize true tx ≡ ok raw
    → (bs : Bytes) × (serialize false tx ≡ ok bs)
unfolding serialize
serialize_stripped tx h =
    let (version, e1, h1) = >>=-eq-ok (signed_bytes 4 tx.version) _ h in
    let (vin, e2, h2) = >>=-eq-ok (serialize_counted serialize_input tx.inputs) _ h1 in
    let (vout, e3, h3) = >>=-eq-ok (serialize_counted serialize_output tx.outputs) _ h2 in
    let (wit, e4, h4) = >>=-eq-ok (serialize_witnesses tx.segwit tx.inputs) _ h3 in
    let (lock, e5, h5) = >>=-eq-ok (int_bytes 4 tx.locktime) _ h4 in
    (version ++ (vin ++ (vout ++ lock)), without_witness tx e1 e2 e3 e5)

hashed :
    (sha256 : Bytes → Bytes) (tx : BitcoinTransaction) (b : Bool) {bs : Bytes}
    → serialize b tx ≡ ok bs
    → tx_hash sha256 tx b ≡ ok (to_hex (reverse (sha256d sha256 bs)))
unfolding tx_hash
hashed sha256 tx b e = rw e

-- The output that a decision is on.
abbrev pub described : SerializedOutputDecision → ℕ × Text
described d = (d.value_sat, d.script_pubkey_hex)

module _ (tables : CaseTables) (sha256 : Bytes → Bytes) (args : EvaluationArgs) where
  reported :
      (raw : Bytes) (tx : BitcoinTransaction) (txid wtxid : Text)
      → parse_transaction raw ≡ ok tx
      → any_outside (length tx.outputs) args.pq_recovery_output_indexes ≡ false
      → tx_hash sha256 tx false ≡ ok txid
      → tx_hash sha256 tx true ≡ ok wtxid
      → evaluate_serialized_transaction tables sha256 (raw_bytes raw) args
        ≡ ok (report_of tables sha256 args tx txid wtxid)
  unfolding evaluate_serialized_transaction parse_raw
  reported raw tx txid wtxid parsed inside e1 e2 = rw (parsed, inside, e1, e2)

  decided :
      (index : ℕ) (o : TxOutput)
      → described (decide_serialized tables args index o) ≡ (o.value_sat, to_hex o.script_pubkey)
  unfolding decide_serialized decide_op_return decide_by_policy
  decided index o = by_type (text_eq (classify_script_pubkey o.script_pubkey) (text "OP_RETURN"))
    where
      by_type :
          (b : Bool)
          → described (
              if b
              then decide_op_return tables args index o
              else decide_by_policy tables args index o)
            ≡ (o.value_sat, to_hex o.script_pubkey)
      by_type true = refl
      by_type false = refl

  all_decided :
      (index : ℕ) (os : List TxOutput)
      → map described (decide_outputs tables args index os)
        ≡ map (λ o. (o.value_sat, to_hex o.script_pubkey)) os
  unfolding decide_outputs
  all_decided index [] = refl
  all_decided index (o ∷ os) = ap₂ (λ x xs. x ∷ xs) (decided index o) (all_decided (suc index) os)

  -- What the report is about: the hashes of the transaction, and its outputs in order.
  pub record Reports (tx : BitcoinTransaction) (raw bs : Bytes) (r : TransactionPolicyReport)
      : Type 0 where
    pub txid_is : r.txid ≡ to_hex (reverse (sha256d sha256 bs))
    pub wtxid_is : r.wtxid ≡ to_hex (reverse (sha256d sha256 raw))
    pub network_is : r.network ≡ normalized_network tables args.network
    pub state_is : r.policy_state ≡ args.policy_state
    pub outputs_are :
        map described r.output_decisions
        ≡ map (λ o. (o.value_sat, to_hex o.script_pubkey)) tx.outputs

  report-Reports :
      (tx : BitcoinTransaction) (raw bs : Bytes)
      → Reports tx raw bs (
          report_of tables sha256 args tx
            (to_hex (reverse (sha256d sha256 bs)))
            (to_hex (reverse (sha256d sha256 raw))))
  unfolding report_of
  report-Reports tx raw bs = record {
    txid_is = refl;
    wtxid_is = refl;
    network_is = refl;
    state_is = refl;
    outputs_are = all_decided 0 tx.outputs;
  }

  -- If the bytes parse and no recovery index is outside the outputs, there is a report: the double
  -- SHA-256 of the bytes without their witness gives its txid, and that of the bytes as they came its
  -- wtxid, both reversed; and it has a decision on each output in order, with its value and script.
  pub evaluate_serialized_transaction_total :
      (raw : Bytes) (tx : BitcoinTransaction)
      → IsBytes raw
      → parse_transaction raw ≡ ok tx
      → any_outside (length tx.outputs) args.pq_recovery_output_indexes ≡ false
      → (bs : Bytes) × (r : TransactionPolicyReport) × (serialize false tx ≡ ok bs)
        × (evaluate_serialized_transaction tables sha256 (raw_bytes raw) args ≡ ok r)
        × Reports tx raw bs r
  evaluate_serialized_transaction_total raw tx bytes parsed inside =
      let (whole, _) = serialize-parse_transaction raw tx bytes parsed in
      let (bs, stripped) = serialize_stripped tx whole in
      (
        bs,
        report_of tables sha256 args tx (to_hex (reverse (sha256d sha256 bs)))
            (to_hex (reverse (sha256d sha256 raw))),
        stripped,
        reported raw tx _ _ parsed inside (hashed sha256 tx false stripped)
            (hashed sha256 tx true whole),
        report-Reports tx raw bs,
      )

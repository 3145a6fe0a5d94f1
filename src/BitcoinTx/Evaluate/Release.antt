-- ===== src/BitcoinTx/Evaluate/Release.antt =====
-- When `evaluate_serialized_transaction` lets a transaction pass.
use sara_pro.Prelude.{
  ℕ, suc, ◌≤◌, ◌≡◌, refl, ◌↔◌, inl, inr, subst, List, [], ◌∷◌, Bool, true, false, ◌&&◌, ◌||◌, not,
  arith, length, All, if◌then◌else◌, Bool-cases, ok, >>=-eq-ok, >>-eq-ok, ok-injective,
}
use sara_pro.Bytes.{Bytes, IsBytes, Text, CaseTables, text, text_eq, is_empty}
use sara_pro.BitcoinTx.Types.{TxInput, TxOutput, BitcoinTransaction}
use sara_pro.BitcoinTx.Parse.{RawTx, raw_bytes, parse_raw}
use sara_pro.BitcoinTx.Script.{classify_script_pubkey}
use sara_pro.BitcoinTx.RoundTrip.Canonical.{serialize-parse_transaction}
use sara_pro.BitcoinTx.Evaluate.{
  EvaluationArgs, TransactionPolicyReport, is_signed, any_input, all_allowed, any_outside, tx_hash,
  decide_op_return, decide_by_policy, decide_serialized, decide_outputs, index_in, report_of,
  evaluate_serialized_transaction,
}
use sara_pro.QuantumPolicy.Types.{ProposedOutput, normalized_network}
use sara_pro.QuantumPolicy.Outputs.{is_mainnet}
use sara_pro.QuantumPolicy.Decision.{Releasable, evaluate_new_output_iff, mainnet-not_test}

-- Neither signed nor witnessed.
pub record IsUnsigned (t : TxInput) : Type 0 where
  pub script : t.script_sig ≡ []
  pub witness : t.witness ≡ []

module _ (tables : CaseTables) (args : EvaluationArgs) where
  abbrev pub proposed : ℕ → TxOutput → ProposedOutput
  proposed index o = record {
    network = args.network;
    script_type = classify_script_pubkey o.script_pubkey;
    address_reused = false;
    has_pq_recovery_path = index_in index args.pq_recovery_output_indexes;
  }

  -- An OP_RETURN output needs the opt-in, no value and a network that is not a mainnet; any other
  -- output needs the policy for new outputs.
  abbrev pub Accepted : ℕ → TxOutput → Type 0
  Accepted index o =
      if text_eq (classify_script_pubkey o.script_pubkey) (text "OP_RETURN")
      then (args.allow_zero_value_op_return ≡ true)
        × (o.value_sat ≡ 0)
        × (is_mainnet (normalized_network tables args.network) ≡ false)
      else Releasable tables (proposed index o) args.policy_state

  abbrev pub AllAccepted : ℕ → List TxOutput → Type 0
  AllAccepted index [] = Unit
  AllAccepted index (o ∷ l) = Accepted index o × AllAccepted (suc index) l

  op_return_iff :
      (index : ℕ) (o : TxOutput)
      → ((decide_op_return tables args index o).allowed ≡ true) ↔ (
          (args.allow_zero_value_op_return ≡ true)
          × (o.value_sat ≡ 0)
          × (is_mainnet (normalized_network tables args.network) ≡ false))
  unfolding decide_op_return
  op_return_iff index o = (λ h. ground arith, λ h. ground arith)

  decide_iff :
      (index : ℕ) (o : TxOutput)
      → ((decide_serialized tables args index o).allowed ≡ true) ↔ Accepted index o
  unfolding decide_serialized decide_by_policy
  decide_iff index o =
      elim (Bool-cases (text_eq (classify_script_pubkey o.script_pubkey) (text "OP_RETURN"))) [
        | inl e ↦ rw e (op_return_iff index o)
        | inr e ↦ rw e (evaluate_new_output_iff tables (proposed index o) args.policy_state)
      ]

  outputs_iff :
      (index : ℕ) (l : List TxOutput)
      → (all_allowed (decide_outputs tables args index l) ≡ true) ↔ AllAccepted index l
  unfolding all_allowed decide_outputs
  outputs_iff index [] = (λ h. tt, λ h. refl)
  outputs_iff index (o ∷ l) =
      let (first, first') = decide_iff index o in
      let (others, others') = outputs_iff (suc index) l in
      (
        λ h. (first (both_true h).0, others (both_true h).1),
        λ h. two_true (first' h.0) (others' h.1),
      )
    where
      both_true : {a b : Bool} → (a && b) ≡ true → (a ≡ true) × (b ≡ true)
      both_true h = ground arith

      two_true : {a b : Bool} → a ≡ true → b ≡ true → (a && b) ≡ true
      two_true h k = ground arith

is_empty→nil : {A : Type 0} (l : List A) → is_empty l ≡ true → l ≡ []
is_empty→nil [] h = refl
is_empty→nil (a ∷ l) h = cc

input_iff : (t : TxInput) → (is_signed t ≡ false) ↔ IsUnsigned t
input_iff t = (
  λ h.
      let (script, witness) = neither h in
      record {
        script = is_empty→nil t.script_sig script;
        witness = is_empty→nil t.witness witness;
      },
  λ u. rw (u.script, u.witness),
)
  where
    neither : {a b : Bool} → (not a || not b) ≡ false → (a ≡ true) × (b ≡ true)
    neither h = ground arith

inputs_iff : (l : List TxInput) → (any_input is_signed l ≡ false) ↔ All IsUnsigned l
unfolding any_input
inputs_iff [] = (λ h. tt, λ h. refl)
inputs_iff (t ∷ l) =
    let (first, first') = input_iff t in
    let (others, others') = inputs_iff l in
    (
      λ h. (first (both_false h).0, others (both_false h).1),
      λ h. two_false (first' h.0) (others' h.1),
    )
  where
    both_false : {a b : Bool} → (a || b) ≡ false → (a ≡ false) × (b ≡ false)
    both_false h = ground arith

    two_false : {a b : Bool} → a ≡ false → b ≡ false → (a || b) ≡ false
    two_false h k = ground arith

module _ (tables : CaseTables) (sha256 : Bytes → Bytes) (args : EvaluationArgs) where
  abbrev pub Released : BitcoinTransaction → Type 0
  Released tx = AllAccepted tables args 0 tx.outputs × All IsUnsigned tx.inputs

  report_iff :
      (tx : BitcoinTransaction) (txid wtxid : Text)
      → ((report_of tables sha256 args tx txid wtxid).allowed ≡ true) ↔ Released tx
  unfolding report_of
  report_iff tx txid wtxid =
      let (outs, outs') = outputs_iff tables args 0 tx.outputs in
      let (ins, ins') = inputs_iff tx.inputs in
      (λ h. (outs (pass h).0, ins (pass h).1), λ h. passed (outs' h.0) (ins' h.1))
    where
      pass : {a b : Bool} → (a && not b) ≡ true → (a ≡ true) × (b ≡ false)
      pass h = ground arith

      passed : {a b : Bool} → a ≡ true → b ≡ false → (a && not b) ≡ true
      passed h k = ground arith

  -- A report comes from a transaction that the raw argument parses to, and it allows the transaction
  -- exactly when every output is accepted (an OP_RETURN by the explicit opt-in, without value and off
  -- the mainnets, any other output by the policy for new outputs at its index) and every input has
  -- neither a scriptSig nor a witness.
  pub evaluate_serialized_transaction_iff :
      (raw : RawTx) (report : TransactionPolicyReport)
      → evaluate_serialized_transaction tables sha256 raw args ≡ ok report
      → (tx : BitcoinTransaction) × (parse_raw raw ≡ ok tx)
        × ((report.allowed ≡ true) ↔ Released tx)
  unfolding evaluate_serialized_transaction
  evaluate_serialized_transaction_iff raw report h =
      let (tx, e, h1) = >>=-eq-ok (parse_raw raw) _ h in
      let (inside, h2) =
        >>-eq-ok (any_outside (length tx.outputs) args.pq_recovery_output_indexes) _ _ h1 in
      let (txid, e1, h3) = >>=-eq-ok (tx_hash sha256 tx false) _ h2 in
      let (wtxid, e2, h4) = >>=-eq-ok (tx_hash sha256 tx true) _ h3 in
      (
        tx,
        e,
        subst (λ (r : TransactionPolicyReport). (r.allowed ≡ true) ↔ Released tx) (ok-injective h4)
            (report_iff tx txid wtxid),
      )

  mainnet_accepts_nothing :
      (index : ℕ) (o : TxOutput)
      → is_mainnet (normalized_network tables args.network) ≡ true
      → ¬ Accepted tables args index o
  mainnet_accepts_nothing index o main h =
      let closed = mainnet-not_test (normalized_network tables args.network) main in
      elim (Bool-cases (text_eq (classify_script_pubkey o.script_pubkey) (text "OP_RETURN"))) [
        | inl e ↦ absurd (cc (main, (rw e at h).2))
        | inr e ↦ absurd (cc (closed, (rw e at h).0))
      ]

  no_outputs :
      (l : List TxOutput)
      → 1 ≤ length l
      → is_mainnet (normalized_network tables args.network) ≡ true
      → ¬ AllAccepted tables args 0 l
  no_outputs [] some_outputs main h = absurd (omega arith)
  no_outputs (o ∷ l) some_outputs main h = mainnet_accepts_nothing 0 o main h.0

  -- On a mainnet, whatever the policy state, the opt-in and the recovery indexes, no transaction that is
  -- evaluated from its bytes is allowed.
  pub evaluate_serialized_transaction-mainnet :
      (raw : Bytes) (report : TransactionPolicyReport)
      → IsBytes raw
      → is_mainnet (normalized_network tables args.network) ≡ true
      → evaluate_serialized_transaction tables sha256 (raw_bytes raw) args ≡ ok report
      → report.allowed ≡ false
  unfolding parse_raw
  evaluate_serialized_transaction-mainnet raw report bytes main h =
      let (tx, parsed, both) = evaluate_serialized_transaction_iff (raw_bytes raw) report h in
      let (_, good) = serialize-parse_transaction raw tx bytes parsed in
      elim (Bool-cases report.allowed) [
        | inl yes_allowed ↦
            absurd (no_outputs tx.outputs good.output_count.some_items main (both.0 yes_allowed).0)
        | inr refused ↦ refused
      ]

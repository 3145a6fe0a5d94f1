-- ===== src/BitcoinTx/Evaluate.antt =====
-- `evaluate_serialized_transaction`: the output policy on the bytes of a transaction. SHA-256 is a
-- parameter, as are Python's Unicode case tables.
pub mod Release
pub mod Total
use sara_pro.Prelude.{
  ℕ, suc, ◌+◌, List, [], ◌∷◌, ◌++◌, reverse, Bool, true, false, ◌&&◌, ◌||◌, not, length, leb, ◌==◌,
  if◌then◌else◌, Result, ok, err, ◌>>=◌, ◌>>◌, raise_if,
}
use sara_pro.Prelude.Int.{ℤ, pos, negsuc}
use sara_pro.Bytes.{Bytes, Text, CaseTables, text, text_eq, to_hex, decimal, join, is_empty}
use sara_pro.BitcoinTx.Types.{TxError, TxInput, TxOutput, BitcoinTransaction, pq_index_out_of_range}
use sara_pro.BitcoinTx.Serialize.{serialize}
use sara_pro.BitcoinTx.Parse.{RawTx, parse_raw}
use sara_pro.BitcoinTx.Script.{classify_script_pubkey}
use sara_pro.QuantumPolicy.Types.{CryptoPolicyState, normalized_network}
use sara_pro.QuantumPolicy.Outputs.{is_mainnet, evaluate_new_output}

pub record SerializedOutputDecision : Type 0 where
  pub index : ℕ
  pub value_sat : ℕ
  pub script_pubkey_hex : Text
  pub script_type : Text
  pub allowed : Bool
  pub reasons : List Text
  pub required_controls : List Text

pub record TransactionPolicyReport : Type 0 where
  pub txid : Text
  pub wtxid : Text
  pub network : Text
  pub policy_state : CryptoPolicyState
  pub allowed : Bool
  pub output_decisions : List SerializedOutputDecision
  pub reasons : List Text

-- The arguments behind `raw`.
pub record EvaluationArgs : Type 0 where
  pub network : Text
  pub policy_state : CryptoPolicyState
  pub pq_recovery_output_indexes : List ℤ
  pub allow_zero_value_op_return : Bool

-- `i < 0 or i >= n`
abbrev pub is_outside : ℕ → ℤ → Bool
is_outside n (pos i) = leb n i
is_outside n (negsuc i) = true

unfoldable pub any_outside : ℕ → List ℤ → Bool
any_outside n [] = false
any_outside n (i ∷ l) = is_outside n i || any_outside n l

abbrev pub is_index : ℕ → ℤ → Bool
is_index n (pos i) = i == n
is_index n (negsuc i) = false

-- `index in pq_indexes`
unfoldable pub index_in : ℕ → List ℤ → Bool
index_in n [] = false
index_in n (i ∷ l) = is_index n i || index_in n l

-- Whether an input has a scriptSig or a witness.
abbrev pub is_signed : TxInput → Bool
is_signed txin = not (is_empty txin.script_sig) || not (is_empty txin.witness)

unfoldable pub any_input : (TxInput → Bool) → List TxInput → Bool
any_input test [] = false
any_input test (t ∷ l) = test t || any_input test l

unfoldable pub all_allowed : List SerializedOutputDecision → Bool
all_allowed [] = true
all_allowed (d ∷ l) = d.allowed && all_allowed l

module _ (sha256 : Bytes → Bytes) where
  unfoldable pub sha256d : Bytes → Bytes
  sha256d bs = sha256 (sha256 bs)

  -- `txid` for `false`, `wtxid` for `true`
  unfoldable pub tx_hash : BitcoinTransaction → Bool → Result TxError Text
  tx_hash tx include_witness = do
    bs ← serialize include_witness tx
    ok (to_hex (reverse (sha256d bs)))

module _ (tables : CaseTables) (args : EvaluationArgs) where
  -- The body of the loop over the outputs.
  unfoldable pub decide_op_return : ℕ → TxOutput → SerializedOutputDecision
  decide_op_return index o =
      let allowed =
        args.allow_zero_value_op_return
        && (o.value_sat == 0 && not (is_mainnet (normalized_network tables args.network))) in
      record {
        index = index;
        value_sat = o.value_sat;
        script_pubkey_hex = to_hex o.script_pubkey;
        script_type = classify_script_pubkey o.script_pubkey;
        allowed = allowed;
        reasons =
            (if allowed
              then text "zero-value OP_RETURN explicitly allowed by local non-mainnet policy"
              else text "OP_RETURN denied by default custody-migration policy")
            ∷ [];
        required_controls = text "EXPLICIT_DATA_CARRIER_OPT_IN" ∷ [];
      }

  unfoldable pub decide_by_policy : ℕ → TxOutput → SerializedOutputDecision
  decide_by_policy index o =
      let script_type = classify_script_pubkey o.script_pubkey in
      let d =
        evaluate_new_output tables
          (record {
            network = args.network;
            script_type = script_type;
            address_reused = false;
            has_pq_recovery_path = index_in index args.pq_recovery_output_indexes;
          })
          args.policy_state in
      record {
        index = index;
        value_sat = o.value_sat;
        script_pubkey_hex = to_hex o.script_pubkey;
        script_type = script_type;
        allowed = d.allowed;
        reasons = d.reasons;
        required_controls = d.required_controls;
      }

  unfoldable pub decide_serialized : ℕ → TxOutput → SerializedOutputDecision
  decide_serialized index o =
      if text_eq (classify_script_pubkey o.script_pubkey) (text "OP_RETURN")
      then decide_op_return index o
      else decide_by_policy index o

  unfoldable pub decide_outputs : ℕ → List TxOutput → List SerializedOutputDecision
  decide_outputs index [] = []
  decide_outputs index (o ∷ l) = decide_serialized index o ∷ decide_outputs (suc index) l

-- The message for each decision that is not `ok`.
unfoldable pub rejections : List SerializedOutputDecision → List Text
rejections [] = []
rejections (d ∷ l) =
    let rest = rejections l in
    if d.allowed
    then rest
    else (text "output["
        ++ (decimal d.index ++ (text "] rejected: " ++ join (text "; ") d.reasons)))
      ∷ rest

unfoldable pub unsigned_reasons : List TxInput → List Text
unsigned_reasons inputs =
    (if any_input (λ t. not (is_empty t.script_sig)) inputs
      then text "transaction is not unsigned: at least one scriptSig is populated" ∷ []
      else [])
    ++ (if any_input (λ t. not (is_empty t.witness)) inputs
        then text "transaction is not unsigned: at least one witness stack is populated" ∷ []
        else [])

module _ (tables : CaseTables) (sha256 : Bytes → Bytes) where
  unfoldable pub report_of :
      EvaluationArgs → BitcoinTransaction → Text → Text → TransactionPolicyReport
  report_of args tx txid wtxid =
      let decisions = decide_outputs tables args 0 tx.outputs in
      let allowed = all_allowed decisions && not (any_input is_signed tx.inputs) in
      record {
        txid = txid;
        wtxid = wtxid;
        network = normalized_network tables args.network;
        policy_state = args.policy_state;
        allowed = allowed;
        output_decisions = decisions;
        reasons =
            rejections decisions
            ++ (unsigned_reasons tx.inputs
                ++ (if allowed
                    then text "actual transaction bytes pass local pre-sign output policy" ∷ []
                    else []));
      }

  unfoldable pub evaluate_serialized_transaction :
      RawTx → EvaluationArgs → Result TxError TransactionPolicyReport
  evaluate_serialized_transaction raw args = do
    tx ← parse_raw raw
    raise_if (any_outside (length tx.outputs) args.pq_recovery_output_indexes) pq_index_out_of_range
    txid ← tx_hash sha256 tx false
    wtxid ← tx_hash sha256 tx true
    ok (report_of args tx txid wtxid)

-- ===== src/QuantumPolicy/Outputs.antt =====
-- `evaluate_new_output`.
use sara_pro.Prelude.{List, [], ◌∷◌, ◌++◌, Bool, false, ◌&&◌, ◌||◌, not, if◌then◌else◌}
use sara_pro.Bytes.{Text, CaseTables, text, text_eq, text_in, from_keys, is_empty}
use sara_pro.QuantumPolicy.Types.{
  CryptoPolicyState, ecdsa_allowed, hybrid_required, pq_required, classical_rejected,
  ProposedOutput, OutputPolicyDecision, is_always_exposed, is_hash_hidden, is_p2mr,
  normalized_script_type, normalized_network,
}
use sara_pro.QuantumPolicy.Assess.{when}

abbrev pub mainnets : List Text
mainnets = text "MAINNET" ∷ text "BITCOIN_MAINNET" ∷ text "BTC_MAINNET" ∷ []

abbrev pub test_networks : List Text
test_networks = text "SIGNET" ∷ text "TESTNET4" ∷ text "REGTEST" ∷ []

unfoldable pub is_mainnet : Text → Bool
is_mainnet network = text_in network mainnets

unfoldable pub is_test_network : Text → Bool
is_test_network network = text_in network test_networks

-- What is in `reasons` and `controls` before the policy state is looked at.
unfoldable pub first_reasons : Text → Bool → List Text
first_reasons script reused =
    when reused (text "address reuse is forbidden by local quantum-hardening policy" ∷ [])
    ++ (when (is_always_exposed script) (
          (script ++ text " is long-exposure vulnerable under the current BIP-360 threat model")
          ∷ [])
        ++ when (is_p2mr script) (
            text
              "P2MR is draft/not activated and may only be exercised in isolated experimental code"
            ∷ []))

unfoldable pub first_controls : Text → Bool → List Text
first_controls script reused =
    when reused (text "NEW_DESTINATION_REQUIRED" ∷ [])
    ++ (when (is_always_exposed script) (text "AVOID_LONG_EXPOSURE_OUTPUT" ∷ [])
        ++ when (is_p2mr script) (text "CONSENSUS_FEATURE_NOT_ACTIVE" ∷ []))

-- The chain on the policy state: `allowed`, and what it adds to `reasons` and `controls`.
unfoldable pub state_allows : CryptoPolicyState → Text → Bool → Bool → Bool
state_allows ecdsa_allowed script reused pq = not reused && not (is_p2mr script)
state_allows hybrid_required script reused pq = not reused && (is_hash_hidden script && pq)
state_allows pq_required script reused pq = false
state_allows classical_rejected script reused pq = false

unfoldable pub state_reasons : CryptoPolicyState → Text → Bool → List Text
state_reasons ecdsa_allowed script pq = []
state_reasons hybrid_required script pq =
    when (not pq)
      (text "HYBRID_REQUIRED state requires a PQ-bound recovery/authorization path" ∷ [])
    ++ when (is_always_exposed script)
        (text "HYBRID_REQUIRED blocks creation of new long-exposure outputs" ∷ [])
state_reasons pq_required script pq =
    text "PQ_REQUIRED cannot be satisfied by currently activated Bitcoin signature/output types"
    ∷ []
state_reasons classical_rejected script pq =
    text "classical-only Bitcoin release is disabled in CLASSICAL_REJECTED state" ∷ []

unfoldable pub state_controls : CryptoPolicyState → List Text
state_controls ecdsa_allowed = []
state_controls hybrid_required = text "PQ_RELEASE_ATTESTATION_REQUIRED" ∷ []
state_controls pq_required =
    text "PQ_CONSENSUS_PATH_REQUIRED" ∷ text "NO_CURRENT_ACTIVATED_BITCOIN_PQ_OUTPUT" ∷ []
state_controls classical_rejected =
    text "CLASSICAL_ONLY_RELEASE_REJECTED" ∷ text "RESCUE_OR_PQ_PATH_REQUIRED" ∷ []

unfoldable pub is_unknown_script : Text → Bool
is_unknown_script script =
    not (is_always_exposed script || (is_hash_hidden script || is_p2mr script))

abbrev pub blocked : CryptoPolicyState → Text → Text → OutputPolicyDecision
blocked state reason control = record {
  allowed = false;
  policy_state = state;
  reasons = reason ∷ [];
  required_controls = control ∷ [];
}

-- The values of `allowed`, `reasons` and `controls` behind the last test of the script type.
unfoldable pub output_allowed : CryptoPolicyState → Text → Bool → Bool → Bool
output_allowed state script reused pq =
    state_allows state script reused pq && not (is_unknown_script script)

unfoldable pub output_reasons : CryptoPolicyState → Text → Bool → Bool → List Text
output_reasons state script reused pq =
    first_reasons script reused
    ++ (state_reasons state script pq
        ++ when (is_unknown_script script) (text "unknown script type fails closed" ∷ []))

unfoldable pub output_controls : CryptoPolicyState → Text → Bool → List Text
output_controls state script reused =
    first_controls script reused
    ++ (state_controls state
        ++ when (is_unknown_script script) (text "CLASSIFY_SCRIPT_BEFORE_USE" ∷ []))

-- `if not reasons and allowed: reasons.append(...)`
unfoldable pub with_pass_message : Bool → List Text → List Text
with_pass_message allowed reasons =
    if is_empty reasons && allowed
    then reasons ++ text "output passes current local pre-sign policy" ∷ []
    else reasons

-- The decision for an output on a network that is allowed at all.
unfoldable pub decide_output : CryptoPolicyState → Text → Bool → Bool → OutputPolicyDecision
decide_output state script reused pq =
    let allowed = output_allowed state script reused pq in
    record {
      allowed = allowed;
      policy_state = state;
      reasons =
          from_keys text_eq (with_pass_message allowed (output_reasons state script reused pq));
      required_controls = from_keys text_eq (output_controls state script reused);
    }

module _ (tables : CaseTables) where
  unfoldable pub evaluate_new_output : ProposedOutput → CryptoPolicyState → OutputPolicyDecision
  evaluate_new_output output state =
      let network = normalized_network tables output.network in
      let script = normalized_script_type tables output.script_type in
      if is_mainnet network
      then blocked state (text "this candidate has no Bitcoin mainnet authority")
          (text "USE_OFFLINE_OR_PUBLIC_TESTNET_ONLY")
      else if not (is_test_network network)
      then blocked state (text "network is not explicitly allowed by the candidate")
          (text "FAIL_CLOSED_UNKNOWN_NETWORK")
      else decide_output state script output.address_reused output.has_pq_recovery_path

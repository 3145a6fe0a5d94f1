-- ===== src/QuantumPolicy/Types.antt =====
-- The enums and dataclasses of bitcoin_quantum_policy.py.
use sara_pro.Prelude.{ℕ, List, [], ◌∷◌, Bool}
use sara_pro.Prelude.Int.{ℤ}
use sara_pro.Bytes.{Text, CaseTables, text, text_in, strip, upper, remove_char}

pub data ExposureClass : Type 0 where
  exposed_long hidden_until_spend conditional_reuse_exposure : ExposureClass
  proposed_long_exposure_resistant unknown : ExposureClass

pub data CryptoPolicyState : Type 0 where
  ecdsa_allowed hybrid_required pq_required classical_rejected : CryptoPolicyState

-- A BitcoinQuantumPolicyError.
pub data PolicyError : Type 0 where
  txid_not_hex negative_vout_or_amount : PolicyError

pub record UtxoRecord : Type 0 where
  pub txid : Text
  pub vout : ℤ
  pub amount_sat : ℤ
  pub script_type : Text
  pub address_reused : Bool
  pub public_key_known_exposed : Bool
  pub wallet_label : Text
  pub timelocked : Bool

-- `assess_utxo` has refused negative numbers.
pub record UtxoAssessment : Type 0 where
  pub txid : Text
  pub vout : ℕ
  pub amount_sat : ℕ
  pub script_type : Text
  pub exposure : ExposureClass
  pub priority : ℕ
  pub reasons : List Text
  pub actions : List Text
  pub consensus_feature_required : Bool

pub record ProposedOutput : Type 0 where
  pub network : Text
  pub script_type : Text
  pub address_reused : Bool
  pub has_pq_recovery_path : Bool

pub record OutputPolicyDecision : Type 0 where
  pub allowed : Bool
  pub policy_state : CryptoPolicyState
  pub reasons : List Text
  pub required_controls : List Text

abbrev pub always_long_exposed : List Text
always_long_exposed = text "P2PK" ∷ text "P2MS" ∷ text "P2TR" ∷ []

abbrev pub hash_hidden_until_spend : List Text
hash_hidden_until_spend = text "P2PKH" ∷ text "P2SH" ∷ text "P2WPKH" ∷ text "P2WSH" ∷ []

abbrev pub proposed_p2mr : List Text
proposed_p2mr = text "P2MR" ∷ []

-- Membership in the three sets.
unfoldable pub is_always_exposed : Text → Bool
is_always_exposed script = text_in script always_long_exposed

unfoldable pub is_hash_hidden : Text → Bool
is_hash_hidden script = text_in script hash_hidden_until_spend

unfoldable pub is_p2mr : Text → Bool
is_p2mr script = text_in script proposed_p2mr

module _ (tables : CaseTables) where
  -- `_normalized_script_type`
  unfoldable pub normalized_script_type : Text → Text
  normalized_script_type value = remove_char 45 (upper tables (strip value))

  -- `network.strip().upper()`
  unfoldable pub normalized_network : Text → Text
  normalized_network value = upper tables (strip value)

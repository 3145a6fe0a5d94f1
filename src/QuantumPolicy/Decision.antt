-- ===== src/QuantumPolicy/Decision.antt =====
-- When `evaluate_new_output` allows an output, and how its answer depends on the policy state.
use sara_pro.Prelude.{◌≤◌, ◌≡◌, ◌≢◌, refl, ◌↔◌, ◌⊎◌, inr, List, [], ◌∷◌, Bool, true, false, arith}
use sara_pro.Bytes.{Text, CaseTables, text_eq, text_in, text_in-All, from_keys, contains, is_empty}
use sara_pro.QuantumPolicy.Types.{
  CryptoPolicyState, ecdsa_allowed, hybrid_required, pq_required, classical_rejected,
  ProposedOutput, is_always_exposed, is_hash_hidden, is_p2mr, proposed_p2mr, normalized_script_type,
  normalized_network,
}
use sara_pro.PolicyEpoch.Order.{order}
use sara_pro.QuantumPolicy.Outputs.{
  mainnets, is_mainnet, is_test_network, state_allows, state_reasons, output_allowed,
  output_reasons, with_pass_message, first_reasons, is_unknown_script, decide_output,
  evaluate_new_output,
}

-- No test network is a mainnet name.
pub mainnet-not_test : (n : Text) → is_mainnet n ≡ true → is_test_network n ≡ false
unfolding is_mainnet is_test_network text_in text_eq
mainnet-not_test n h =
    text_in-All (λ s. is_test_network s ≡ false) n mainnets (refl, (refl, (refl, tt))) h

-- P2MR is in neither of the other two sets.
p2mr-others :
    (s : Text) → is_p2mr s ≡ true → (is_always_exposed s ≡ false) × (is_hash_hidden s ≡ false)
unfolding is_p2mr is_always_exposed is_hash_hidden text_in text_eq
p2mr-others s h =
    text_in-All (λ s. (is_always_exposed s ≡ false) × (is_hash_hidden s ≡ false)) s proposed_p2mr
      ((refl, refl), tt) h

-- What each policy state asks of an output with a fresh address.
abbrev pub StateAccepts : CryptoPolicyState → Text → Bool → Type 0
StateAccepts ecdsa_allowed script pq =
    (is_always_exposed script ≡ true) ⊎ (is_hash_hidden script ≡ true)
StateAccepts hybrid_required script pq = (is_hash_hidden script ≡ true) × (pq ≡ true)
StateAccepts pq_required script pq = ⊥
StateAccepts classical_rejected script pq = ⊥

module _ (script : Text) (reused pq : Bool) where
  abbrev Passes : CryptoPolicyState → Type 0
  Passes state = (reused ≡ false) × StateAccepts state script pq

  decide_iff :
      (state : CryptoPolicyState)
      → ((decide_output state script reused pq).allowed ≡ true) ↔ Passes state
  unfolding decide_output output_allowed state_allows is_unknown_script
  decide_iff ecdsa_allowed = (λ h. ground arith, λ h. ground (arith, p2mr-others script))
  decide_iff hybrid_required = (λ h. ground arith, λ h. ground arith)
  decide_iff pq_required = (λ h. ground arith, λ h. ground arith)
  decide_iff classical_rejected = (λ h. ground arith, λ h. ground arith)

accepts_mono :
    (weak strict : CryptoPolicyState) (script : Text) (pq : Bool)
    → order weak ≤ order strict
    → StateAccepts strict script pq
    → StateAccepts weak script pq
unfolding order
accepts_mono ecdsa_allowed ecdsa_allowed s pq le h = h
accepts_mono ecdsa_allowed hybrid_required s pq le h = inr h.0
accepts_mono hybrid_required ecdsa_allowed s pq le h = absurd (omega arith)
accepts_mono hybrid_required hybrid_required s pq le h = h
accepts_mono pq_required ecdsa_allowed s pq le h = absurd (omega arith)
accepts_mono pq_required hybrid_required s pq le h = absurd (omega arith)
accepts_mono classical_rejected ecdsa_allowed s pq le h = absurd (omega arith)
accepts_mono classical_rejected hybrid_required s pq le h = absurd (omega arith)
accepts_mono w pq_required s pq le h = absurd h
accepts_mono w classical_rejected s pq le h = absurd h

from_keys-ne_nil : (a : Text) (l : List Text) → from_keys text_eq (a ∷ l) ≢ []
unfolding from_keys contains
from_keys-ne_nil a l h = cc

from_keys-nonempty : (l : List Text) → is_empty l ≡ false → from_keys text_eq l ≢ []
from_keys-nonempty [] e h = cc
from_keys-nonempty (a ∷ l) e h = from_keys-ne_nil a l h

-- A refusal has been explained before the last test.
output_reasons-explain :
    (state : CryptoPolicyState) (script : Text) (reused pq : Bool)
    → output_allowed state script reused pq ≡ false
    → is_empty (output_reasons state script reused pq) ≡ false
unfolding output_allowed output_reasons first_reasons state_reasons state_allows is_unknown_script
output_reasons-explain ecdsa_allowed s r pq h = ground arith
output_reasons-explain hybrid_required s r pq h = ground arith
output_reasons-explain pq_required s r pq h = ground arith
output_reasons-explain classical_rejected s r pq h = ground arith

with_pass_message-filled :
    (allowed : Bool) (reasons : List Text)
    → (allowed ≡ false → is_empty reasons ≡ false)
    → is_empty (with_pass_message allowed reasons) ≡ false
unfolding with_pass_message
with_pass_message-filled true [] h = refl
with_pass_message-filled false [] h = absurd (cc (h refl))
with_pass_message-filled allowed (a ∷ l) h = refl

decide-reasons :
    (script : Text) (reused pq : Bool) (state : CryptoPolicyState)
    → (decide_output state script reused pq).reasons ≢ []
unfolding decide_output
decide-reasons script reused pq state = from_keys-nonempty _ (
    with_pass_message-filled (output_allowed state script reused pq) _
      (output_reasons-explain state script reused pq))

module _ (tables : CaseTables) (output : ProposedOutput) where
  abbrev network : Text
  network = normalized_network tables output.network

  abbrev script : Text
  script = normalized_script_type tables output.script_type

  -- An output that the policy can release.
  abbrev pub Releasable : CryptoPolicyState → Type 0
  Releasable state =
      (is_test_network network ≡ true)
      × (output.address_reused ≡ false)
      × StateAccepts state script output.has_pq_recovery_path

  -- `evaluate_new_output` allows an output exactly when its network is SIGNET, TESTNET4 or REGTEST, its
  -- address is not reused, and its script type is one that the policy state accepts: a long-exposed or
  -- hash-hidden type under ECDSA_ALLOWED, a hash-hidden type with a PQ recovery path under
  -- HYBRID_REQUIRED, and none under PQ_REQUIRED and CLASSICAL_REJECTED.
  pub evaluate_new_output_iff :
      (state : CryptoPolicyState)
      → ((evaluate_new_output tables output state).allowed ≡ true) ↔ Releasable state
  unfolding evaluate_new_output
  evaluate_new_output_iff state =
      let both = decide_iff script output.address_reused output.has_pq_recovery_path state in
      (
        λ h. ground (arith, both.0),
        λ h. ground (arith, both.1 (h.1, h.2), mainnet-not_test network),
      )

  -- The reasons of a refusal are never empty, and neither are those of a permission.
  pub evaluate_new_output-reasons :
      (state : CryptoPolicyState) → (evaluate_new_output tables output state).reasons ≢ []
  unfolding evaluate_new_output
  evaluate_new_output-reasons state h =
      ground (arith, decide-reasons script output.address_reused output.has_pq_recovery_path state)

  -- An output that a stricter state allows is allowed by every weaker one.
  pub evaluate_new_output_mono :
      (weak strict : CryptoPolicyState)
      → order weak ≤ order strict
      → (evaluate_new_output tables output strict).allowed ≡ true
      → (evaluate_new_output tables output weak).allowed ≡ true
  evaluate_new_output_mono weak strict le h =
      let (net, fresh, accepted) = (evaluate_new_output_iff strict).0 h in
      (evaluate_new_output_iff weak).1
        (net, fresh, accepts_mono weak strict script output.has_pq_recovery_path le accepted)

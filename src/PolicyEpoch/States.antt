-- ===== src/PolicyEpoch/States.antt =====
-- The values of the enum `CryptoPolicyState` as the texts that the ledger stores.
use sara_pro.Prelude.{◌≡◌, refl, Option, none, some, if◌then◌else◌}
use sara_pro.Bytes.{Text, text, text_eq}
use sara_pro.Ledger.{Json, str, null, num, other}
use sara_pro.QuantumPolicy.Types.{
  CryptoPolicyState, ecdsa_allowed, hybrid_required, pq_required, classical_rejected,
}

unfoldable pub state_text : CryptoPolicyState → Text
state_text ecdsa_allowed = text "ECDSA_ALLOWED"
state_text hybrid_required = text "HYBRID_REQUIRED"
state_text pq_required = text "PQ_REQUIRED"
state_text classical_rejected = text "CLASSICAL_REJECTED"

-- `CryptoPolicyState(t)`; `none` is a ValueError
unfoldable pub state_of_text : Text → Option CryptoPolicyState
state_of_text t =
    if text_eq t (text "ECDSA_ALLOWED")
    then some ecdsa_allowed
    else if text_eq t (text "HYBRID_REQUIRED")
    then some hybrid_required
    else if text_eq t (text "PQ_REQUIRED")
    then some pq_required
    else if text_eq t (text "CLASSICAL_REJECTED")
    then some classical_rejected
    else none

-- `CryptoPolicyState(row["policy_state"])`; `none` is a KeyError or a ValueError
unfoldable pub state_of_json : Option Json → Option CryptoPolicyState
state_of_json none = none
state_of_json (some null) = none
state_of_json (some (num n)) = none
state_of_json (some (str t)) = state_of_text t
state_of_json (some (other t)) = none

pub state_of_json-state_text :
    (s : CryptoPolicyState) → state_of_json (some (str (state_text s))) ≡ some s
unfolding state_of_json state_of_text state_text text_eq
state_of_json-state_text ecdsa_allowed = refl
state_of_json-state_text hybrid_required = refl
state_of_json-state_text pq_required = refl
state_of_json-state_text classical_rejected = refl

-- ===== src/PolicyEpoch/Order.antt =====
-- `_ORDER`: how strict a policy state is.
use sara_pro.Prelude.{ℕ}
use sara_pro.QuantumPolicy.Types.{
  CryptoPolicyState, ecdsa_allowed, hybrid_required, pq_required, classical_rejected,
}

unfoldable pub order : CryptoPolicyState → ℕ
order ecdsa_allowed = 0
order hybrid_required = 1
order pq_required = 2
order classical_rejected = 3

-- ===== src/QuantumPolicy.antt =====
-- bitcoin_quantum_policy.py: exposure classes, migration priorities and the policy for new outputs.
pub mod Types
pub mod Assess
pub mod Outputs
pub mod Decision
pub mod Priority
pub mod Manifest

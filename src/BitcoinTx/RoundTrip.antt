-- ===== src/BitcoinTx/RoundTrip.antt =====
-- The parser of bitcoin_tx.py against its serializer.
pub mod Codec
pub mod Inputs
pub mod Outputs
pub mod Witnesses
pub mod Vectors
pub mod Canonical
pub mod Restores

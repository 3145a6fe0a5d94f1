-- ===== src/BitcoinTx.antt =====
-- bitcoin_tx.py: strict parsing, serialisation and script classification of transactions.
pub mod CompactSize
pub mod Types
pub mod Serialize
pub mod Parse
pub mod RoundTrip
pub mod Script
pub mod Evaluate

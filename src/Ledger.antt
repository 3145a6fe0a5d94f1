-- ===== src/Ledger.antt =====
-- What the hash-chained ledgers share: the JSON objects of their lines.
mod Lines
pub mod Chain
pub mod Tamper
unfoldable pub use Lines.*

-- ===== src/Bytes.antt =====
-- Python's `bytes` and `str` as the package uses them: little-endian integers and hex text.
mod Little
mod Hex
mod Strings
mod Decimal
mod Sorted
mod Dicts
mod Split
mod Base64
unfoldable pub use Little.*
unfoldable pub use Hex.*
unfoldable pub use Strings.*
unfoldable pub use Decimal.*
unfoldable pub use Sorted.*
unfoldable pub use Dicts.*
unfoldable pub use Split.*
unfoldable pub use Base64.*

-- ===== src/Text.antt =====
-- The methods of Rust's `char`, `str` and the integer types that the crates call.
pub mod Chars
pub mod Split
pub mod Lines
pub mod Number
pub mod Laws
pub mod Decimal
unfoldable pub use Chars.*
unfoldable pub use Split.*
unfoldable pub use Lines.*
unfoldable pub use Number.*

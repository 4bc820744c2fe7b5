-- ===== src/Base/Strings.antt =====
-- Go's strings as lists of bytes, with what the source uses of package `strings`.
-- Case folding and white space are those of ASCII.
mod Defs
mod Laws
mod Decimal
unfoldable pub use Defs.*
unfoldable pub use Decimal.*
pub use Laws.*

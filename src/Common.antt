-- ===== src/Common.antt =====
-- crates/common: the error type and the identifiers that every other crate uses.
mod Error
mod Ids
pub mod Metrics
unfoldable pub use Error.*
unfoldable pub use Ids.*

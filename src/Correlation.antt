-- ===== src/Correlation.antt =====
-- internal/correlation/correlation.go: which producer spans a consumer span is attributed to.
mod Compatible
mod Indexes
mod Nearest
mod Defs
pub mod Sources
pub mod Evidence
pub mod Exact
pub mod Fallback
pub mod Warrants
pub mod Counts
pub mod Counting
pub mod Listing
pub mod References
pub mod Keeps
pub mod Maps
pub mod Returns
pub mod Total
unfoldable pub use Compatible.*
unfoldable pub use Indexes.*
unfoldable pub use Nearest.*
unfoldable pub use Defs.*

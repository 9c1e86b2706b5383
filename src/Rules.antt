-- ===== src/Rules.antt =====
-- internal/rules/engine.go: the scopes of rules, the semantic checks of single spans, the windows of the
-- audit, and the coverage of a batch by links.
mod Scope
mod Semantic
mod Windows
mod Batch
mod Absence
mod Topology
mod Telemetry
mod Findings
mod Edges
mod Drift
mod Summaries
mod Cases
mod Duplicates
mod Engine
pub mod Exclusion
pub mod Attempts
pub mod BatchBounds
pub mod Watermarks
pub mod Orphans
pub mod Matching
pub mod Completeness
pub mod InRange
pub mod Total
pub mod Observed
pub mod EdgeCounts
pub mod EdgeFiling
pub mod EdgeGroups
pub mod Caution
pub mod Doubt
pub mod Redelivery
pub mod Tallies
pub mod Deliveries
unfoldable pub use Scope.*
unfoldable pub use Semantic.*
unfoldable pub use Windows.*
unfoldable pub use Batch.*
unfoldable pub use Absence.*
unfoldable pub use Topology.*
unfoldable pub use Telemetry.*
unfoldable pub use Findings.*
unfoldable pub use Edges.*
unfoldable pub use Drift.*
unfoldable pub use Summaries.*
unfoldable pub use Cases.*
unfoldable pub use Duplicates.*
unfoldable pub use Engine.*

-- ===== src/Store.antt =====
-- internal/server/store.go: the bounded store of the live receiver. `Defs` has the state and the
-- operations; the other modules prove what they promise.
mod Digest
mod Defs
pub mod Lookup
pub mod Invariant
pub mod Admission
pub mod Accounting
pub mod Metrics
pub mod Reachable
pub mod Reexport
pub mod Snapshots
unfoldable pub use Digest.*
unfoldable pub use Defs.*

-- ===== src/Service.antt =====
-- internal/server/server.go: the receiver. Its state and handlers, the bounded decompression of a request,
-- and the histories of a service.
mod Decompress
mod Observe
mod State
pub mod Inflated
pub mod Histories
pub mod Reloads
pub mod Violations
pub mod Readiness
unfoldable pub use Decompress.*
unfoldable pub use Observe.*
unfoldable pub use State.*

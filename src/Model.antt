-- ===== src/Model.antt =====
-- internal/model/model.go: attribute values, links, spans and what they answer about themselves.
-- A time.Time is the number of nanoseconds since the zero time of Go (1 January of year 1, UTC), which
-- no time that a trace carries comes before; a time.Duration is a signed 64-bit number of nanoseconds.
mod Clock
mod Attributes
mod Spans
pub mod Scan
unfoldable pub use Clock.*
unfoldable pub use Attributes.*
unfoldable pub use Spans.*

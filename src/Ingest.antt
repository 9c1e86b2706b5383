-- ===== src/Ingest.antt =====
-- internal/ingest/otlp.go: what becomes of the spans that are read from files.
mod Dedup
mod Encodings
mod Identifiers
mod Conversion
mod Reading
pub mod FirstDocument
pub mod Extent
pub mod Redaction
pub mod RoundTrip
pub mod Tracking
pub mod Distinct
unfoldable pub use Dedup.*
unfoldable pub use Encodings.*
unfoldable pub use Identifiers.*
unfoldable pub use Conversion.*
unfoldable pub use Reading.*

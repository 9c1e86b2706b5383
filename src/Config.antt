-- ===== src/Config.antt =====
-- internal/config/config.go: the configuration, as the YAML decoder has filled it, and its validation.
mod Defs
pub mod Refusals
pub mod Validity
unfoldable pub use Defs.*

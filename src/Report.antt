-- ===== src/Report.antt =====
-- internal/report/report.go: the report as a table and in Markdown.
mod Cells
mod Layout
pub mod Escapes
pub mod Widths
unfoldable pub use Cells.*
unfoldable pub use Layout.*

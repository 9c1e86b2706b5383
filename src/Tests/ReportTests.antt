-- ===== src/Tests/ReportTests.antt =====
-- The statements about the report, at texts that need escaping or do not fit.
use async_trace_doctor.Common.{◌≡◌, refl, true, false, leb, if◌then◌else◌, ◌-◌}
use async_trace_doctor.Report.{escape_markdown_cell, runes, take_runes, trim}
use async_trace_doctor.Report.Escapes.{lacks, is_escaped, escape_markdown_cell_lem}
use async_trace_doctor.Report.Widths.{trim_lem}

escaped_cell : escape_markdown_cell "a|b\nc" ≡ "a\\|b<br/>c"
unfolding escape_markdown_cell
escaped_cell = refl

trimmed_route : trim "kafka/orders" 6 ≡ "kafka…"
unfolding trim
trimmed_route = refl

escape_markdown_cell_lem_example :
    (lacks 10 (escape_markdown_cell "a|b\nc") ≡ true)
    × (lacks 13 (escape_markdown_cell "a|b\nc") ≡ true)
    × (is_escaped false (escape_markdown_cell "a|b\nc") ≡ true)
escape_markdown_cell_lem_example = escape_markdown_cell_lem "a|b\nc"

trim_lem_example :
    (runes (trim "kafka/orders" 6)
      ≡ (if leb (runes "kafka/orders") 6 then runes "kafka/orders" else 6))
    × (take_runes (6 - 1) (trim "kafka/orders" 6) ≡ take_runes (6 - 1) "kafka/orders")
trim_lem_example = trim_lem "kafka/orders" 6

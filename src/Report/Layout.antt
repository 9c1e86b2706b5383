-- ===== src/Report/Layout.antt =====
-- WriteTable and WriteMarkdown of internal/report/report.go, as the texts that they write; no write fails
-- here. `percent` is a ratio times a hundred, printed with one decimal.
use Prim.Native.String.{◌++◌}
use async_trace_doctor.Common.{
  ℕ, zero, suc, ◌-◌, String, List, [], ◌∷◌, map, length, leb, ◌==◌, if◌then◌else◌,
}
use async_trace_doctor.Common.Texts.{decimal, to_upper, join}
use async_trace_doctor.Rules.{Finding, Report, confidence_text}
use async_trace_doctor.Report.Cells.{replace_char, replace_crlf, escape_markdown_cell, runes, trim}

unfoldable pub coverage_status : Report → String
coverage_status r = if r.coverage.status == "" then "unknown" else r.coverage.status

spaces : ℕ → String
spaces zero = ""
spaces (suc n) = " " ++ spaces n

-- %-ns
unfoldable pub pad : ℕ → String → String
unfolding spaces runes
pad n s = s ++ spaces (n - runes s)

-- The consumer's name with its group and its subscription, each as `show` writes it.
unfoldable pub consumer_name : (String → String) → Finding → String
consumer_name show f =
    show f.consumer_service
    ++ ((if f.consumer_group == "" then "" else "[" ++ (show f.consumer_group ++ "]"))
        ++ (if f.subscription == "" then "" else "{" ++ (show f.subscription ++ "}")))

unfoldable pub table_row : Finding → String
unfolding consumer_name trim pad replace_char replace_crlf to_upper confidence_text join
table_row f = join " " (
    pad 9 (to_upper f.severity)
    ∷ pad 13 f.rule_id
    ∷ pad 42 (trim (f.producer_service ++ (" -> " ++ consumer_name (λ s. s) f)) 42)
    ∷ pad 24 (trim (f.messaging_system ++ ("/" ++ f.destination)) 24)
    ∷ pad 22 (trim f.correlation_method 22)
    ∷ pad 5 (confidence_text f.confidence)
    ∷ pad 13 f.evidence_state
    ∷ replace_char 10 " " (replace_crlf " " f.message)
    ∷ [])

unfoldable pub markdown_row : Finding → String
unfolding consumer_name escape_markdown_cell to_upper confidence_text join
markdown_row f =
    "| "
    ++ (join " | " (
          ("`" ++ (to_upper f.severity ++ "`"))
          ∷ ("`" ++ (f.rule_id ++ "`"))
          ∷ (escape_markdown_cell f.producer_service
              ++ (" &rarr; " ++ consumer_name escape_markdown_cell f))
          ∷ (escape_markdown_cell f.messaging_system ++ ("/" ++ escape_markdown_cell f.destination))
          ∷ escape_markdown_cell f.correlation_method
          ∷ confidence_text f.confidence
          ∷ f.evidence_state
          ∷ escape_markdown_cell f.message
          ∷ [])
        ++ " |")

module _ (percent : ℕ × ℕ → String) where
  -- The lines of WriteTable.
  unfoldable pub table_lines : Report → List String
  unfolding coverage_status decimal table_row join
  table_lines r =
      join "" (
        "AsyncTraceDoctor: "
        ∷ decimal r.summary.audited_spans
        ∷ " spans, "
        ∷ decimal r.summary.messaging_spans
        ∷ " messaging spans, "
        ∷ decimal r.summary.violations
        ∷ " findings, context completeness "
        ∷ percent r.summary.context_completeness_ratio
        ∷ "%, coverage "
        ∷ coverage_status r
        ∷ [])
      ∷ (if leb (length r.findings) 0
          then "No policy violations detected." ∷ []
          else "SEVERITY  RULE          PRODUCER -> CONSUMER                       SYSTEM/DESTINATION       METHOD                 CONF  EVIDENCE      MESSAGE"
            ∷ map table_row r.findings)

  -- The lines of WriteMarkdown.
  unfoldable pub markdown_lines : Report → List String
  unfolding coverage_status decimal markdown_row
  markdown_lines r =
      "## AsyncTraceDoctor Audit Report"
      ∷ ""
      ∷ "| Metric | Value |"
      ∷ "| --- | --- |"
      ∷ ("| Audited Spans | " ++ (decimal r.summary.audited_spans ++ " |"))
      ∷ ("| Messaging Spans | " ++ (decimal r.summary.messaging_spans ++ " |"))
      ∷ ("| Policy Violations | " ++ (decimal r.summary.violations ++ " |"))
      ∷ ("| Context Completeness | " ++ (percent r.summary.context_completeness_ratio ++ "% |"))
      ∷ ("| Coverage Status | " ++ (coverage_status r ++ " |"))
      ∷ ""
      ∷ (if leb (length r.findings) 0
          then "✅ **No policy violations detected.**" ∷ []
          else ("### Findings (" ++ (decimal (length r.findings) ++ ")"))
            ∷ ""
            ∷ "| Severity | Rule | Producer &rarr; Consumer | System/Destination | Method | Confidence | Evidence | Message |"
            ∷ "| --- | --- | --- | --- | --- | --- | --- | --- |"
            ∷ map markdown_row r.findings)

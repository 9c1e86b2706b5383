-- ===== src/Command.antt =====
-- The audit command and the exit codes of cmd/async-trace-doctor/main.go, and Load of
-- internal/config/config.go.
use async_trace_doctor.Common.{
  ℕ, Bool, true, false, not, ◌&&◌, ◌||◌, Option, none, some, List, String, ◌>>=◌, if◌then◌else◌,
  ltb, nat_eq,
}
use async_trace_doctor.Common.Int.{ℤ, pos, ltb_ℤ, leb_ℤ}
use async_trace_doctor.Model.{Time, Duration, Span}
use async_trace_doctor.Config.{Config, validate}
use async_trace_doctor.Ingest.{Json, Messages, Limits, Input, Read, refused, accepted, read_path}
use async_trace_doctor.Rules.{Finding, Report, audit_input, report_violates_policy}
pub mod Exits

-- How RunE ends: without an error, with errPolicyViolation, or with another error.
pub data Ending : Type 0 where
  clean violation failed : Ending

-- main
unfoldable pub exit_code : Ending → ℕ
exit_code clean = 0
exit_code violation = 2
exit_code failed = 1

-- config.Load on what the YAML decoder makes of the file, `none` where there is no such file or no YAML.
unfoldable pub load : Option Config → Option Config
unfolding validate
load none = none
load (some c) = elim (validate c) [ none ↦ some c | some e ↦ none ]

module _ (M : Messages) (parse : List ℕ → Option Json)
    (unmarshal : Json → Option (List M.ResourceSpans)) (sort_by_start : List Span → List Span)
    (sort : (Finding → Finding → Bool) → List Finding → List Finding) (now : Time)
    (elapsed : Duration) where
  -- What the command does with the spans. `written` answers whether the reports that are asked for are
  -- written.
  unfoldable pub audit_spans : Config → (Report → Bool) → List Span → Option Ending
  unfolding audit_input report_violates_policy
  audit_spans c written spans = audit_input sort_by_start sort now elapsed c spans >>= λ report.
      some (
        if not (written report)
        then failed
        else if report_violates_policy c report
        then violation
        else clean)

  -- `none` stands for a panic.
  unfoldable pub audit_command : Option Config → (Report → Bool) → Limits → Input → Option Ending
  unfolding audit_spans read_path load
  audit_command decoded written limits input = elim (load decoded) [
    | none ↦ some failed
    | some c ↦ read_path M parse unmarshal c.redact_attributes limits input >>= λ read. elim read [
      | refused e ↦ some failed
      | accepted spans ↦ audit_spans c written spans
    ]
  ]

-- ===== src/Rules/Engine.antt =====
-- Engine of internal/rules/engine.go: run, audit and its two uses, and ViolatesPolicy. Report is that of
-- internal/model/model.go. The sorts keep no order between equal elements, so they are parameters, and
-- the clock's readings are arguments. `none` stands for a panic.
use async_trace_doctor.Common.{
  String, Bool, true, false, ◌&&◌, ◌||◌, any, Option, some, List, [], ◌∷◌, map, ◌>>=◌, collect,
  ◌==◌, if◌then◌else◌,
}
use async_trace_doctor.Model.{Time, Duration, Span}
use async_trace_doctor.Correlation.{Result, correlate}
use async_trace_doctor.Config.{Config, Rule, contains, violates_policy}
use async_trace_doctor.Rules.Windows.{AuditContext, event_watermark}
use async_trace_doctor.Rules.Topology.{Edge}
use async_trace_doctor.Rules.Telemetry.{Coverage, base_coverage}
use async_trace_doctor.Rules.Findings.{Finding, finding_less}
use async_trace_doctor.Rules.Edges.{build_topology}
use async_trace_doctor.Rules.Drift.{topology_findings}
use async_trace_doctor.Rules.Summaries.{Summary, summary}
use async_trace_doctor.Rules.Cases.{
  semantic_step, orphan_producer_step, orphan_consumer_step, batch_step, latency_step, skew_step,
}
use async_trace_doctor.Rules.Duplicates.{duplicate_findings}

-- A queue latency sample stands for its seconds.
pub record Report : Type 0 where
  pub schema_version : String
  pub semantic_convention_version : String
  pub generated_at : Time
  pub summary : Summary
  pub coverage : Coverage
  pub findings : List Finding
  pub topology : List Edge
  pub queue_latency_samples : List Duration

abbrev pub semantic_checks : List String
semantic_checks =
    "missing_service_name" ∷ "missing_messaging_system" ∷ "missing_destination"
    ∷ "invalid_operation" ∷ "invalid_span_kind" ∷ "invalid_span_identity" ∷ "invalid_timestamps"
    ∷ "invalid_context_reference" ∷ "missing_consumer_context" ∷ "unresolved_consumer_context" ∷ []

-- An insufficient state becomes a degraded one.
unfoldable pub degrade_finding : Finding → Finding
degrade_finding f =
    if f.evidence_state == "insufficient" then record f { evidence_state = "degraded" } else f

unfoldable pub degrade_findings : String → List Finding → List Finding
unfolding degrade_finding
degrade_findings status findings =
    if status == "degraded" then map degrade_finding findings else findings

-- What Audit and what AuditWindow say of their input.
unfoldable pub input_context : Config → List Span → AuditContext
unfolding event_watermark
input_context c spans = record {
  finalized = true;
  coverage_complete = c.settings.input_completeness == "complete";
  watermark = event_watermark spans;
}

unfoldable pub window_context : List Span → AuditContext
unfolding event_watermark
window_context spans = record {
  finalized = false;
  coverage_complete = false;
  watermark = event_watermark spans;
}

module _ (sort_by_start : List Span → List Span)
    (sort : (Finding → Finding → Bool) → List Finding → List Finding) where
  -- e.run
  unfoldable pub run : Config → Rule → List Span → Result → AuditContext → Option (List Finding)
  unfolding contains semantic_step orphan_producer_step orphan_consumer_step batch_step
      duplicate_findings latency_step skew_step topology_findings
  run c r spans corr audit =
      let window = c.settings.correlation_window in
      if contains semantic_checks r.check
      then collect (semantic_step r spans corr) spans
      else if r.check == "orphan_producer"
      then collect (orphan_producer_step r window audit corr) spans
      else if r.check == "orphan_consumer"
      then collect (orphan_consumer_step r window audit corr) spans
      else if r.check == "batch_links_incomplete"
      then collect (batch_step r spans) spans
      else if r.check == "duplicate_processing"
      then duplicate_findings sort_by_start r c.settings spans
      else if r.check == "queue_latency_high"
      then collect (latency_step r c.settings spans) corr.correlations
      else if r.check == "clock_skew"
      then collect (skew_step r c.settings spans) corr.correlations
      else if r.check == "runtime_topology_mismatch"
      then topology_findings c.topology window r spans corr audit
      else some []

  -- The loop over the rules.
  unfoldable pub run_rules :
      Config → List Rule → List Span → Result → AuditContext → Option (List Finding)
  unfolding run
  run_rules c rules spans corr audit =
      collect (λ i r. if r.enabled then run c r spans corr audit else some []) rules

  -- e.audit, at the time `now` and after the time `elapsed`
  unfoldable pub audit_with : Time → Duration → Config → List Span → AuditContext → Option Report
  unfolding run_rules base_coverage degrade_findings build_topology finding_less summary correlate
  audit_with now elapsed c spans audit =
      let window = c.settings.correlation_window in
      let coverage = base_coverage spans audit in
      correlate spans window >>= λ corr. run_rules c c.rules spans corr audit >>= λ found.
      build_topology spans corr.correlations >>= λ topology.
      let findings = sort finding_less (degrade_findings coverage.status found) in
      some (record {
        schema_version = "1.1";
        semantic_convention_version = c.semantic_convention_version;
        generated_at = now;
        summary = summary spans corr findings elapsed window audit;
        coverage = coverage;
        findings = findings;
        topology = topology;
        queue_latency_samples = map (λ x. x.queue_latency) corr.correlations;
      })

  -- e.Audit
  unfoldable pub audit_input : Time → Duration → Config → List Span → Option Report
  unfolding audit_with input_context
  audit_input now elapsed c spans = audit_with now elapsed c spans (input_context c spans)

  -- e.AuditWindow
  unfoldable pub audit_window : Time → Duration → Config → List Span → Option Report
  unfolding audit_with window_context
  audit_window now elapsed c spans = audit_with now elapsed c spans (window_context spans)

-- e.ViolatesPolicy(report)
unfoldable pub report_violates_policy : Config → Report → Bool
unfolding violates_policy
report_violates_policy c report =
    any
      (λ f.
        (f.evidence_state == "sufficient" || c.settings.fail_on_insufficient_evidence)
        && violates_policy c f.severity)
      report.findings

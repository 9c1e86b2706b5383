-- ===== src/Tests/AuditTests.antt =====
-- The statements about whole audits, at the sample spans and a configuration with one edge that is
-- expected per message.
use async_trace_doctor.Common.{
  ◌≡◌, refl, true, false, none, some, List, [], ◌∷◌, ◌++◌, All, Returns, collect, length, Option,
  map, ℕ, get_elem?, ltb, String, ◌==◌, ◌≢◌, eq_iff, ◌&&◌, not, any, if◌then◌else◌,
}
use async_trace_doctor.Common.Int.{pos}
use async_trace_doctor.Model.{destination, environment, service_namespace, is_consumer}
use async_trace_doctor.Correlation.{correlate}
use async_trace_doctor.Config.{Config, Rule, Settings, ExpectedEdge, validate}
use async_trace_doctor.Rules.{
  Finding, Report, audit_input, audit_window, build_topology, Edge, observe_edges, undelivered,
  undelivered_finding, awaits_delivery, summary, input_context, duplicate_findings,
}
use async_trace_doctor.Rules.Doubt.{IsDoubtful, audit_window-IsDoubtful}
use async_trace_doctor.Rules.EdgeCounts.{total, IsShown}
use async_trace_doctor.Rules.EdgeGroups.{IsWhole, build_topology-groups}
use async_trace_doctor.Rules.Observed.{verdicts, is_judged, matches_at, observe_edges-are_verdicts}
use async_trace_doctor.Rules.Deliveries.{delivers, undelivered-iff_none_delivers}
use async_trace_doctor.Rules.Tallies.{count_where, carries, lacks, summary-references}
use async_trace_doctor.Rules.Redelivery.{duplicate_findings-again}
use async_trace_doctor.Rules.Total.{audit-Returns}
use async_trace_doctor.Tests.Samples.{arrival, sent, processed, export}
use async_trace_doctor.Tests.CorrelationTests.{minute, found, export_correlated, export-IsServed}

unequal : (s t : String) → (s == t) ≡ false → s ≢ t
unequal s t n p = cc (n, (eq_iff s t).1 p)

abbrev drift : Rule
drift = record {
  id = "ATD-TOP-001";
  check = "runtime_topology_mismatch";
  enabled = true;
  severity = "error";
  message = "topology differs";
  suggested_fix = "expect the edge";
  applies_to = record {
    operations = [];
    systems = [];
    services = [];
    destinations = [];
    environments = [];
  };
}

abbrev to_invoicing : ExpectedEdge
to_invoicing = record {
  producer = "orders";
  system = "kafka";
  destination = "orders";
  consumer = "invoicing";
  consumer_group = "";
  subscription = "";
  environment = "";
  service_namespace = "";
  destination_namespace = "";
  broker_address = "";
  require_per_message = true;
}

abbrev settings : Settings
settings = record {
  correlation_window = minute;
  queue_latency = pos 30000000000;
  clock_skew_tolerance = pos 0;
  duplicate_threshold = pos 1;
  fail_on_severity = "error";
  input_completeness = "";
  fail_on_insufficient_evidence = false;
}

abbrev pub demanding : Config
demanding = record {
  api_version = "asynctracedoctor.io/v1alpha1";
  semantic_convention_version = "1.37.0";
  settings = settings;
  redact_attributes = [];
  rules = drift ∷ [];
  topology = record { expected_edges = to_invoicing ∷ []; denied_edges = []; ignored_edges = [] };
}

pub demanding_accepted : validate demanding ≡ none
unfolding validate
demanding_accepted = refl

audit-Returns_example :
    Returns (audit_input (λ xs. xs) (λ less fs. fs) arrival (pos 5000000) demanding export)
    × Returns (audit_window (λ xs. xs) (λ less fs. fs) arrival (pos 5000000) demanding export)
audit-Returns_example =
    audit-Returns (λ xs. xs) (λ less fs. fs) arrival (pos 5000000) demanding export
      demanding_accepted export-IsServed

abbrev findings_of : Option Report → List Finding
findings_of none = []
findings_of (some report) = report.findings

-- One edge, unexpected, and one message that its required consumer has not received.
reported :
    map
      (λ f. f.correlation_method)
      (findings_of (audit_input (λ xs. xs) (λ less fs. fs) arrival (pos 5000000) demanding export))
    ≡ "correlated_topology" ∷ "expected_delivery" ∷ []
unfolding audit_input service_namespace collect
reported = refl

pub audit-Returns_live :
    Returns (audit_window (λ xs. xs) (λ less fs. fs) arrival (pos 5000000) demanding export)
unfolding audit_window service_namespace collect
audit-Returns_live = (_, refl)

abbrev pub live : Option Report
live = audit_window (λ xs. xs) (λ less fs. fs) arrival (pos 5000000) demanding export

abbrev pub live_report : (o : Option Report) → Returns o → Report
live_report o (r, e) = r

audit_window-IsDoubtful_example : All IsDoubtful (live_report live audit-Returns_live).findings
audit_window-IsDoubtful_example =
    audit_window-IsDoubtful (λ xs. xs) (λ less fs. fs) (λ P fs h. h) arrival (pos 5000000) demanding
      export audit-Returns_live.1

-- The edge from orders to billing.
abbrev shown : List Edge
shown = elim (build_topology export found.correlations) [ none ↦ [] | some edges ↦ edges ]

shown_built : build_topology export found.correlations ≡ some shown
unfolding build_topology correlate destination environment service_namespace
shown_built = refl

build_topology-groups_example :
    (total shown ≡ length found.correlations)
    × All (IsShown export (λ x. (i : ℕ) × (get_elem? found.correlations i ≡ some x))) shown
    × All (IsWhole export found.correlations) shown
build_topology-groups_example = build_topology-groups export found.correlations shown_built

observe_edges-are_verdicts_example :
    ((observe_edges drift demanding.topology shown ([], λ i. false)).0
      ≡ verdicts drift demanding.topology shown)
    × ((i : ℕ)
        → (observe_edges drift demanding.topology shown ([], λ i. false)).1 i
          ≡ any
              (λ o.
                is_judged demanding.topology o && matches_at demanding.topology.expected_edges i o)
              shown)
observe_edges-are_verdicts_example = observe_edges-are_verdicts drift demanding.topology shown

undelivered-iff_none_delivers_example :
    undelivered drift to_invoicing export found minute (input_context demanding export) 0 sent
    ≡ some (
        if awaits_delivery to_invoicing minute (input_context demanding export) sent
          && not (any (delivers to_invoicing export 0 sent) found.correlations)
        then undelivered_finding drift to_invoicing (input_context demanding export) sent ∷ []
        else [])
undelivered-iff_none_delivers_example =
    undelivered-iff_none_delivers to_invoicing export 0 sent minute minute export_correlated drift
      (input_context demanding export)

summary-references_example :
    ((summary export found [] (pos 0) minute (input_context demanding export)).broken_links
      ≡ count_where lacks export)
    × ((summary export found []
          (pos 0)
          minute
          (input_context demanding export)).context_completeness_ratio
        ≡ (if ltb 0 (count_where is_consumer export)
            then (count_where carries export, count_where is_consumer export)
            else (0, 1)))
summary-references_example =
    summary-references export minute export_correlated minute (input_context demanding export) []
      (pos 0)

duplicate_findings-again_example :
    duplicate_findings (λ xs. xs) drift settings (export ++ processed ∷ [])
    ≡ duplicate_findings (λ xs. xs) drift settings export
duplicate_findings-again_example =
    duplicate_findings-again drift (λ xs. xs) settings export 1 refl
      (unequal processed.trace_id "" refl) (unequal processed.span_id "" refl)

-- ===== src/Rules/Drift.antt =====
-- The check runtime_topology_mismatch of internal/rules/engine.go: topologyFindings, topologyFinding and
-- missingRequiredConsumers.
use async_trace_doctor.Common.{
  ℕ, suc, String, Bool, true, false, not, ◌&&◌, Option, none, some, List, [], ◌∷◌, ◌++◌, length,
  ltb, nat_eq, get_elem?, ◌>>=◌, collect, ◌==◌, if◌then◌else◌,
}
use async_trace_doctor.Common.Int.{ℤ, pos, ltb_ℤ}
use async_trace_doctor.Common.Dict
use async_trace_doctor.Common.Dict.{Dict}
use async_trace_doctor.Model.{Duration, Span, attr_int, message_identity}
use async_trace_doctor.Correlation.{Confidence, high, medium, low, Correlation, Result, assign}
use async_trace_doctor.Config.{Rule, ExpectedEdge, Topology}
use async_trace_doctor.Rules.Windows.{AuditContext, correlation_window_closed}
use async_trace_doctor.Rules.Absence.{producer_matches, has_eligible_producer}
use async_trace_doctor.Rules.Topology.{Edge, edge_matches, matching_edge}
use async_trace_doctor.Rules.Findings.{
  Fact, word, count, flag, table, Finding, finding, put_present, mark_absence_evidence,
}
use async_trace_doctor.Rules.Edges.{edge_of, build_topology}

unfoldable pub isolation_of : Edge → Dict String
unfolding put_present
isolation_of edge = put_present "environment" edge.environment (
    put_present "service_namespace" edge.service_namespace (
      put_present "destination_namespace" edge.destination_namespace
        (put_present "broker_address" edge.broker_address [])))

-- if len(isolation) > 0 { evidence["isolation_scope"] = isolation }
unfoldable pub add_isolation : Dict String → Dict Fact → Dict Fact
unfolding Dict.put
add_isolation [] evidence = evidence
add_isolation (x ∷ isolation) evidence = Dict.put "isolation_scope" (table (x ∷ isolation)) evidence

unfoldable pub topology_finding : Rule → Edge → String → Confidence → Dict Fact → Finding
unfolding isolation_of add_isolation
topology_finding r edge kind confidence evidence = record {
  rule_id = r.id;
  severity = r.severity;
  producer_service = edge.producer;
  consumer_service = edge.consumer;
  messaging_system = edge.system;
  destination = edge.destination;
  consumer_group = edge.consumer_group;
  subscription = edge.subscription;
  trace_ids = [];
  span_ids = [];
  correlation_method =
      if kind == "missing_edge" then "expected_topology" else "correlated_topology";
  confidence = confidence;
  evidence_state = "sufficient";
  evidence = add_isolation (isolation_of edge) evidence;
  message = r.message;
  suggested_fix = r.suggested_fix;
}

-- matchingEdge(edges, o) >= 0
abbrev pub is_found : Option ℕ → Bool
is_found none = false
is_found (some i) = true

-- The loop over the expected edges at an observed one: which are matched, and how many it matches.
unfoldable pub mark_matches : ℕ → List ExpectedEdge → Edge → (ℕ → Bool) × ℕ → (ℕ → Bool) × ℕ
unfolding edge_matches
mark_matches i [] o st = st
mark_matches i (x ∷ rest) o (matched, n) =
    mark_matches (suc i) rest o
      (if edge_matches x o then (assign matched i true, suc n) else (matched, n))

-- A finding for an observed edge, with the count of the edge.
unfoldable pub edge_finding : Rule → Edge → String → Finding
unfolding topology_finding
edge_finding r o kind =
    topology_finding r o kind high (("type", word kind) ∷ ("count", count o.count) ∷ [])

-- The body of the loop over the observed edges.
unfoldable pub observe_edge :
    Rule → Topology → Edge → List Finding × (ℕ → Bool) → List Finding × (ℕ → Bool)
unfolding matching_edge mark_matches edge_finding
observe_edge r t o (out, matched) =
    let (matched', n) = mark_matches 0 t.expected_edges o (matched, 0) in
    if is_found (matching_edge t.denied_edges o)
    then (out ++ edge_finding r o "denied_edge" ∷ [], matched)
    else if is_found (matching_edge t.ignored_edges o)
    then (out, matched)
    else if nat_eq (length t.expected_edges) 0
    then (out, matched)
    else if ltb 0 n
    then (out, matched')
    else (out ++ edge_finding r o "unexpected_edge" ∷ [], matched')

unfoldable pub observe_edges :
    Rule → Topology → List Edge → List Finding × (ℕ → Bool) → List Finding × (ℕ → Bool)
unfolding observe_edge
observe_edges r t [] st = st
observe_edges r t (o ∷ rest) st = observe_edges r t rest (observe_edge r t o st)

-- batch && batchCount > 1
unfoldable pub declares_batch : Option ℤ → Bool
declares_batch none = false
declares_batch (some n) = ltb_ℤ (pos 1) n

-- `found` after the loop over the correlations of missingRequiredConsumers, for the producer `pi`.
unfoldable pub is_delivered : ExpectedEdge → List Span → ℕ → Span → List Correlation → Option Bool
unfolding edge_matches edge_of
is_delivered expected spans pi producer [] = some false
is_delivered expected spans pi producer (x ∷ rest) =
    let later = is_delivered expected spans pi producer rest in
    if not (nat_eq x.producer_index pi)
    then later
    else get_elem? spans x.consumer_index >>= λ consumer.
        if edge_matches expected (edge_of producer consumer) then some true else later

unfoldable pub undelivered_evidence : ExpectedEdge → Span → Dict Fact
unfolding message_identity
undelivered_evidence expected producer =
    ("type", word "missing_required_consumer")
    ∷ ("consumer", word expected.consumer)
    ∷ ("consumer_group", word expected.consumer_group)
    ∷ ("subscription", word expected.subscription)
    ∷ ("identity_kind", word (message_identity producer).0)
    ∷ ("identity_present", flag (not ((message_identity producer).1 == "")))
    ∷ []

unfoldable pub undelivered_finding : Rule → ExpectedEdge → AuditContext → Span → Finding
unfolding finding mark_absence_evidence undelivered_evidence
undelivered_finding r expected audit producer =
    let f : Finding = mark_absence_evidence audit (
      finding r producer none "expected_delivery" medium
        (undelivered_evidence expected producer)) in
    record f {
      consumer_service = expected.consumer;
      consumer_group = expected.consumer_group;
      subscription = expected.subscription;
    }

-- The producer is one whose delivery the expected edge demands, and its window is over.
unfoldable pub awaits_delivery : ExpectedEdge → Duration → AuditContext → Span → Bool
unfolding producer_matches correlation_window_closed declares_batch attr_int
awaits_delivery expected window audit producer =
    producer_matches expected producer
    && correlation_window_closed producer window audit
    && not (declares_batch (attr_int producer.attributes "messaging.batch.message_count"))

-- The body of the loop over the spans of missingRequiredConsumers.
unfoldable pub undelivered :
    Rule
    → ExpectedEdge
    → List Span
    → Result
    → Duration
    → AuditContext
    → ℕ
    → Span
    → Option (List Finding)
unfolding awaits_delivery is_delivered undelivered_finding
undelivered r expected spans corr window audit pi producer =
    if not (awaits_delivery expected window audit producer)
    then some []
    else is_delivered expected spans pi producer corr.correlations >>= λ found.
        some (if found then [] else undelivered_finding r expected audit producer ∷ [])

unfoldable pub missing_required_consumers :
    Rule → ExpectedEdge → List Span → Result → Duration → AuditContext → Option (List Finding)
unfolding undelivered
missing_required_consumers r expected spans corr window audit =
    collect (undelivered r expected spans corr window audit) spans

-- The edge that a finding names for an expected edge without traffic.
unfoldable pub edge_expected : ExpectedEdge → Edge
edge_expected x = record {
  producer = x.producer;
  system = x.system;
  destination = x.destination;
  consumer = x.consumer;
  consumer_group = x.consumer_group;
  subscription = x.subscription;
  environment = x.environment;
  service_namespace = x.service_namespace;
  destination_namespace = x.destination_namespace;
  broker_address = x.broker_address;
  count = 0;
}

abbrev pub missing_confidence : AuditContext → Confidence
missing_confidence audit = if audit.coverage_complete then medium else low

abbrev pub missing_evidence : AuditContext → Dict Fact
missing_evidence audit =
    ("type", word "missing_edge") ∷ ("coverage_complete", flag audit.coverage_complete) ∷ []

unfoldable pub missing_edge_finding : Rule → ExpectedEdge → AuditContext → Finding
unfolding topology_finding mark_absence_evidence edge_expected
missing_edge_finding r x audit = mark_absence_evidence audit (
    topology_finding r (edge_expected x) "missing_edge" (missing_confidence audit)
      (missing_evidence audit))

-- The body of the loop over the expected edges.
unfoldable pub expect_edge :
    Rule
    → List Span
    → Result
    → Duration
    → AuditContext
    → (ℕ → Bool)
    → ℕ
    → ExpectedEdge
    → Option (List Finding)
unfolding missing_required_consumers missing_edge_finding has_eligible_producer
expect_edge r spans corr window audit matched i x =
    if x.require_per_message
    then missing_required_consumers r x spans corr window audit
    else some (
        if not (matched i) && has_eligible_producer x spans window audit
        then missing_edge_finding r x audit ∷ []
        else [])

unfoldable pub topology_findings :
    Topology → Duration → Rule → List Span → Result → AuditContext → Option (List Finding)
unfolding build_topology observe_edges expect_edge
topology_findings t window r spans corr audit =
    build_topology spans corr.correlations >>= λ observed.
    let st : List Finding × (ℕ → Bool) = observe_edges r t observed ([], λ i. false) in
    collect (expect_edge r spans corr window audit st.1) t.expected_edges >>= λ missing.
    some (st.0 ++ missing)

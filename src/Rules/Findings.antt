-- ===== src/Rules/Findings.antt =====
-- Findings: Finding and SortFindings of internal/model/model.go, and what internal/rules/engine.go makes
-- one of. The evidence of a finding is a map from names to values of a few types.
use Prim.Native.String.{◌++◌, compare}
use async_trace_doctor.Common.{
  ℕ, String, Bool, ◌||◌, Option, none, some, List, [], ◌∷◌, ◌++◌ as append, ◌==◌, if◌then◌else◌,
}
use text.Mathlib.Text.{is_lt}
use async_trace_doctor.Common.Int.{ℤ}
use async_trace_doctor.Common.Dict
use async_trace_doctor.Common.Dict.{Dict}
use async_trace_doctor.Common.Texts.{join}
use async_trace_doctor.Model.{
  Time, Duration, Span, system, destination, consumer_group, subscription, environment,
  service_namespace, destination_namespace, server_address, partition, kafka_offset, is_consumer,
}
use async_trace_doctor.Correlation.{Confidence, high, medium, low, Method}
use async_trace_doctor.Correlation.{
  span_link, parent_context, messaging_attributes, kafka_partition_offset, time_window_heuristic,
}
use async_trace_doctor.Config.{Rule, contains}
use async_trace_doctor.Rules.Windows.{AuditContext}

-- A value of the evidence; a duration and an instant stand for the texts that they print as.
pub data Fact : Type 0 where
  word : String → Fact
  words : List String → Fact
  number : ℤ → Fact
  count : ℕ → Fact
  flag : Bool → Fact
  table : Dict String → Fact
  duration : Duration → Fact
  instant : Time → Fact

pub record Finding : Type 0 where
  pub rule_id : String
  pub severity : String
  pub producer_service : String
  pub consumer_service : String
  pub messaging_system : String
  pub destination : String
  pub consumer_group : String
  pub subscription : String
  pub trace_ids : List String
  pub span_ids : List String
  pub correlation_method : String
  pub confidence : Confidence
  pub evidence_state : String
  pub evidence : Dict Fact
  pub message : String
  pub suggested_fix : String

-- The constants of internal/model/constants.go for the methods of a correlation, and of a confidence.
unfoldable pub method_text : Method → String
method_text span_link = "span_link"
method_text parent_context = "parent_context"
method_text messaging_attributes = "messaging_attributes"
method_text kafka_partition_offset = "kafka_partition_offset"
method_text time_window_heuristic = "time_window_heuristic"

unfoldable pub confidence_text : Confidence → String
confidence_text high = "high"
confidence_text medium = "medium"
confidence_text low = "low"

-- f.Fingerprint()
unfoldable pub fingerprint : Finding → String
unfolding join
fingerprint f = join "|" (
    f.rule_id
    ∷ join "," f.trace_ids
    ∷ join "," f.span_ids
    ∷ f.producer_service
    ∷ f.consumer_service
    ∷ f.messaging_system
    ∷ f.destination
    ∷ f.consumer_group
    ∷ f.subscription
    ∷ [])

-- The key by which SortFindings sorts, and findingSorter.Less on the keys of two findings.
unfoldable pub sort_key : Finding → String
unfolding join
sort_key f = f.rule_id ++ ("\0" ++ (join "," f.span_ids ++ ("\0" ++ f.message)))

unfoldable pub finding_less : Finding → Finding → Bool
unfolding sort_key
finding_less f g = is_lt (compare (sort_key f) (sort_key g))

unfoldable pub append_unique : List String → String → List String
unfolding contains
append_unique xs v = if v == "" || contains xs v then xs else append xs (v ∷ [])

-- identity[key] = value, unless the value is empty
unfoldable pub put_present : String → String → Dict String → Dict String
unfolding Dict.put
put_present key value m = if value == "" then m else Dict.put key value m

unfoldable pub broker_identity_evidence : Span → Dict String
unfolding put_present
broker_identity_evidence span = put_present "environment" (environment span) (
    put_present "service_namespace" (service_namespace span) (
      put_present "destination_namespace" (destination_namespace span) (
        put_present "server_address" (server_address span) (
          put_present "partition" (partition span) (
            put_present "kafka_offset" (kafka_offset span) (
              put_present "consumer_group" (consumer_group span)
                (put_present "subscription" (subscription span) [])))))))

-- f.Evidence["broker_identity"] = identity, if len(identity) > 0
unfoldable pub add_identity : Dict String → Dict Fact → Dict Fact
unfolding Dict.put
add_identity [] evidence = evidence
add_identity (x ∷ identity) evidence = Dict.put "broker_identity" (table (x ∷ identity)) evidence

-- if c != nil && base.SpanID == "" { base = *c }
unfoldable pub base_of : Span → Option Span → Span
base_of p none = p
base_of p (some c) = if p.span_id == "" then c else p

-- What the span `p` adds to a finding, and the span that `c` points to.
unfoldable pub add_first : Span → Finding → Finding
unfolding append_unique is_consumer
add_first p f =
    let named : Finding =
      if is_consumer p || p.kind == "CONSUMER"
      then record f { consumer_service = p.service }
      else record f { producer_service = p.service } in
    if p.span_id == "" then f else record named {
      trace_ids = append_unique named.trace_ids p.trace_id;
      span_ids = append_unique named.span_ids p.span_id;
    }

unfoldable pub add_second : Option Span → Finding → Finding
unfolding append_unique
add_second none f = f
add_second (some c) f = record f {
  consumer_service = c.service;
  consumer_group = consumer_group c;
  subscription = subscription c;
  trace_ids = append_unique f.trace_ids c.trace_id;
  span_ids = append_unique f.span_ids c.span_id;
}

-- finding; `evidence` is the map that the finding keeps, with the broker's identity added.
unfoldable pub finding : Rule → Span → Option Span → String → Confidence → Dict Fact → Finding
unfolding add_second add_first base_of add_identity broker_identity_evidence
finding r p c method confidence evidence =
    let base = base_of p c in
    add_second c (
      add_first p (record {
        rule_id = r.id;
        severity = r.severity;
        producer_service = "";
        consumer_service = "";
        messaging_system = system base;
        destination = destination base;
        consumer_group = consumer_group base;
        subscription = subscription base;
        trace_ids = [];
        span_ids = [];
        correlation_method = method;
        confidence = confidence;
        evidence_state = "sufficient";
        evidence = add_identity (broker_identity_evidence base) evidence;
        message = r.message;
        suggested_fix = r.suggested_fix;
      }))

unfoldable pub confidence_for : String → Confidence
confidence_for check = if check == "unresolved_consumer_context" then low else high

unfoldable pub mark_absence_evidence : AuditContext → Finding → Finding
mark_absence_evidence audit f =
    if audit.coverage_complete
    then f
    else record f { evidence_state = "insufficient"; confidence = low }

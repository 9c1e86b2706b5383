-- ===== src/Tests/RulesTests.antt =====
-- The statements about the configuration and the rules, at the sample spans and a configuration of one
-- rule.
use async_trace_doctor.Common.{
  ◌≡◌, ◌≤◌, ◌<◌, ◌↔◌, refl, ◌++◌, true, false, none, some, List, [], ◌∷◌, All, arith,
}
use async_trace_doctor.Common.Int.{pos}
use async_trace_doctor.Model.{
  Span, integer, IntType, attr_int, destination, operation, environment, service_namespace,
  destination_namespace, server_address, is_consumer,
}
use async_trace_doctor.Correlation.{Result, no_result, correlate}
use async_trace_doctor.Correlation.Counts.{has_reference}
use async_trace_doctor.Config.{Config, Rule, validate}
use async_trace_doctor.Config.Validity.{IsValid, validate-IsValid}
use async_trace_doctor.Rules.{
  is_bad, applies, split_attempt_windows, batch_link_coverage, is_incomplete_batch,
  correlation_window_closed, event_watermark, tally_anonymous,
}
use async_trace_doctor.Rules.Exclusion.{missing_context_iff}
use async_trace_doctor.Rules.Attempts.{AreAttempts, split_attempt_windows-AreAttempts}
use async_trace_doctor.Rules.BatchBounds.{short_batch-is_incomplete}
use async_trace_doctor.Rules.Watermarks.{live_at, event_watermark-ge_ends, closed_window_persists}
use async_trace_doctor.Common.Texts.{has_prefix}
use async_trace_doctor.Common.{◌≢◌}
use async_trace_doctor.Correlation.{Correlation}
use async_trace_doctor.Rules.{is_orphan_producer, is_orphan_consumer}
use async_trace_doctor.Common.{◌+◌}
use async_trace_doctor.Rules.{base_coverage}
use async_trace_doctor.Rules.Completeness.{lost_attributes, lost_links, base_coverage_complete}
use async_trace_doctor.Rules.Orphans.{orphans-uncorrelated}
use async_trace_doctor.Auth.{
  trim_space, drop_chars, bearer_auth_middleware, bearer_auth_interceptor, bearer_auth-agree,
}
use async_trace_doctor.Tests.Samples.{arrival, sent, processed, export}

abbrev batch_rule : Rule
batch_rule = record {
  id = "ATD-012";
  check = "batch_links_incomplete";
  enabled = true;
  severity = "error";
  message = "batch consumer lacks links";
  suggested_fix = "link every message of the batch";
  applies_to = record {
    operations = "PROCESS" ∷ [];
    systems = "*" ∷ [];
    services = [];
    destinations = [];
    environments = [];
  };
}

abbrev one_rule : Config
one_rule = record {
  api_version = "asynctracedoctor.io/v1alpha1";
  semantic_convention_version = "1.37.0";
  settings = record {
    correlation_window = pos 60000000000;
    queue_latency = pos 30000000000;
    clock_skew_tolerance = pos 0;
    duplicate_threshold = pos 1;
    fail_on_severity = "error";
    input_completeness = "";
    fail_on_insufficient_evidence = false;
  };
  redact_attributes = [];
  rules = batch_rule ∷ [];
  topology = record { expected_edges = []; denied_edges = []; ignored_edges = [] };
}

one_rule_accepted : validate one_rule ≡ none
unfolding validate
one_rule_accepted = refl

validate-IsValid_example : (validate one_rule ≡ none) ↔ IsValid one_rule
validate-IsValid_example = validate-IsValid one_rule

-- A consumer that neither a link nor a parent ties to its message.
abbrev lost : Span
lost = record processed { links = [] }

abbrev lost_export : List Span
lost_export = sent ∷ lost ∷ []

abbrev lost_found : Result
lost_found = elim (correlate lost_export (pos 60000000000)) [ none ↦ no_result | some r ↦ r ]

lost_correlated : correlate lost_export (pos 60000000000) ≡ some lost_found
unfolding correlate destination environment service_namespace destination_namespace server_address
lost_correlated = refl

lost_bad : is_bad "missing_consumer_context" lost_found 1 lost ≡ true
unfolding correlate destination environment service_namespace destination_namespace server_address
    is_bad
lost_bad = refl

missing_context_iff_example :
    (is_bad "missing_consumer_context" lost_found 1 lost ≡ true)
    ↔ ((operation lost ≡ "process") × (has_reference lost ≡ false))
missing_context_iff_example =
    missing_context_iff lost_export (pos 60000000000) lost_correlated 1 refl

split_attempt_windows-AreAttempts_example :
    AreAttempts (pos 1000000000) export (split_attempt_windows (λ xs. xs) export (pos 1000000000))
split_attempt_windows-AreAttempts_example =
    split_attempt_windows-AreAttempts (pos 1000000000) (λ xs. xs) (λ xs. refl) export

-- A consumer of three messages with one link.
abbrev batch : Span
batch = record processed {
  attributes =
      ("messaging.batch.message_count", integer IntType.int64 (pos 3)) ∷ processed.attributes;
}

batch_consumes : is_consumer batch ≡ true
unfolding is_consumer
batch_consumes = refl

applies-batch : applies batch_rule batch ≡ true
unfolding applies
applies-batch = refl

batch_declares : attr_int batch.attributes "messaging.batch.message_count" ≡ some (pos 3)
unfolding attr_int
batch_declares = refl

batch_short : (batch_link_coverage batch export).valid_links < 3
unfolding batch_link_coverage tally_anonymous
batch_short = omega arith

short_batch-is_incomplete_example : is_incomplete_batch batch_rule export batch ≡ true
short_batch-is_incomplete_example =
    short_batch-is_incomplete batch_rule export batch 3 batch_consumes applies-batch batch_declares
      (omega arith) batch_short

event_watermark-ge_ends_example : All (λ (s : Span). s.end ≤ event_watermark export) export
event_watermark-ge_ends_example = event_watermark-ge_ends export

sent_closed :
    correlation_window_closed sent (pos 1000000000) (live_at false (event_watermark export)) ≡ true
unfolding correlation_window_closed event_watermark
sent_closed = refl

closed_window_persists_example :
    correlation_window_closed sent
      (pos 1000000000)
      (live_at false (event_watermark (export ++ lost ∷ [])))
    ≡ true
closed_window_persists_example =
    closed_window_persists sent (pos 1000000000) false export (lost ∷ []) sent_closed

orphans-uncorrelated_example :
    (is_orphan_producer batch_rule lost_found (pos 0) (live_at true arrival) 1 lost ≡ true
      → All (λ (x : Correlation). x.producer_index ≢ 1) lost_found.correlations)
    × (is_orphan_consumer batch_rule lost_found (pos 0) (live_at true arrival) 1 lost ≡ true
        → All (λ (x : Correlation). x.consumer_index ≢ 1) lost_found.correlations
          × (has_reference lost ≡ false))
orphans-uncorrelated_example =
    orphans-uncorrelated lost_export (pos 60000000000) lost_correlated batch_rule (pos 0)
      (live_at true arrival) 1 refl

bearer_auth-agree_example :
    (bearer_auth_middleware "secret" "/v1/traces" "Bearer secret"
      ≡ bearer_auth_interceptor "secret" ("Bearer secret" ∷ []))
    × (bearer_auth_interceptor "secret" [] ≡ false)
    × (bearer_auth_interceptor "secret" ("Bearer secret" ∷ []) ≡ true
        → (has_prefix "Bearer secret" "Bearer " ≡ true)
          × (trim_space (drop_chars 7 "Bearer secret") ≡ "secret"))
bearer_auth-agree_example =
    bearer_auth-agree "secret" "/v1/traces" "Bearer secret" [] (λ p. cc) (λ p. cc)

bearer_lem : bearer_auth_middleware "secret" "/v1/traces" "Bearer  secret" ≡ true
unfolding bearer_auth_middleware
bearer_lem = refl

base_coverage_complete_example :
    ((base_coverage export (live_at true arrival)).status ≡ "complete")
    ↔ ((true ≡ true) × (lost_attributes export + lost_links export ≡ 0))
unfolding lost_attributes lost_links
base_coverage_complete_example =
    base_coverage_complete export (live_at true arrival) (omega arith) (omega arith)

-- ===== src/Rules/Absence.antt =====
-- The checks of internal/rules/engine.go that conclude from what is not there, and the correlation that
-- they look up. `none` stands for a panic: the read of an element that the slice does not have.
use async_trace_doctor.Common.{
  ℕ, String, Bool, not, ◌&&◌, ◌||◌, Option, none, some, List, [], ◌∷◌, get_elem?, nat_eq, any, ◌==◌,
}
use async_trace_doctor.Model.{
  Duration, Span, is_producer, is_consumer, system, destination, environment, service_namespace,
  destination_namespace, server_address,
}
use async_trace_doctor.Correlation.{Correlation, Result}
use async_trace_doctor.Config.{Rule, ExpectedEdge}
use async_trace_doctor.Rules.Scope.{applies}
use async_trace_doctor.Rules.Windows.{AuditContext, correlation_window_closed}

-- The case orphan_producer of run appends a finding for the span of position `i`.
unfoldable pub is_orphan_producer : Rule → Result → Duration → AuditContext → ℕ → Span → Bool
unfolding is_producer applies correlation_window_closed
is_orphan_producer r corr window audit i s =
    is_producer s
    && applies r s
    && not (corr.producer_matched i)
    && correlation_window_closed s window audit

-- The case orphan_consumer.
unfoldable pub is_orphan_consumer : Rule → Result → Duration → AuditContext → ℕ → Span → Bool
unfolding is_consumer applies correlation_window_closed
is_orphan_consumer r corr window audit i s =
    is_consumer s
    && applies r s
    && not (corr.consumer_matched i)
    && nat_eq (corr.context_references i) 0
    && correlation_window_closed s window audit

-- correlationForConsumer: the inner `none` is the nil pointer.
unfoldable pub correlation_for_consumer : ℕ → Result → Option (Option Correlation)
correlation_for_consumer index result = elim (result.correlation_by_consumer index) [
  | [] ↦ some none
  | k ∷ rest ↦ elim (get_elem? result.correlations k) [ none ↦ none | some x ↦ some (some x) ]
]

unfoldable pub wildcard_match : String → String → Bool
wildcard_match expected actual = expected == "*" || expected == actual

unfoldable pub optional_match : String → String → Bool
optional_match expected actual = expected == "" || expected == "*" || expected == actual

unfoldable pub producer_matches : ExpectedEdge → Span → Bool
unfolding is_producer wildcard_match optional_match
producer_matches expected span =
    is_producer span
    && wildcard_match expected.producer span.service
    && wildcard_match expected.system (system span)
    && wildcard_match expected.destination (destination span)
    && optional_match expected.environment (environment span)
    && optional_match expected.service_namespace (service_namespace span)
    && optional_match expected.destination_namespace (destination_namespace span)
    && optional_match expected.broker_address (server_address span)

unfoldable pub has_eligible_producer : ExpectedEdge → List Span → Duration → AuditContext → Bool
unfolding producer_matches correlation_window_closed
has_eligible_producer expected spans window audit =
    any (λ span. producer_matches expected span && correlation_window_closed span window audit)
      spans

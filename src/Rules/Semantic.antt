-- ===== src/Rules/Semantic.antt =====
-- The first case of run in internal/rules/engine.go: the checks of one span at a time. What a finding
-- says of the span is not modelled, only whether there is one.
use async_trace_doctor.Common.{
  ℕ, String, Bool, false, not, ◌&&◌, ◌||◌, any, length, ltb, nat_eq, ◌==◌, if◌then◌else◌,
}
use async_trace_doctor.Model.{
  is_before, Span, link_has_valid_context, has_valid_trace_id, has_valid_span_id, operation, system,
  destination, is_consumer,
}
use async_trace_doctor.Correlation.{Result}
use async_trace_doctor.Config.{Rule, contains}
use async_trace_doctor.Rules.Scope.{
  is_messaging, looks_messaging, valid_operation, needs_destination, expected_kinds, applies,
  timestamp_missing,
}

-- invalid_context_reference: a link without a valid context, or a parent that is set and invalid
unfoldable pub invalid_context_reference : Span → Bool
unfolding link_has_valid_context has_valid_trace_id has_valid_span_id
invalid_context_reference s =
    any (λ link. not (link_has_valid_context link)) s.links
    || (not (s.parent_span_id == "")
        && (not (has_valid_trace_id s.trace_id) || not (has_valid_span_id s.parent_span_id)))

-- `bad` for the check, at the span of position `i`; no other check reaches the loop.
unfoldable pub is_bad : String → Result → ℕ → Span → Bool
unfolding looks_messaging needs_destination valid_operation expected_kinds contains
    invalid_context_reference timestamp_missing system destination operation is_consumer
    has_valid_trace_id has_valid_span_id
is_bad check corr i s =
    if check == "missing_service_name"
    then s.service == ""
    else if check == "missing_messaging_system"
    then looks_messaging s && system s == ""
    else if check == "missing_destination"
    then needs_destination (operation s) && destination s == ""
    else if check == "invalid_operation"
    then not (valid_operation (operation s))
    else if check == "invalid_span_kind"
    then ltb 0 (length (expected_kinds (operation s)))
      && not (contains (expected_kinds (operation s)) s.kind)
    else if check == "invalid_span_identity"
    then not (has_valid_trace_id s.trace_id) || not (has_valid_span_id s.span_id)
    else if check == "invalid_timestamps"
    then timestamp_missing s.start || timestamp_missing s.end || is_before s.end s.start
    else if check == "invalid_context_reference"
    then invalid_context_reference s
    else if check == "missing_consumer_context"
    then operation s == "process" && nat_eq (corr.context_references i) 0
    else if check == "unresolved_consumer_context"
    then is_consumer s && ltb 0 (corr.unresolved_references i)
    else false

-- The loop's body appends a finding for the span.
unfoldable pub is_flagged : Rule → Result → ℕ → Span → Bool
unfolding is_messaging applies is_bad
is_flagged r corr i s =
    (is_messaging s || r.check == "missing_messaging_system")
    && applies r s
    && is_bad r.check corr i s

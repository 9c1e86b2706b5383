-- ===== src/Rules/Scope.antt =====
-- The helpers of internal/rules/engine.go that say which spans a rule is about.
use async_trace_doctor.Common.{
  String, Bool, true, not, ◌&&◌, ◌||◌, List, [], ◌∷◌, any, ◌==◌, if◌then◌else◌,
}
use async_trace_doctor.Common.Texts.{equal_fold}
use async_trace_doctor.Model.{
  Time, is_zero, unix_epoch, Span, operation, system, destination, environment,
}
use async_trace_doctor.Common.{nat_eq}
use async_trace_doctor.Config.{Rule, contains}

unfoldable pub is_messaging : Span → Bool
unfolding system operation
is_messaging s = not (system s == "") || not (operation s == "")

unfoldable pub looks_messaging : Span → Bool
unfolding operation
looks_messaging s = not (operation s == "") || s.kind == "PRODUCER" || s.kind == "CONSUMER"

unfoldable pub valid_operation : String → Bool
unfolding contains
valid_operation x = contains ("create" ∷ "send" ∷ "receive" ∷ "process" ∷ "settle" ∷ []) x

unfoldable pub needs_destination : String → Bool
needs_destination x =
    x == "create" || x == "send" || x == "receive" || x == "process" || x == "settle"

unfoldable pub expected_kinds : String → List String
expected_kinds op =
    if op == "create"
    then "PRODUCER" ∷ []
    else if op == "send"
    then "PRODUCER" ∷ "CLIENT" ∷ []
    else if op == "receive" || op == "settle"
    then "CLIENT" ∷ []
    else if op == "process"
    then "CONSUMER" ∷ []
    else []

unfoldable pub matches_scope : List String → String → Bool
matches_scope [] actual = true
matches_scope (v ∷ values) actual = any (λ value. value == "*" || value == actual) (v ∷ values)

unfoldable pub matches_scope_fold : List String → String → Bool
unfolding equal_fold
matches_scope_fold [] actual = true
matches_scope_fold (v ∷ values) actual =
    any (λ value. value == "*" || equal_fold value actual) (v ∷ values)

unfoldable pub applies : Rule → Span → Bool
unfolding matches_scope matches_scope_fold operation system destination environment
applies r s =
    matches_scope_fold r.applies_to.operations (operation s)
    && matches_scope_fold r.applies_to.systems (system s)
    && matches_scope r.applies_to.services s.service
    && matches_scope r.applies_to.destinations (destination s)
    && matches_scope r.applies_to.environments (environment s)

unfoldable pub timestamp_missing : Time → Bool
timestamp_missing value = is_zero value || nat_eq value unix_epoch

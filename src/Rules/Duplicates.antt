-- ===== src/Rules/Duplicates.antt =====
-- The case duplicate_processing of run in internal/rules/engine.go. `none` stands for a panic.
use Prim.Native.String.{◌++◌}
use async_trace_doctor.Common.{
  ℕ, String, Bool, not, ◌&&◌, Option, none, some, List, [], ◌∷◌, ◌++◌ as append, length, filter_by,
  map, ◌>>=◌, collect, ◌==◌, if◌then◌else◌,
}
use async_trace_doctor.Common.Int.{pos, ltb_ℤ}
use async_trace_doctor.Common.Dict
use async_trace_doctor.Common.Dict.{Dict}
use async_trace_doctor.Common.Texts.{join}
use async_trace_doctor.Model.{
  Span, empty_span, operation, system, destination, consumer_group, subscription, message_identity,
  failed,
}
use async_trace_doctor.Correlation.{high}
use async_trace_doctor.Config.{Rule, Settings, contains}
use async_trace_doctor.Rules.Scope.{applies}
use async_trace_doctor.Rules.Windows.{split_attempt_windows}
use async_trace_doctor.Rules.Findings.{Fact, word, number, count, Finding, finding}

-- seenSpans and groups
abbrev pub Grouping : Type 0
Grouping = List String × Dict (List Span)

-- m[k] of a map to slices
abbrev pub spans_of : Option (List Span) → List Span
spans_of none = []
spans_of (some g) = g

unfoldable pub attempt_key : Span → String
unfolding join message_identity
attempt_key s = join "\0" (
    s.service
    ∷ system s
    ∷ destination s
    ∷ consumer_group s
    ∷ subscription s
    ∷ (message_identity s).0
    ∷ (message_identity s).1
    ∷ [])

-- The span is an attempt at a message that carries an identity, in the rule's scope.
unfoldable pub is_attempt : Rule → Span → Bool
unfolding operation message_identity applies
is_attempt r s = operation s == "process" && not ((message_identity s).1 == "") && applies r s

-- The body of the loop over the spans.
unfoldable pub group_span : Rule → Span → Grouping → Grouping
unfolding is_attempt attempt_key contains Dict.get Dict.put
group_span r s (seen, groups) =
    let span_key = s.trace_id ++ ("\0" ++ s.span_id) in
    let k = attempt_key s in
    if not (is_attempt r s)
    then (seen, groups)
    else if not (s.trace_id == "") && not (s.span_id == "") && contains seen span_key
    then (seen, groups)
    else (span_key ∷ seen, Dict.put k (append (spans_of (Dict.get k groups)) (s ∷ [])) groups)

unfoldable pub group_spans : Rule → List Span → Grouping → Grouping
unfolding group_span
group_spans r [] st = st
group_spans r (s ∷ rest) st = group_spans r rest (group_span r s st)

unfoldable pub duplicate_evidence : Settings → List Span → List Span → Span → Dict Fact
unfolding message_identity failed
duplicate_evidence settings attempts successes s =
    ("attempt_count", count (length attempts))
    ∷ ("successful_processing_count", count (length successes))
    ∷ ("failed_retry_count", count (length (filter_by failed attempts)))
    ∷ ("threshold", number settings.duplicate_threshold)
    ∷ ("identity_kind", word (message_identity s).0)
    ∷ ("consumer_group", word (consumer_group s))
    ∷ []

unfoldable pub duplicate_finding : Rule → Settings → List Span → List Span → Span → Finding
unfolding finding duplicate_evidence
duplicate_finding r settings attempts successes s =
    finding r empty_span (some s) "messaging_attributes" high
      (duplicate_evidence settings attempts successes s)

-- successes[0]
abbrev pub first_span : List Span → Option Span
first_span [] = none
first_span (s ∷ rest) = some s

-- The attempts that have not failed.
unfoldable pub successes_of : List Span → List Span
unfolding failed
successes_of attempts = filter_by (λ attempt. not (failed attempt)) attempts

abbrev pub exceeds : Settings → List Span → Bool
exceeds settings successes = ltb_ℤ settings.duplicate_threshold (pos (length successes))

-- The body of the loop over the windows of a group.
unfoldable pub window_step : Rule → Settings → ℕ → List Span → Option (List Finding)
unfolding successes_of duplicate_finding
window_step r settings i attempts =
    let successes = successes_of attempts in
    if not (exceeds settings successes)
    then some []
    else first_span successes >>= λ s. some (duplicate_finding r settings attempts successes s ∷ [])

module _ (sort_by_start : List Span → List Span) where
  unfoldable pub group_step : Rule → Settings → ℕ → List Span → Option (List Finding)
  unfolding window_step split_attempt_windows
  group_step r settings i g =
      collect (window_step r settings)
        (split_attempt_windows sort_by_start g settings.correlation_window)

  unfoldable pub duplicate_findings : Rule → Settings → List Span → Option (List Finding)
  unfolding group_spans group_step
  duplicate_findings r settings spans =
      collect (group_step r settings) (map (λ entry. entry.1) (group_spans r spans ([], [])).1)

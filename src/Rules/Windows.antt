-- ===== src/Rules/Windows.antt =====
-- The event-time windows of internal/rules/engine.go. sort.Slice keeps no order between equal elements,
-- so the sorting is a parameter.
use async_trace_doctor.Common.{Bool, true, false, not, ◌&&◌, List, [], ◌∷◌, ◌++◌, if◌then◌else◌}
use async_trace_doctor.Common.Int.{ltb_ℤ}
use async_trace_doctor.Model.{
  Time, Duration, is_zero, is_before, is_after, add_duration, sub_time, Span,
}

pub record AuditContext : Type 0 where
  pub finalized : Bool
  pub coverage_complete : Bool
  pub watermark : Time

-- The loop of eventWatermark.
unfoldable pub watermark_from : Time → List Span → Time
watermark_from w [] = w
watermark_from w (s ∷ rest) = watermark_from (if is_after s.end w then s.end else w) rest

unfoldable pub event_watermark : List Span → Time
unfolding watermark_from
event_watermark spans = watermark_from 0 spans

unfoldable pub correlation_window_closed : Span → Duration → AuditContext → Bool
unfolding add_duration
correlation_window_closed s window audit =
    if is_zero s.end
    then false
    else if audit.finalized
    then true
    else not (is_zero audit.watermark)
      && not (is_before audit.watermark (add_duration s.end window))

-- An attempt starts a new group after the previous one.
unfoldable pub starts_group : Duration → Span → Span → Bool
unfolding sub_time
starts_group window previous span =
    not (is_zero span.start)
    && not (is_zero previous.start)
    && ltb_ℤ window (sub_time span.start previous.start)

-- The loop of splitAttemptWindows, at the last group and its last span.
unfoldable pub attempt_loop :
    Duration → List (List Span) → List Span → Span → List Span → List (List Span)
unfolding starts_group
attempt_loop window groups group previous [] = groups ++ group ∷ []
attempt_loop window groups group previous (span ∷ rest) = elim (starts_group window previous span) [
  | true ↦ attempt_loop window (groups ++ group ∷ []) (span ∷ []) span rest
  | false ↦ attempt_loop window groups (group ++ span ∷ []) span rest
]

unfoldable pub split_sorted : Duration → List Span → List (List Span)
unfolding attempt_loop
split_sorted window [] = []
split_sorted window (span ∷ rest) = attempt_loop window [] (span ∷ []) span rest

-- splitAttemptWindows; `sort` is the sorting by start.
unfoldable pub split_attempt_windows :
    (List Span → List Span) → List Span → Duration → List (List Span)
unfolding split_sorted
split_attempt_windows sort [] window = []
split_attempt_windows sort (s ∷ spans) window = split_sorted window (sort (s ∷ spans))

-- ===== src/Rules/Watermarks.antt =====
-- Event time in internal/rules/engine.go: a closed correlation window stays closed.
use async_trace_doctor.Common.{
  ℕ, ◌≡◌, ◌≤◌, refl, Bool, true, false, not, ◌&&◌, List, [], ◌∷◌, ◌++◌, All, ltb, nat_eq,
  if◌then◌else◌, Bool-cases, inl, inr, arith,
}
use async_trace_doctor.Model.{Time, Duration, add_duration, is_zero, is_after, Span}
use async_trace_doctor.Rules.Windows.{
  AuditContext, watermark_from, event_watermark, correlation_window_closed,
}

watermark_from-ge : (w : Time) (spans : List Span) → w ≤ watermark_from w spans
unfolding watermark_from
watermark_from-ge w [] = omega arith
watermark_from-ge w (s ∷ rest) = elim (Bool-cases (is_after s.end w)) [
  | inl later ↦
      rw (later, watermark_from)
        (step w s.end (watermark_from s.end rest) later (watermark_from-ge s.end rest))
  | inr earlier ↦ rw (earlier, watermark_from) (watermark_from-ge w rest)
]
  where
    step : (w e n : ℕ) → ltb w e ≡ true → e ≤ n → w ≤ n
    step w e n l h = ground arith

watermark_from-append :
    (w : Time) (xs ys : List Span)
    → watermark_from w (xs ++ ys) ≡ watermark_from (watermark_from w xs) ys
unfolding watermark_from
watermark_from-append w [] ys = refl
watermark_from-append w (s ∷ rest) ys =
    watermark_from-append (if is_after s.end w then s.end else w) rest ys

ends_before :
    (w : Time) (spans : List Span) → All (λ (s : Span). s.end ≤ watermark_from w spans) spans
unfolding watermark_from
ends_before w [] = tt
ends_before w (s ∷ rest) = (
  elim (Bool-cases (is_after s.end w)) [
    | inl later ↦ rw (later, watermark_from) (watermark_from-ge s.end rest)
    | inr earlier ↦
        rw (earlier, watermark_from)
          (step w s.end (watermark_from w rest) earlier (watermark_from-ge w rest))
  ],
  ends_before (if is_after s.end w then s.end else w) rest,
)
  where
    step : (w e n : ℕ) → ltb w e ≡ false → w ≤ n → e ≤ n
    step w e n l h = ground arith

abbrev pub live_at : Bool → Time → AuditContext
live_at coverage_complete watermark = record {
  finalized = false;
  coverage_complete = coverage_complete;
  watermark = watermark;
}

-- No span of the input ends after the watermark of the input.
pub event_watermark-ge_ends :
    (spans : List Span) → All (λ (s : Span). s.end ≤ event_watermark spans) spans
unfolding event_watermark
event_watermark-ge_ends spans = ends_before 0 spans

-- A correlation window that is closed for a span by the watermark of a live snapshot is still closed
-- for it by the watermark of any snapshot that begins with the same spans.
pub closed_window_persists :
    (s : Span) (window : Duration) (complete : Bool) (xs ys : List Span)
    → correlation_window_closed s window (live_at complete (event_watermark xs)) ≡ true
    → correlation_window_closed s window (live_at complete (event_watermark (xs ++ ys))) ≡ true
unfolding correlation_window_closed event_watermark
closed_window_persists s window complete xs ys h = elim (Bool-cases (is_zero s.end)) [
  | inl unset ↦ absurd (cc (rw unset at h))
  | inr set ↦
      let b = rw set at h in
      rw (set, watermark_from-append 0 xs ys)
        (later (watermark_from 0 xs) (watermark_from (watermark_from 0 xs) ys)
          (add_duration s.end window) (watermark_from-ge (watermark_from 0 xs) ys) b)
]
  where
    later :
        (w v n : ℕ)
        → w ≤ v
        → (not (nat_eq w 0) && not (ltb w n)) ≡ true
        → (not (nat_eq v 0) && not (ltb v n)) ≡ true
    later w v n l k = ground arith

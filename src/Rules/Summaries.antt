-- ===== src/Rules/Summaries.antt =====
-- Summary of internal/model/model.go, and summary of internal/rules/engine.go.
use async_trace_doctor.Common.{
  ℕ, suc, ◌/◌, Bool, not, ◌&&◌, List, [], ◌∷◌, length, ltb, if◌then◌else◌,
}
use async_trace_doctor.Common.Int.{ℤ, pos, negsuc, neg}
use async_trace_doctor.Model.{Duration, Span, is_producer, is_consumer}
use async_trace_doctor.Correlation.{Result}
use async_trace_doctor.Rules.Scope.{is_messaging}
use async_trace_doctor.Rules.Windows.{AuditContext, correlation_window_closed}
use async_trace_doctor.Rules.Findings.{Finding}

-- The ratio is a quotient of two numbers, before Go rounds it.
pub record Summary : Type 0 where
  pub audited_spans : ℕ
  pub messaging_spans : ℕ
  pub violations : ℕ
  pub broken_links : ℕ
  pub orphan_producers : ℕ
  pub orphan_consumers : ℕ
  pub context_completeness_ratio : ℕ × ℕ
  pub processing_millis : ℤ

-- d.Milliseconds()
unfoldable pub milliseconds : Duration → ℤ
milliseconds (pos n) = pos (n / 1000000)
milliseconds (negsuc n) = neg (pos (suc n / 1000000))

-- What the loop over the spans counts.
pub record Tally : Type 0 where
  pub messaging : ℕ
  pub consumers : ℕ
  pub strong : ℕ
  pub broken : ℕ
  pub lone_producers : ℕ
  pub lone_consumers : ℕ

abbrev pub no_spans : Tally
no_spans = record {
  messaging = 0;
  consumers = 0;
  strong = 0;
  broken = 0;
  lone_producers = 0;
  lone_consumers = 0;
}

-- if b { n++ }
abbrev pub add_if : Bool → ℕ → ℕ
add_if b n = if b then suc n else n

-- The body of the loop, at the span of position `i`.
unfoldable pub tally_span : Result → Duration → AuditContext → ℕ → Span → Tally → Tally
unfolding is_messaging correlation_window_closed is_producer is_consumer
tally_span c window audit i sp t =
    let has_context = ltb 0 (c.context_references i) in
    let closed = correlation_window_closed sp window audit in
    record {
      messaging = add_if (is_messaging sp) t.messaging;
      consumers = add_if (is_consumer sp) t.consumers;
      strong = add_if (is_consumer sp && has_context) t.strong;
      broken = add_if (is_consumer sp && not has_context) t.broken;
      lone_producers =
          add_if (is_producer sp && not (c.producer_matched i) && closed) t.lone_producers;
      lone_consumers =
          add_if (is_consumer sp && not (c.consumer_matched i) && closed) t.lone_consumers;
    }

unfoldable pub tally_spans : Result → Duration → AuditContext → ℕ → List Span → Tally → Tally
unfolding tally_span
tally_spans c window audit i [] t = t
tally_spans c window audit i (sp ∷ rest) t =
    tally_spans c window audit (suc i) rest (tally_span c window audit i sp t)

-- The zero value of the ratio is 0 of 1.
unfoldable pub summary :
    List Span → Result → List Finding → Duration → Duration → AuditContext → Summary
unfolding tally_spans milliseconds
summary spans c findings elapsed window audit =
    let t : Tally = tally_spans c window audit 0 spans no_spans in
    record {
      audited_spans = length spans;
      messaging_spans = t.messaging;
      violations = length findings;
      broken_links = t.broken;
      orphan_producers = t.lone_producers;
      orphan_consumers = t.lone_consumers;
      context_completeness_ratio = if ltb 0 t.consumers then (t.strong, t.consumers) else (0, 1);
      processing_millis = milliseconds elapsed;
    }

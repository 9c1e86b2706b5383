-- ===== src/Rules/Total.antt =====
-- An audit returns a report.
use async_trace_doctor.Common.{
  ℕ, ◌≡◌, refl, Bool, true, false, not, Option, none, some, List, [], ◌∷◌, All, length,
  if◌then◌else◌, ◌==◌, ◌>>=◌, Returns, Returns->>=, collect-Returns, collect-Returns_where, subst,
  Bool-cases, inl, inr, arith,
}
use async_trace_doctor.Common.Int.{ℤ, pos, ltb_ℤ, leb_ℤ}
use async_trace_doctor.Model.{Time, Duration, Span, is_consumer}
use async_trace_doctor.Correlation.{Correlation, Result, correlate}
use async_trace_doctor.Correlation.Maps.{joins_consumer}
use async_trace_doctor.Correlation.Total.{IsServed, correlate-Returns}
use async_trace_doctor.Config.{Config, Rule, Settings, contains, validate}
use async_trace_doctor.Config.Validity.{validate-IsValid}
use async_trace_doctor.Rules.Windows.{AuditContext}
use async_trace_doctor.Rules.Absence.{correlation_for_consumer}
use async_trace_doctor.Rules.Orphans.{first_of, correlation_for_consumer-first_of}
use async_trace_doctor.Rules.Semantic.{is_flagged}
use async_trace_doctor.Rules.Findings.{Finding}
use async_trace_doctor.Rules.Edges.{build_topology}
use async_trace_doctor.Rules.Cases.{
  candidate_finding, semantic_finding, semantic_step, orphan_producer_step, orphan_consumer_step,
  batch_step, latency_step, skew_step, is_slow, is_skewed,
}
use async_trace_doctor.Rules.Duplicates.{
  successes_of, first_span, window_step, group_step, duplicate_findings, duplicate_finding,
}
use async_trace_doctor.Rules.Engine.{
  semantic_checks, run, run_rules, audit_with, audit_input, audit_window, input_context,
  window_context,
}
use async_trace_doctor.Rules.InRange.{
  InRange, correlate-InRange, build_topology-Returns, topology_findings-Returns,
  pair_finding-Returns,
}

module _ {A : Type 0} where
  either-Returns :
      (b : Bool) (o p : Option A) → Returns o → Returns p → Returns (if b then o else p)
  either-Returns true o p h k = h
  either-Returns false o p h k = k

module _ (spans : List Span) (window : Duration) {corr : Result}
    (e : correlate spans window ≡ some corr) where
  first_of-InRange :
      (i : ℕ) (xs : List Correlation) {x : Correlation}
      → All (InRange spans) xs
      → first_of i xs ≡ some x
      → InRange spans x
  unfolding first_of
  first_of-InRange i [] h k = absurd (cc k)
  first_of-InRange i (y ∷ ys) {x} h k = elim (Bool-cases (joins_consumer i y)) [
    | inl mine ↦
        let p : some y ≡ some x = rw (mine, first_of) at k in
        let q : y ≡ x = cc p in subst (InRange spans) q h.0
    | inr other ↦ first_of-InRange i ys h.1 (rw (other, first_of) at k)
  ]

  candidate_finding-Returns :
      (r : Rule) (s : Span) (f : Finding) (o : Option Correlation)
      → ((x : Correlation) → o ≡ some x → InRange spans x)
      → Returns (candidate_finding r spans s f o)
  unfolding candidate_finding
  candidate_finding-Returns r s f none h = (f, refl)
  candidate_finding-Returns r s f (some x) h =
      let ((p, ep), _) = h x refl in rw (candidate_finding, ep) (_, refl)

  semantic_finding-Returns :
      (r : Rule) (i : ℕ) (s : Span) → Returns (semantic_finding r spans corr i s)
  unfolding semantic_finding
  semantic_finding-Returns r i s =
      either-Returns (r.check == "unresolved_consumer_context") _ _ (_, refl)
        (either-Returns (not (r.check == "missing_consumer_context")) _ _ (_, refl)
          (Returns->>= (correlation_for_consumer i corr) _
            (_, correlation_for_consumer-first_of spans window e i)
            (λ o k. candidate_finding-Returns r s _ o (λ x p.
              first_of-InRange i corr.correlations (correlate-InRange spans window e)
                (first x k p)))))
    where
      first :
          {o : Option Correlation} (x : Correlation)
          → correlation_for_consumer i corr ≡ some o
          → o ≡ some x
          → first_of i corr.correlations ≡ some x
      first x k p = cc (k, p, correlation_for_consumer-first_of spans window e i)

  semantic_step-Returns : (r : Rule) (i : ℕ) (s : Span) → Returns (semantic_step r spans corr i s)
  unfolding semantic_step
  semantic_step-Returns r i s =
      either-Returns (is_flagged r corr i s) _ _
        (Returns->>= (semantic_finding r spans corr i s) _ (semantic_finding-Returns r i s)
          (λ f _. (_, refl)))
        ([], refl)

  latency_step-Returns :
      (r : Rule) (settings : Settings) (i : ℕ) (x : Correlation)
      → InRange spans x
      → Returns (latency_step r settings spans i x)
  unfolding latency_step
  latency_step-Returns r settings i x h =
      either-Returns (not (is_slow settings x)) _ _ ([], refl) (pair_finding-Returns spans r _ x h)

  skew_step-Returns :
      (r : Rule) (settings : Settings) (i : ℕ) (x : Correlation)
      → InRange spans x
      → Returns (skew_step r settings spans i x)
  unfolding skew_step
  skew_step-Returns r settings i x h =
      either-Returns (not (is_skewed settings x)) _ _ ([], refl)
        (pair_finding-Returns spans r _ x h)

-- A window has more successes than a threshold that is not negative only if it has one.
window_step-Returns :
    (r : Rule) (settings : Settings)
    → leb_ℤ (pos 0) settings.duplicate_threshold ≡ true
    → (i : ℕ) (attempts : List Span) → Returns (window_step r settings i attempts)
unfolding window_step
window_step-Returns r settings h i attempts = first (successes_of attempts)
  where
    none_more : (d : ℤ) → leb_ℤ (pos 0) d ≡ true → ltb_ℤ d (pos 0) ≡ false
    none_more d k = ground arith

    first :
        (successes : List Span)
        → Returns (
            if not (ltb_ℤ settings.duplicate_threshold (pos (length successes)))
            then some []
            else first_span successes >>= λ s.
                some (duplicate_finding r settings attempts successes s ∷ []))
    first [] = rw (none_more settings.duplicate_threshold h) ([], refl)
    first (s ∷ rest) =
        either-Returns (not (ltb_ℤ settings.duplicate_threshold (pos (length (s ∷ rest))))) _ _
          ([], refl) (_, refl)

module _ (sort_by_start : List Span → List Span)
    (sort : (Finding → Finding → Bool) → List Finding → List Finding) (c : Config)
    (threshold : leb_ℤ (pos 0) c.settings.duplicate_threshold ≡ true) (spans : List Span)
    (audit : AuditContext) where
  duplicate_findings-Returns :
      (r : Rule) → Returns (duplicate_findings sort_by_start r c.settings spans)
  unfolding duplicate_findings group_step
  duplicate_findings-Returns r =
      collect-Returns _ (λ i g. collect-Returns _ (window_step-Returns r c.settings threshold) _) _

  module _ {corr : Result} (e : correlate spans c.settings.correlation_window ≡ some corr) where
    run-Returns : (r : Rule) → Returns (run sort_by_start sort c r spans corr audit)
    unfolding run orphan_producer_step orphan_consumer_step batch_step
    run-Returns r =
        let window : Duration = c.settings.correlation_window in
        let ranges : All (InRange spans) corr.correlations = correlate-InRange spans window e in
        either-Returns (contains semantic_checks r.check) _ _
          (collect-Returns _ (semantic_step-Returns spans window e r) spans)
          (either-Returns (r.check == "orphan_producer") _ _
            (collect-Returns _ (λ i s. (_, refl)) spans)
            (either-Returns (r.check == "orphan_consumer") _ _
              (collect-Returns _ (λ i s. (_, refl)) spans)
              (either-Returns (r.check == "batch_links_incomplete") _ _
                (collect-Returns _ (λ i s. (_, refl)) spans)
                (either-Returns (r.check == "duplicate_processing") _ _
                  (duplicate_findings-Returns r)
                  (either-Returns (r.check == "queue_latency_high") _ _
                    (collect-Returns_where (InRange spans) _
                      (latency_step-Returns spans window e r c.settings) corr.correlations ranges)
                    (either-Returns (r.check == "clock_skew") _ _
                      (collect-Returns_where (InRange spans) _
                        (skew_step-Returns spans window e r c.settings) corr.correlations ranges)
                      (either-Returns (r.check == "runtime_topology_mismatch") _ _
                        (topology_findings-Returns spans r corr window audit ranges c.topology)
                        ([], refl))))))))

    run_rules-Returns :
        (rules : List Rule) → Returns (run_rules sort_by_start sort c rules spans corr audit)
    unfolding run_rules
    run_rules-Returns rules =
        collect-Returns _ (λ i r. either-Returns r.enabled _ _ (run-Returns r) ([], refl)) rules

  audit_with-Returns :
      (now : Time) (elapsed : Duration)
      → Returns (correlate spans c.settings.correlation_window)
      → Returns (audit_with sort_by_start sort now elapsed c spans audit)
  unfolding audit_with
  audit_with-Returns now elapsed h =
      Returns->>= (correlate spans c.settings.correlation_window) _ h (λ corr e.
        Returns->>= (run_rules sort_by_start sort c c.rules spans corr audit) _
          (run_rules-Returns e c.rules)
          (λ found _.
            Returns->>= (build_topology spans corr.correlations) _
              (build_topology-Returns spans corr.correlations
                (correlate-InRange spans c.settings.correlation_window e))
              (λ topology _. (_, refl))))

-- An audit of an accepted configuration returns a report, offline and live, for spans that Correlate
-- serves: no producer is at a distance of 2^63 - 1 nanoseconds from a consumer, and no consumer declares a
-- batch of more than 2^44 messages. The sorts are any functions.
pub audit-Returns :
    (sort_by_start : List Span → List Span)
    (sort : (Finding → Finding → Bool) → List Finding → List Finding) (now : Time)
    (elapsed : Duration) (c : Config) (spans : List Span)
    → validate c ≡ none
    → All (λ s. is_consumer s ≡ true → IsServed spans s) spans
    → Returns (audit_input sort_by_start sort now elapsed c spans)
      × Returns (audit_window sort_by_start sort now elapsed c spans)
unfolding audit_input audit_window
audit-Returns sort_by_start sort now elapsed c spans valid served =
    let h = correlate-Returns spans c.settings.correlation_window served in
    let t =
      positive c.settings.duplicate_threshold ((validate-IsValid c).0 valid).settings.threshold in
    (
      audit_with-Returns sort_by_start sort c t spans (input_context c spans) now elapsed h,
      audit_with-Returns sort_by_start sort c t spans (window_context spans) now elapsed h,
    )
  where
    positive : (d : ℤ) → ltb_ℤ d (pos 1) ≡ false → leb_ℤ (pos 0) d ≡ true
    positive d h = ground arith

-- ===== src/Rules/Doubt.antt =====
-- A live audit never calls a conclusion from absence sufficient.
use async_trace_doctor.Common.{
  ◌≡◌, ◌≢◌, refl, Bool, true, false, some, List, [], ◌∷◌, All, All-map, map, ◌==◌, Holds, Holds->>=,
  Holds-if, Holds-some, collect-Holds, eq_iff, Bool-cases, inl, inr, String,
}
use async_trace_doctor.Model.{Time, Duration, Span}
use async_trace_doctor.Correlation.{low, Result, correlate}
use async_trace_doctor.Config.{Config, Rule, contains}
use async_trace_doctor.Rules.Windows.{AuditContext}
use async_trace_doctor.Rules.Findings.{Finding, finding_less}
use async_trace_doctor.Rules.Edges.{build_topology}
use async_trace_doctor.Rules.Engine.{
  Report, semantic_checks, degrade_finding, degrade_findings, run, run_rules, audit_with,
  audit_window, window_context,
}
use async_trace_doctor.Rules.Caution.{
  rests_on_absence, IsCautious, anything, semantic_step-IsCautious, orphan_producer_step-IsCautious,
  orphan_consumer_step-IsCautious, batch_step-IsCautious, duplicate_findings-IsCautious,
  latency_step-IsCautious, skew_step-IsCautious, topology_findings-IsCautious,
}

-- A conclusion from absence is not sufficient, and of low confidence.
abbrev pub IsDoubtful : Finding → Type 0
IsDoubtful f =
    rests_on_absence f.correlation_method ≡ true
    → (f.evidence_state ≢ "sufficient") × (f.confidence ≡ low)

pub unequal : (s t : String) → (s == t) ≡ false → s ≢ t
unequal s t n p = cc (n, (eq_iff s t).1 p)

IsCautious-IsDoubtful : (f : Finding) → IsCautious f → IsDoubtful f
IsCautious-IsDoubtful f h absent =
    let (state, confidence) = h absent in
    ((λ s. unequal "insufficient" "sufficient" refl (cc (state, s))), confidence)

degrade_finding-IsDoubtful : (f : Finding) → IsCautious f → IsDoubtful (degrade_finding f)
unfolding degrade_finding
degrade_finding-IsDoubtful f h = elim (Bool-cases (f.evidence_state == "insufficient")) [
  | inr other ↦ rw (other, degrade_finding) (IsCautious-IsDoubtful f h)
  | inl marked ↦
      rw (marked, degrade_finding) (λ absent. (unequal "degraded" "sufficient" refl, (h absent).1))
]

module _ {ℓ κ} {A : Type ℓ} (P : A → Type κ) where
  pub All-of_map :
      {B : Type ℓ} (Q : B → Type κ) (f : B → A)
      → ((b : B) → Q b → P (f b))
      → (xs : List B) → All Q xs
      → All P (map f xs)
  All-of_map Q f h [] k = tt
  All-of_map Q f h (x ∷ xs) k = (h x k.0, All-of_map Q f h xs k.1)

degrade_findings-IsDoubtful :
    (status : String) (fs : List Finding)
    → All IsCautious fs
    → All IsDoubtful (degrade_findings status fs)
unfolding degrade_findings
degrade_findings-IsDoubtful status fs h = elim (Bool-cases (status == "degraded")) [
  | inl degraded ↦
      rw (degraded, degrade_findings)
        (All-of_map IsDoubtful IsCautious degrade_finding degrade_finding-IsDoubtful fs h)
  | inr whole ↦ rw (whole, degrade_findings) (All-map IsCautious-IsDoubtful fs h)
]

module _ (sort_by_start : List Span → List Span)
    (sort : (Finding → Finding → Bool) → List Finding → List Finding) (c : Config)
    (spans : List Span) (corr : Result) (audit : AuditContext)
    (unknown : audit.coverage_complete ≡ false) where
  run-IsCautious : (r : Rule) → Holds (All IsCautious) (run sort_by_start sort c r spans corr audit)
  unfolding run
  run-IsCautious r =
      let P : List Finding → Type 0 = All IsCautious in
      let window : Duration = c.settings.correlation_window in
      Holds-if P (contains semantic_checks r.check) _ _
        (collect-Holds IsCautious _ (semantic_step-IsCautious r spans corr) spans)
        (Holds-if P (r.check == "orphan_producer") _ _
          (collect-Holds IsCautious _
            (orphan_producer_step-IsCautious r spans corr window audit unknown) spans)
          (Holds-if P (r.check == "orphan_consumer") _ _
            (collect-Holds IsCautious _
              (orphan_consumer_step-IsCautious r spans corr window audit unknown) spans)
            (Holds-if P (r.check == "batch_links_incomplete") _ _
              (collect-Holds IsCautious _ (batch_step-IsCautious r spans corr) spans)
              (Holds-if P (r.check == "duplicate_processing") _ _
                (duplicate_findings-IsCautious r c.settings sort_by_start spans)
                (Holds-if P (r.check == "queue_latency_high") _ _
                  (collect-Holds IsCautious _ (latency_step-IsCautious r spans corr c.settings)
                    corr.correlations)
                  (Holds-if P (r.check == "clock_skew") _ _
                    (collect-Holds IsCautious _ (skew_step-IsCautious r spans corr c.settings)
                      corr.correlations)
                    (Holds-if P (r.check == "runtime_topology_mismatch") _ (some [])
                      (topology_findings-IsCautious r spans corr window audit unknown c.topology)
                      tt)))))))

  run_rules-IsCautious :
      (rules : List Rule)
      → Holds (All IsCautious) (run_rules sort_by_start sort c rules spans corr audit)
  unfolding run_rules
  run_rules-IsCautious rules =
      collect-Holds IsCautious _
        (λ i r. Holds-if (All IsCautious) r.enabled _ (some []) (run-IsCautious r) tt) rules

-- In the report of a live audit no finding that concludes from what is not there (an orphan, an edge
-- without traffic, a message without its consumer) is of sufficient evidence, and each is of low
-- confidence. The sort of the findings is any that adds none.
pub audit_window-IsDoubtful :
    (sort_by_start : List Span → List Span)
    (sort : (Finding → Finding → Bool) → List Finding → List Finding)
    → ((P : Finding → Type 0) (fs : List Finding) → All P fs → All P (sort finding_less fs))
    → (now : Time) (elapsed : Duration) (c : Config) (spans : List Span) {report : Report}
    → audit_window sort_by_start sort now elapsed c spans ≡ some report
    → All IsDoubtful report.findings
unfolding audit_window audit_with window_context
audit_window-IsDoubtful sort_by_start sort keeps now elapsed c spans e =
    Holds-some (λ report. All IsDoubtful report.findings)
      (Holds->>= (λ corr. Unit {0}) (λ report. All IsDoubtful report.findings)
        (correlate spans c.settings.correlation_window) _
        (anything (correlate spans c.settings.correlation_window))
        (λ corr _.
          Holds->>= (All IsCautious) (λ report. All IsDoubtful report.findings)
            (run_rules sort_by_start sort c c.rules spans corr (window_context spans)) _
            (run_rules-IsCautious sort_by_start sort c spans corr (window_context spans) refl
              c.rules)
            (λ found h.
              Holds->>= (λ t. Unit {0}) (λ report. All IsDoubtful report.findings)
                (build_topology spans corr.correlations) _
                (anything (build_topology spans corr.correlations))
                (λ t _. keeps IsDoubtful _ (degrade_findings-IsDoubtful _ found h)))))
      e

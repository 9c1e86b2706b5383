-- ===== src/Rules/Caution.antt =====
-- Without evidence that its input is complete an audit never calls a conclusion from absence sufficient.
use async_trace_doctor.Common.{
  ℕ, ◌≡◌, refl, sym, ◌∙◌, subst, String, Bool, true, false, not, ◌&&◌, ◌||◌, Option, none, some,
  List, [], ◌∷◌, All, All-append, length, ◌==◌, if◌then◌else◌, Holds, Holds->>=, Holds-if, collect,
  collect-Holds, get_elem?, nat_eq, Bool-cases, inl, inr,
}
use async_trace_doctor.Common.Dict.{Dict}
use async_trace_doctor.Model.{Duration, Span, Link, empty_span}
use async_trace_doctor.Correlation.{
  Confidence, low, high, medium, Correlation, Result, Method, span_link, parent_context,
  messaging_attributes, kafka_partition_offset, time_window_heuristic,
}
use async_trace_doctor.Config.{Rule, Settings, ExpectedEdge, Topology}
use async_trace_doctor.Rules.Windows.{AuditContext}
use async_trace_doctor.Rules.Topology.{Edge}
use async_trace_doctor.Rules.Absence.{
  correlation_for_consumer, has_eligible_producer, is_orphan_producer, is_orphan_consumer,
}
use async_trace_doctor.Rules.Batch.{is_incomplete_batch}
use async_trace_doctor.Rules.Semantic.{is_flagged}
use async_trace_doctor.Rules.Findings.{
  Fact, Finding, finding, add_first, add_second, mark_absence_evidence, method_text, confidence_for,
}
use async_trace_doctor.Rules.Edges.{build_topology}
use async_trace_doctor.Rules.Drift.{
  topology_finding, edge_finding, awaits_delivery, is_delivered, undelivered_finding,
  undelivered_evidence, missing_confidence, missing_evidence, edge_expected, undelivered,
  missing_required_consumers, missing_edge_finding, expect_edge, topology_findings,
}
use async_trace_doctor.Rules.Cases.{
  candidate_method, candidate_finding, add_unresolved, add_unresolved_parent, unresolved_finding,
  semantic_finding, semantic_step, orphan_finding, orphan_producer_step, orphan_consumer_step,
  batch_step, pair_finding, latency_step, skew_step, is_slow, is_skewed, latency_evidence,
  skew_evidence, batch_finding, batch_evidence, orphan_confidence, orphan_evidence,
  semantic_evidence,
}
use async_trace_doctor.Rules.Duplicates.{
  first_span, duplicate_evidence, exceeds, duplicate_finding, window_step, group_step,
  duplicate_findings, successes_of,
}
use async_trace_doctor.Rules.Observed.{is_among, verdict, verdicts, observe_edges-are_verdicts}

-- The methods of the findings that conclude from what is not there.
unfoldable pub rests_on_absence : String → Bool
rests_on_absence method =
    method == "none" || method == "expected_topology" || method == "expected_delivery"

-- A conclusion from absence is marked.
abbrev pub IsCautious : Finding → Type 0
IsCautious f =
    rests_on_absence f.correlation_method ≡ true
    → (f.evidence_state ≡ "insufficient") × (f.confidence ≡ low)

add_first-method :
    (p : Span) (f : Finding) → (add_first p f).correlation_method ≡ f.correlation_method
unfolding add_first
add_first-method p f = elim (Bool-cases (p.span_id == "")) [
  | inl unnamed ↦ rw (unnamed, add_first) refl
  | inr named ↦ rw (named, add_first) (either _ _ _ refl refl)
]
  where
    either :
        (b : Bool) (g h : Finding)
        → g.correlation_method ≡ f.correlation_method
        → h.correlation_method ≡ f.correlation_method
        → (if b then g else h).correlation_method ≡ f.correlation_method
    either true g h p q = p
    either false g h p q = q

add_second-method :
    (c : Option Span) (f : Finding) → (add_second c f).correlation_method ≡ f.correlation_method
unfolding add_second
add_second-method none f = refl
add_second-method (some c) f = refl

finding-method :
    (r : Rule) (p : Span) (c : Option Span) (method : String) (conf : Confidence) (ev : Dict Fact)
    → (finding r p c method conf ev).correlation_method ≡ method
unfolding finding
finding-method r p c method conf ev = add_second-method c _ ∙ add_first-method p _

-- A finding of another method needs no mark.
other-IsCautious :
    (f : Finding) {method : String}
    → f.correlation_method ≡ method
    → rests_on_absence method ≡ false
    → IsCautious f
other-IsCautious f e n h = absurd (cc (e, n, h))

finding-IsCautious :
    (r : Rule) (p : Span) (c : Option Span) (method : String) (conf : Confidence) (ev : Dict Fact)
    → rests_on_absence method ≡ false
    → IsCautious (finding r p c method conf ev)
finding-IsCautious r p c method conf ev n =
    other-IsCautious (finding r p c method conf ev) (finding-method r p c method conf ev) n

correlation_method : (m : Method) → rests_on_absence (method_text m) ≡ false
unfolding rests_on_absence method_text
correlation_method span_link = refl
correlation_method parent_context = refl
correlation_method messaging_attributes = refl
correlation_method kafka_partition_offset = refl
correlation_method time_window_heuristic = refl

candidate_methods : (m : Method) → rests_on_absence (candidate_method m) ≡ false
unfolding rests_on_absence
candidate_methods span_link = refl
candidate_methods parent_context = refl
candidate_methods messaging_attributes = refl
candidate_methods kafka_partition_offset = refl
candidate_methods time_window_heuristic = refl

unresolved_method :
    (ls : List Link) (st : List String × Finding)
    → (add_unresolved ls st).1.correlation_method ≡ st.1.correlation_method
unfolding add_unresolved
unresolved_method [] st = refl
unresolved_method (l ∷ ls) (u, f) =
    elim (Bool-cases (not (l.trace_id == "") && not (l.span_id == ""))) [
      | inl named ↦ rw (named, add_unresolved) (unresolved_method ls _)
      | inr bare ↦ rw (bare, add_unresolved) (unresolved_method ls (u, f))
    ]

unresolved_parent_method :
    (s : Span) (st : List String × Finding)
    → (add_unresolved_parent s st).1.correlation_method ≡ st.1.correlation_method
unfolding add_unresolved_parent
unresolved_parent_method s (u, f) = elim (Bool-cases (s.parent_span_id == "")) [
  | inl root ↦ rw (root, add_unresolved_parent) refl
  | inr child ↦ rw (child, add_unresolved_parent) refl
]

unresolved_finding-IsCautious : (s : Span) (f : Finding) → IsCautious (unresolved_finding s f)
unfolding unresolved_finding rests_on_absence
unresolved_finding-IsCautious s f =
    let marked : Finding = record f {
      correlation_method = "unresolved_context_reference";
      confidence = low;
      evidence_state = "insufficient";
    } in
    let st : List String × Finding = add_unresolved s.links ([], marked) in
    other-IsCautious (unresolved_finding s f)
      (unresolved_parent_method s st ∙ unresolved_method s.links ([], marked)) refl

-- What markAbsenceEvidence marks, where completeness is not known.
mark-IsCautious :
    (audit : AuditContext) (f : Finding)
    → audit.coverage_complete ≡ false
    → IsCautious (mark_absence_evidence audit f)
unfolding mark_absence_evidence
mark-IsCautious audit f open_ h = rw (open_, mark_absence_evidence) (refl, refl)

pub anything {ℓ} : {A : Type ℓ} (o : Option A) → Holds (λ a. Unit {0}) o
anything none = tt
anything (some a) = tt

-- At most one finding.
All-when : (b : Bool) (f : Finding) → IsCautious f → All IsCautious (if b then f ∷ [] else [])
All-when true f h = (h, tt)
All-when false f h = tt

module _ (r : Rule) (spans : List Span) (corr : Result) where
  candidate_finding-IsCautious :
      (s : Span) (f : Finding) (o : Option Correlation)
      → IsCautious f
      → Holds IsCautious (candidate_finding r spans s f o)
  unfolding candidate_finding
  candidate_finding-IsCautious s f none h = h
  candidate_finding-IsCautious s f (some x) h =
      Holds->>= (λ p. Unit {0}) IsCautious (get_elem? spans x.producer_index) _
        (anything (get_elem? spans x.producer_index))
        (λ p _. finding-IsCautious r p (some s) _ high _ (candidate_methods x.method))

  pub semantic_step-IsCautious :
      (i : ℕ) (s : Span) → Holds (All IsCautious) (semantic_step r spans corr i s)
  unfolding semantic_step semantic_finding rests_on_absence
  semantic_step-IsCautious i s =
      let f : Finding =
        finding r s none "semantic_validation" (confidence_for r.check)
          (semantic_evidence r.check corr i s) in
      let plain : IsCautious f =
        finding-IsCautious r s none "semantic_validation" (confidence_for r.check)
          (semantic_evidence r.check corr i s) refl in
      Holds-if (All IsCautious) (is_flagged r corr i s) _ _
        (Holds->>= IsCautious (All IsCautious) (semantic_finding r spans corr i s) _
          (Holds-if IsCautious (r.check == "unresolved_consumer_context") _ _
            (unresolved_finding-IsCautious s f)
            (Holds-if IsCautious (not (r.check == "missing_consumer_context")) _ _ plain (
              Holds->>= (λ o. Unit {0}) IsCautious (correlation_for_consumer i corr) _
                (anything (correlation_for_consumer i corr))
                (λ o _. candidate_finding-IsCautious s f o plain))))
          (λ g k. (k, tt)))
        tt

  pair_finding-IsCautious :
      (ev : Dict Fact) (x : Correlation) → Holds (All IsCautious) (pair_finding r spans ev x)
  unfolding pair_finding
  pair_finding-IsCautious ev x =
      Holds->>= (λ p. Unit {0}) (All IsCautious) (get_elem? spans x.producer_index) _
        (anything (get_elem? spans x.producer_index))
        (λ p _.
          Holds->>= (λ p. Unit {0}) (All IsCautious) (get_elem? spans x.consumer_index) _
            (anything (get_elem? spans x.consumer_index))
            (λ co _. (
              finding-IsCautious r p (some co) (method_text x.method) x.confidence ev
                  (correlation_method x.method),
              tt,
            )))

  pub latency_step-IsCautious :
      (settings : Settings) (i : ℕ) (x : Correlation)
      → Holds (All IsCautious) (latency_step r settings spans i x)
  unfolding latency_step
  latency_step-IsCautious settings i x =
      Holds-if (All IsCautious) (not (is_slow settings x)) (some []) _ tt
        (pair_finding-IsCautious (latency_evidence settings x) x)

  pub skew_step-IsCautious :
      (settings : Settings) (i : ℕ) (x : Correlation)
      → Holds (All IsCautious) (skew_step r settings spans i x)
  unfolding skew_step
  skew_step-IsCautious settings i x =
      Holds-if (All IsCautious) (not (is_skewed settings x)) (some []) _ tt
        (pair_finding-IsCautious (skew_evidence settings x) x)

  batch_finding-IsCautious : (s : Span) → IsCautious (batch_finding r spans s)
  unfolding batch_finding rests_on_absence
  batch_finding-IsCautious s =
      finding-IsCautious r empty_span (some s) "span_link" high (batch_evidence spans s) refl

  pub batch_step-IsCautious : (i : ℕ) (s : Span) → Holds (All IsCautious) (batch_step r spans i s)
  unfolding batch_step
  batch_step-IsCautious i s =
      All-when (is_incomplete_batch r spans s) (batch_finding r spans s)
        (batch_finding-IsCautious s)

module _ (r : Rule) (settings : Settings) where
  duplicate-IsCautious :
      (attempts successes : List Span) (s : Span)
      → IsCautious (duplicate_finding r settings attempts successes s)
  unfolding duplicate_finding rests_on_absence
  duplicate-IsCautious attempts successes s =
      finding-IsCautious r empty_span (some s) "messaging_attributes" high
        (duplicate_evidence settings attempts successes s) refl

  window_step-IsCautious :
      (i : ℕ) (attempts : List Span) → Holds (All IsCautious) (window_step r settings i attempts)
  unfolding window_step
  window_step-IsCautious i attempts =
      Holds-if (All IsCautious) (not (exceeds settings (successes_of attempts))) (some []) _ tt (
        Holds->>= (λ s. Unit {0}) (All IsCautious) (first_span (successes_of attempts)) _
          (anything (first_span (successes_of attempts)))
          (λ s _. (duplicate-IsCautious attempts (successes_of attempts) s, tt)))

  pub duplicate_findings-IsCautious :
      (sort : List Span → List Span) (spans : List Span)
      → Holds (All IsCautious) (duplicate_findings sort r settings spans)
  unfolding duplicate_findings group_step
  duplicate_findings-IsCautious sort spans =
      collect-Holds IsCautious _ (λ i g. collect-Holds IsCautious _ window_step-IsCautious _) _

edge_finding-IsCautious :
    (r : Rule) (o : Edge) (kind : String)
    → (kind == "missing_edge") ≡ false
    → IsCautious (edge_finding r o kind)
unfolding edge_finding topology_finding rests_on_absence
edge_finding-IsCautious r o kind n h = absurd (no (rw n at h))
  where
    no : rests_on_absence "correlated_topology" ≡ true → ⊥
    no k = cc k

verdicts-IsCautious : (r : Rule) (t : Topology) (os : List Edge) → All IsCautious (verdicts r t os)
unfolding verdicts verdict
verdicts-IsCautious r t [] = tt
verdicts-IsCautious r t (o ∷ os) =
    All-append IsCautious (verdict r t o) (verdicts r t os)
      (either (is_among t.denied_edges o) _ _ (edge_finding-IsCautious r o "denied_edge" refl, tt)
        (either
          (is_among t.ignored_edges o
            || (nat_eq (length t.expected_edges) 0 || is_among t.expected_edges o))
          [] _ tt (edge_finding-IsCautious r o "unexpected_edge" refl, tt)))
      (verdicts-IsCautious r t os)
  where
    either :
        (b : Bool) (xs ys : List Finding)
        → All IsCautious xs
        → All IsCautious ys
        → All IsCautious (if b then xs else ys)
    either true xs ys h k = h
    either false xs ys h k = k

-- The steps that conclude from what is not there, where completeness is not known.
module _ (r : Rule) (spans : List Span) (corr : Result) (window : Duration) (audit : AuditContext)
    (unknown : audit.coverage_complete ≡ false) where
  orphan_finding-IsCautious :
      (p : Span) (c : Option Span) (s : Span) → IsCautious (orphan_finding r window audit p c s)
  unfolding orphan_finding
  orphan_finding-IsCautious p c s =
      mark-IsCautious audit
        (finding r p c "none" (orphan_confidence audit s) (orphan_evidence window audit s)) unknown

  pub orphan_producer_step-IsCautious :
      (i : ℕ) (s : Span) → Holds (All IsCautious) (orphan_producer_step r window audit corr i s)
  unfolding orphan_producer_step
  orphan_producer_step-IsCautious i s =
      All-when (is_orphan_producer r corr window audit i s) (orphan_finding r window audit s none s)
        (orphan_finding-IsCautious s none s)

  pub orphan_consumer_step-IsCautious :
      (i : ℕ) (s : Span) → Holds (All IsCautious) (orphan_consumer_step r window audit corr i s)
  unfolding orphan_consumer_step
  orphan_consumer_step-IsCautious i s =
      All-when (is_orphan_consumer r corr window audit i s)
        (orphan_finding r window audit empty_span (some s) s)
        (orphan_finding-IsCautious empty_span (some s) s)

  undelivered_finding-IsCautious :
      (x : ExpectedEdge) (p : Span) → IsCautious (undelivered_finding r x audit p)
  unfolding undelivered_finding
  undelivered_finding-IsCautious x p =
      mark-IsCautious audit (finding r p none "expected_delivery" medium (undelivered_evidence x p))
        unknown

  undelivered-IsCautious :
      (x : ExpectedEdge) (i : ℕ) (s : Span)
      → Holds (All IsCautious) (undelivered r x spans corr window audit i s)
  unfolding undelivered
  undelivered-IsCautious x i s =
      Holds-if (All IsCautious) (not (awaits_delivery x window audit s)) (some []) _ tt (
        Holds->>= (λ b. Unit {0}) (All IsCautious) (is_delivered x spans i s corr.correlations) _
          (anything (is_delivered x spans i s corr.correlations))
          (λ b _. unless b (undelivered_finding r x audit s) (undelivered_finding-IsCautious x s)))
    where
      unless : (b : Bool) (f : Finding) → IsCautious f → All IsCautious (if b then [] else f ∷ [])
      unless true f h = tt
      unless false f h = (h, tt)

  missing_edge_finding-IsCautious : (x : ExpectedEdge) → IsCautious (missing_edge_finding r x audit)
  unfolding missing_edge_finding
  missing_edge_finding-IsCautious x =
      mark-IsCautious audit
        (topology_finding r (edge_expected x) "missing_edge" (missing_confidence audit)
          (missing_evidence audit))
        unknown

  expect_edge-IsCautious :
      (matched : ℕ → Bool) (i : ℕ) (x : ExpectedEdge)
      → Holds (All IsCautious) (expect_edge r spans corr window audit matched i x)
  unfolding expect_edge missing_required_consumers
  expect_edge-IsCautious matched i x =
      Holds-if (All IsCautious) x.require_per_message _ _
        (collect-Holds IsCautious _ (undelivered-IsCautious x) spans)
        (All-when (not (matched i) && has_eligible_producer x spans window audit)
          (missing_edge_finding r x audit) (missing_edge_finding-IsCautious x))

  pub topology_findings-IsCautious :
      (t : Topology) → Holds (All IsCautious) (topology_findings t window r spans corr audit)
  unfolding topology_findings
  topology_findings-IsCautious t =
      Holds->>= (λ o. Unit {0}) (All IsCautious) (build_topology spans corr.correlations) _
        (anything (build_topology spans corr.correlations))
        (λ observed _.
          Holds->>= (All IsCautious) (All IsCautious) (collect _ t.expected_edges) _
            (collect-Holds IsCautious _ (expect_edge-IsCautious _) t.expected_edges)
            (λ missing h.
              All-append IsCautious _ missing
                (subst (All IsCautious) (sym (observe_edges-are_verdicts r t observed).0)
                  (verdicts-IsCautious r t observed))
                h))

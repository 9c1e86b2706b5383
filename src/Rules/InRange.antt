-- ===== src/Rules/InRange.antt =====
-- An audit reads no span out of range: where Correlate returns, so does the audit.
use async_trace_doctor.Common.{
  ℕ, ◌≡◌, refl, Bool, true, false, Option, some, List, [], ◌∷◌, All, All-map, get_elem?, nat_eq,
  if◌then◌else◌, Returns, Returns->>=, collect, collect-Returns, Bool-cases, Option-cases, inl, inr,
}
use async_trace_doctor.Model.{Duration, Span, empty_span, is_producer, is_consumer}
use async_trace_doctor.Correlation.{Correlation, Result, span_at, correlate}
use async_trace_doctor.Correlation.Warrants.{correlate-warranted}
use async_trace_doctor.Config.{Rule, ExpectedEdge, Topology}
use async_trace_doctor.Common.Dict.{Dict}
use async_trace_doctor.Rules.Windows.{AuditContext}
use async_trace_doctor.Rules.Topology.{Edge, edge_matches}
use async_trace_doctor.Rules.Findings.{Fact}
use async_trace_doctor.Rules.Edges.{edge_of, count_edge, count_edges, build_topology}
use async_trace_doctor.Rules.Drift.{
  awaits_delivery, is_delivered, undelivered, missing_required_consumers, expect_edge,
  topology_findings,
}
use async_trace_doctor.Rules.Cases.{pair_finding}

no_producer : is_producer empty_span ≡ false
unfolding is_producer
no_producer = refl

no_consumer : is_consumer empty_span ≡ false
unfolding is_consumer
no_consumer = refl

module _ (spans : List Span) where
  -- Both positions of a correlation are those of spans of the input.
  abbrev pub InRange : Correlation → Type 0
  InRange x =
      Returns (get_elem? spans x.producer_index) × Returns (get_elem? spans x.consumer_index)

  in_range_if :
      (test : Span → Bool) (i : ℕ)
      → test empty_span ≡ false
      → test (span_at spans i) ≡ true
      → Returns (get_elem? spans i)
  unfolding span_at
  in_range_if test i z h = elim (Option-cases (get_elem? spans i)) [
    | inl out ↦ absurd (cc (z, rw (out, span_at) at h))
    | inr (s, found) ↦ (s, found)
  ]

  -- The spans of every correlation that Correlate answers are in range.
  pub correlate-InRange :
      (window : Duration) {corr : Result}
      → correlate spans window ≡ some corr
      → All InRange corr.correlations
  correlate-InRange window e =
      All-map
        (λ x (w, p). (
          in_range_if is_producer x.producer_index no_producer w.produces,
          in_range_if is_consumer x.consumer_index no_consumer w.consumes,
        ))
        _ (correlate-warranted spans window e)

  count_edges-Returns :
      (xs : List Correlation) (m : Dict Edge) → All InRange xs → Returns (count_edges spans xs m)
  unfolding count_edges
  count_edges-Returns [] m h = (m, refl)
  count_edges-Returns (x ∷ xs) m (((p, ep), (co, ec)), h) =
      rw (ep, ec) (count_edges-Returns xs (count_edge p co m) h)

  pub build_topology-Returns :
      (xs : List Correlation) → All InRange xs → Returns (build_topology spans xs)
  unfolding build_topology
  build_topology-Returns xs h =
      Returns->>= (count_edges spans xs []) _ (count_edges-Returns xs [] h) (λ m _. (_, refl))

  is_delivered-Returns :
      (x : ExpectedEdge) (pi : ℕ) (p : Span) (xs : List Correlation)
      → All InRange xs
      → Returns (is_delivered x spans pi p xs)
  unfolding is_delivered
  is_delivered-Returns x pi p [] h = (false, refl)
  is_delivered-Returns x pi p (y ∷ ys) ((_, (co, ec)), h) =
      elim (Bool-cases (nat_eq y.producer_index pi)) [
        | inr other ↦ rw (other, is_delivered) (is_delivered-Returns x pi p ys h)
        | inl mine ↦
            rw (mine, ec, is_delivered)
              (either (edge_matches x (edge_of p co)) _ (is_delivered-Returns x pi p ys h))
      ]
    where
      either : (b : Bool) (o : Option Bool) → Returns o → Returns (if b then some true else o)
      either true o k = (true, refl)
      either false o k = k

  module _ (r : Rule) (corr : Result) (window : Duration) (audit : AuditContext)
      (h : All InRange corr.correlations) where
    undelivered-Returns :
        (x : ExpectedEdge) (i : ℕ) (s : Span)
        → Returns (undelivered r x spans corr window audit i s)
    unfolding undelivered
    undelivered-Returns x i s = elim (Bool-cases (awaits_delivery x window audit s)) [
      | inr no_wait ↦ rw (no_wait, undelivered) ([], refl)
      | inl waits ↦
          rw (waits, undelivered)
            (Returns->>= (is_delivered x spans i s corr.correlations) _
              (is_delivered-Returns x i s corr.correlations h) (λ b _. (_, refl)))
    ]

    expect_edge-Returns :
        (matched : ℕ → Bool) (i : ℕ) (x : ExpectedEdge)
        → Returns (expect_edge r spans corr window audit matched i x)
    unfolding expect_edge missing_required_consumers
    expect_edge-Returns matched i x = elim (Bool-cases x.require_per_message) [
      | inl each ↦ rw (each, expect_edge) (collect-Returns _ (undelivered-Returns x) spans)
      | inr any ↦ rw (any, expect_edge) (_, refl)
    ]

    pub topology_findings-Returns :
        (t : Topology) → Returns (topology_findings t window r spans corr audit)
    unfolding topology_findings
    topology_findings-Returns t =
        Returns->>= (build_topology spans corr.correlations) _
          (build_topology-Returns corr.correlations h)
          (λ observed _.
            Returns->>= (collect (expect_edge r spans corr window audit _) t.expected_edges) _
              (collect-Returns _ (expect_edge-Returns _) t.expected_edges) (λ missing _. (_, refl)))

  pub pair_finding-Returns :
      (r : Rule) (evidence : Dict Fact) (x : Correlation)
      → InRange x
      → Returns (pair_finding r spans evidence x)
  unfolding pair_finding
  pair_finding-Returns r evidence x ((p, ep), (co, ec)) = rw (ep, ec) (_, refl)

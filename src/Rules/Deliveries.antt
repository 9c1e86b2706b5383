-- ===== src/Rules/Deliveries.antt =====
-- When missingRequiredConsumers reports a producer.
use async_trace_doctor.Common.{
  ℕ, ◌≡◌, refl, Bool, true, false, not, ◌&&◌, some, List, [], ◌∷◌, any, All, nat_eq, if◌then◌else◌,
  Bool-cases, inl, inr,
}
use async_trace_doctor.Model.{Duration, Span}
use async_trace_doctor.Correlation.{Correlation, Result, span_at, correlate}
use async_trace_doctor.Config.{Rule, ExpectedEdge}
use async_trace_doctor.Rules.Windows.{AuditContext}
use async_trace_doctor.Rules.Topology.{edge_matches}
use async_trace_doctor.Rules.Edges.{edge_of}
use async_trace_doctor.Rules.Drift.{awaits_delivery, is_delivered, undelivered, undelivered_finding}
use async_trace_doctor.Rules.InRange.{InRange, correlate-InRange}

-- The correlation joins the producer `pi` to a consumer such that their edge is the expected one.
unfoldable pub delivers : ExpectedEdge → List Span → ℕ → Span → Correlation → Bool
unfolding span_at edge_of edge_matches
delivers expected spans pi producer x =
    nat_eq x.producer_index pi
    && edge_matches expected (edge_of producer (span_at spans x.consumer_index))

module _ (expected : ExpectedEdge) (spans : List Span) (pi : ℕ) (producer : Span) where
  is_delivered-any :
      (xs : List Correlation)
      → All (InRange spans) xs
      → is_delivered expected spans pi producer xs
        ≡ some (any (delivers expected spans pi producer) xs)
  unfolding is_delivered delivers span_at
  is_delivered-any [] h = refl
  is_delivered-any (x ∷ xs) ((_, (co, ec)), h) =
      let rest = is_delivered-any xs h in
      elim (Bool-cases (nat_eq x.producer_index pi)) [
        | inr other ↦ rw (other, is_delivered, delivers) rest
        | inl mine ↦ elim (Bool-cases (edge_matches expected (edge_of producer co))) [
          | inl same ↦ rw (mine, ec, same, is_delivered, delivers, span_at) refl
          | inr differs ↦ rw (mine, ec, differs, is_delivered, delivers, span_at) rest
        ]
      ]

  -- On what Correlate answers, a producer is reported as without a required consumer exactly when an
  -- expected edge awaits its delivery (the producer matches it, its window is closed, and it declares
  -- no batch) and no correlation joins it to a consumer such that their edge matches the expected one.
  pub undelivered-iff_none_delivers :
      (window limit : Duration) {corr : Result}
      → correlate spans limit ≡ some corr
      → (r : Rule) (audit : AuditContext)
      → undelivered r expected spans corr window audit pi producer
        ≡ some (
            if awaits_delivery expected window audit producer
              && not (any (delivers expected spans pi producer) corr.correlations)
            then undelivered_finding r expected audit producer ∷ []
            else [])
  unfolding undelivered
  undelivered-iff_none_delivers window limit {corr} e r audit =
      let d = is_delivered-any corr.correlations (correlate-InRange spans limit e) in
      rw (d, undelivered)
        (cases (awaits_delivery expected window audit producer)
          (any (delivers expected spans pi producer) corr.correlations) _)
    where
      cases :
          {A : Type 0} (waits found : Bool) (f : A)
          → (if not waits then some [] else some (if found then [] else f ∷ []))
            ≡ some (if waits && not found then f ∷ [] else [])
      cases true true f = refl
      cases true false f = refl
      cases false found f = refl

-- ===== src/Correlation/Warrants.antt =====
-- Every correlation that Correlate reports is warranted, whichever of its strategies found it.
use async_trace_doctor.Common.{
  ℕ, ◌≡◌, refl, subst, inl, inr, String, Bool, true, false, some, List, [], ◌∷◌, All, All-map, ◌==◌,
  if◌then◌else◌, Bool-cases, Option-cases,
}
use async_trace_doctor.Model.{
  Duration, Span, has_valid_parent_context, is_consumer, message_identity,
}
use async_trace_doctor.Correlation.Compatible.{context_key}
use async_trace_doctor.Correlation.Indexes.{span_at, Indexes, build_indexes}
use async_trace_doctor.Correlation.Nearest.{Candidate}
use async_trace_doctor.Correlation.Defs.{
  high, medium, low, Method, span_link, parent_context, messaging_attributes,
  kafka_partition_offset, time_window_heuristic, Result, no_result, add_correlation, add_all,
  count_reference, count_unresolved, resolve, by_identity, identity_method, by_time,
  candidate_indices, correlate_by_time, correlate_by_identity, correlate_by_parent,
  correlate_by_links, correlate_consumer, correlate_loop, correlate,
}
use async_trace_doctor.Correlation.Sources.{IsAccurate, build_indexes-IsAccurate}
use async_trace_doctor.Correlation.Evidence.{
  confidence_of, IsNear, SharesIdentity, Evidence, IsWarranted, IsReported, compatible-strong_scope,
  add_correlation-IsReported, add_all-IsReported,
}
use async_trace_doctor.Correlation.Exact.{Resolved, resolve-Resolved, Scanned, scan_links-Scanned}
use async_trace_doctor.Correlation.Fallback.{IsCandidate, by_identity-All, by_time-All}

module _ (spans : List Span) (window : Duration) (m : Indexes) (ci : ℕ) where
  -- All correlations of a result are reported ones.
  abbrev pub IsFaithful : Result → Type 0
  IsFaithful r = All (IsReported spans window) r.correlations

  abbrev Consumer : Span
  Consumer = span_at spans ci

  All-candidate_indices :
      (Q : ℕ → Type 0) (l : List Candidate) → All (λ a. Q a.index) l → All Q (candidate_indices l)
  All-candidate_indices Q [] h = tt
  All-candidate_indices Q (a ∷ rest) h = (h.0, All-candidate_indices Q rest h.1)

  candidate-IsWarranted :
      (method : Method) (a : Candidate)
      → is_consumer Consumer ≡ true
      → IsCandidate spans window Consumer a
      → Evidence window method (span_at spans a.index) Consumer
      → IsWarranted spans window ci method a.index
  candidate-IsWarranted method a c h e = record {
    produces = h.produces;
    consumes = c;
    one_scope = compatible-strong_scope _ _ h.near.0;
    evidence = e;
  }

  correlate_by_time-IsFaithful :
      (r : Result) {r' : Result}
      → IsAccurate spans m
      → is_consumer Consumer ≡ true
      → IsFaithful r
      → correlate_by_time spans m window ci Consumer r ≡ some r'
      → IsFaithful r'
  unfolding correlate_by_time
  correlate_by_time-IsFaithful r {r'} h c f e =
      elim (Option-cases (by_time spans m Consumer window)) [
        | inl panics ↦ absurd (cc (rw (panics, correlate_by_time) at e))
        | inr (found, b) ↦
            let q : some (add_all spans ci time_window_heuristic low r (candidate_indices found))
                ≡ some r' =
              rw (b, correlate_by_time) at e in
            let p : add_all spans ci time_window_heuristic low r (candidate_indices found) ≡ r' =
              cc q in
            subst IsFaithful p (
              add_all-IsReported spans window ci time_window_heuristic r _
                (All-candidate_indices _ found (
                  All-map (λ a k. candidate-IsWarranted time_window_heuristic a c k k.near) found
                    (by_time-All spans window m Consumer h b)))
                f)
      ]

  -- The evidence of either method of identity is the same.
  identity_method-Evidence :
      (kind : String) (p c : Span)
      → SharesIdentity p c
      → IsNear window p c
      → Evidence window (identity_method kind) p c × (confidence_of (identity_method kind) ≡ medium)
  identity_method-Evidence kind p c s n = either (kind == "kafka_partition_offset")
    where
      either :
          (b : Bool)
          → Evidence window (if b then kafka_partition_offset else messaging_attributes) p c
            × (confidence_of (if b then kafka_partition_offset else messaging_attributes) ≡ medium)
      either true = ((s, n), refl)
      either false = ((s, n), refl)

  correlate_by_identity-IsFaithful :
      (r : Result) {r' : Result}
      → IsAccurate spans m
      → is_consumer Consumer ≡ true
      → IsFaithful r
      → correlate_by_identity spans m window ci Consumer r ≡ some r'
      → IsFaithful r'
  unfolding correlate_by_identity
  correlate_by_identity-IsFaithful r {r'} h c f e =
      first (by_identity spans m Consumer window) (by_identity-All spans window m Consumer h) e
    where
      first :
          (l : List Candidate)
          → All
              (λ a.
                IsCandidate spans window Consumer a
                × SharesIdentity (span_at spans a.index) Consumer)
              l
          → (elim l [
            | [] ↦ correlate_by_time spans m window ci Consumer r
            | a ∷ rest ↦ some (
                add_correlation spans ci
                  (identity_method (message_identity Consumer).0)
                  medium
                  r
                  a.index)
          ])
            ≡ some r'
          → IsFaithful r'
      first [] k e' = correlate_by_time-IsFaithful r h c f e'
      first (a ∷ rest) k e' =
          let method : Method = identity_method (message_identity Consumer).0 in
          let (ev, med) =
            identity_method-Evidence (message_identity Consumer).0 (span_at spans a.index) Consumer
              k.0.1 k.0.0.near in
          let p : add_correlation spans ci method medium r a.index ≡ r' = cc e' in
          subst IsFaithful p (
            subst (λ conf. IsFaithful (add_correlation spans ci method conf r a.index)) med
              (add_correlation-IsReported spans window ci method r a.index
                (candidate-IsWarranted method a c k.0.0 ev) f))

  correlate_by_parent-IsFaithful :
      (r : Result) {r' : Result}
      → IsAccurate spans m
      → is_consumer Consumer ≡ true
      → IsFaithful r
      → correlate_by_parent spans m window ci Consumer r ≡ some r'
      → IsFaithful r'
  unfolding correlate_by_parent count_reference count_unresolved
  correlate_by_parent-IsFaithful r {r'} h c f e =
      elim (Bool-cases (has_valid_parent_context Consumer)) [
        | inr orphan ↦
            correlate_by_identity-IsFaithful r h c f (rw (orphan, correlate_by_parent) at e)
        | inl child ↦
            first child (resolve spans m Consumer Consumer.trace_id Consumer.parent_span_id)
              (resolve-Resolved spans window m Consumer Consumer.trace_id Consumer.parent_span_id h)
              (rw (child, correlate_by_parent) at e)
      ]
    where
      first :
          has_valid_parent_context Consumer ≡ true
          → (l : List ℕ)
          → All
              (Resolved spans window
                (context_key Consumer.trace_id Consumer.parent_span_id)
                Consumer)
              l
          → (elim l [
            | [] ↦
                correlate_by_identity spans m window ci Consumer
                  (count_unresolved ci (count_reference ci r))
            | pi ∷ rest ↦
                some (add_correlation spans ci parent_context high (count_reference ci r) pi)
          ])
            ≡ some r'
          → IsFaithful r'
      first child [] k e' =
          correlate_by_identity-IsFaithful (count_unresolved ci (count_reference ci r)) h c f e'
      first child (pi ∷ rest) k e' =
          let p : add_correlation spans ci parent_context high (count_reference ci r) pi ≡ r' =
            cc e' in
          subst IsFaithful p (
            add_correlation-IsReported spans window ci parent_context (count_reference ci r) pi
              (record {
                produces = k.0.0;
                consumes = c;
                one_scope = k.0.1;
                evidence = (child, k.0.2);
              })
              f)

  correlate_by_links-IsFaithful :
      (st : List ℕ × Result) {r' : Result}
      → IsAccurate spans m
      → is_consumer Consumer ≡ true
      → Scanned spans window ci st
      → correlate_by_links spans m window ci Consumer st ≡ some r'
      → IsFaithful r'
  unfolding correlate_by_links
  correlate_by_links-IsFaithful ([], r) h c f e = correlate_by_parent-IsFaithful r h c f.1 e
  correlate_by_links-IsFaithful (pi ∷ rest, r) {r'} h c f e =
      let p : add_all spans ci span_link high r (pi ∷ rest) ≡ r' = cc e in
      subst IsFaithful p (add_all-IsReported spans window ci span_link r (pi ∷ rest) f.0 f.1)

  correlate_consumer-IsFaithful :
      (r : Result) {r' : Result}
      → IsAccurate spans m
      → is_consumer Consumer ≡ true
      → IsFaithful r
      → correlate_consumer spans m window r ci ≡ some r'
      → IsFaithful r'
  unfolding correlate_consumer
  correlate_consumer-IsFaithful r h c f e =
      correlate_by_links-IsFaithful _ h c
        (scan_links-Scanned spans window m ci Consumer.links ([], r) h c (λ p k. k) (tt, f)) e

correlate_loop-IsFaithful :
    (spans : List Span) (window : Duration) (m : Indexes) (cis : List ℕ) (r : Result) {r' : Result}
    → IsAccurate spans m
    → All (λ ci. is_consumer (span_at spans ci) ≡ true) cis
    → All (IsReported spans window) r.correlations
    → correlate_loop spans m window cis r ≡ some r'
    → All (IsReported spans window) r'.correlations
unfolding correlate_loop
correlate_loop-IsFaithful spans window m [] r {r'} h c f e =
    let p : r ≡ r' = cc e in
    subst (λ (w : Result). All (IsReported spans window) w.correlations) p f
correlate_loop-IsFaithful spans window m (ci ∷ rest) r {r'} h c f e =
    elim (Option-cases (correlate_consumer spans m window r ci)) [
      | inl panics ↦ absurd (cc (rw (panics, correlate_loop) at e))
      | inr (t, k) ↦
          correlate_loop-IsFaithful spans window m rest t h c.1
            (correlate_consumer-IsFaithful spans window m ci r h c.0 f k)
            (rw (k, correlate_loop) at e)
    ]

-- Every correlation that Correlate reports joins a producer span and a consumer span of the input whose
-- environments and service namespaces do not exclude one another. It rests on the evidence that its
-- method names: a valid link of the consumer with the producer's context; the consumer's valid parent
-- context, the producer's; one shared message identity, or none, with compatible system, destination
-- and scopes and a distance within the window. Its confidence is that of the method, and its references
-- and its latency are those of the two spans.
pub correlate-warranted :
    (spans : List Span) (window : Duration) {r : Result}
    → correlate spans window ≡ some r
    → All (IsReported spans window) r.correlations
unfolding correlate
correlate-warranted spans window e =
    let h = build_indexes-IsAccurate spans in
    correlate_loop-IsFaithful spans window (build_indexes spans) _ no_result h h.consuming tt e

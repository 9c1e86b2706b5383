-- ===== src/Correlation/Counting.antt =====
-- What correlating one consumer adds to the counts of references that Correlate keeps.
use async_trace_doctor.Common.{
  ℕ, ◌≡◌, subst, ◌⊎◌, inl, inr, true, false, some, List, [], ◌∷◌, any, Bool-cases, Option-cases,
}
use async_trace_doctor.Model.{
  Duration, Span, link_has_valid_context, has_valid_parent_context, message_identity,
}
use async_trace_doctor.Correlation.Indexes.{span_at, Indexes}
use async_trace_doctor.Correlation.Nearest.{Candidate}
use async_trace_doctor.Correlation.Defs.{
  span_link, parent_context, time_window_heuristic, high, medium, low, Result, add_correlation,
  add_all, count_reference, count_unresolved, resolve, link_found, scan_links, by_identity, by_time,
  identity_method, candidate_indices, correlate_by_time, correlate_by_identity, correlate_by_parent,
  correlate_by_links, correlate_consumer,
}
use async_trace_doctor.Correlation.Counts.{
  has_reference, Counts, Counts-add_all, Counts-add_correlation, Counted, link_found-Counted,
  Counted-trans, Counted-none, scan_links-Counted,
}

module _ (spans : List Span) (window : Duration) (m : Indexes) (ci : ℕ) where
  correlate_by_time-Counts :
      (c : Span) (r : Result) {r' : Result}
      → correlate_by_time spans m window ci c r ≡ some r'
      → Counts ci 0 0 r r'
  unfolding correlate_by_time
  correlate_by_time-Counts c r {r'} e = elim (Option-cases (by_time spans m c window)) [
    | inl panics ↦ absurd (cc (rw (panics, correlate_by_time) at e))
    | inr (found, b) ↦
        let q : some (add_all spans ci time_window_heuristic low r (candidate_indices found))
            ≡ some r' =
          rw (b, correlate_by_time) at e in
        let p : add_all spans ci time_window_heuristic low r (candidate_indices found) ≡ r' =
          cc q in
        subst (Counts ci 0 0 r) p
          (Counts-add_all spans ci time_window_heuristic low r (candidate_indices found))
  ]

  correlate_by_identity-Counts :
      (c : Span) (r : Result) {r' : Result}
      → correlate_by_identity spans m window ci c r ≡ some r'
      → Counts ci 0 0 r r'
  unfolding correlate_by_identity
  correlate_by_identity-Counts c r {r'} e = first (by_identity spans m c window) e
    where
      first :
          (l : List Candidate)
          → (elim l [
            | [] ↦ correlate_by_time spans m window ci c r
            | a ∷ rest ↦
                some (
                  add_correlation spans ci
                    (identity_method (message_identity c).0)
                    medium
                    r
                    a.index)
          ])
            ≡ some r'
          → Counts ci 0 0 r r'
      first [] e' = correlate_by_time-Counts c r e'
      first (a ∷ rest) e' =
          let p : add_correlation spans ci (identity_method (message_identity c).0) medium r a.index
              ≡ r' =
            cc e' in
          subst (Counts ci 0 0 r) p (Counts-add_correlation spans ci _ medium r a.index)

  correlate_by_parent-Counted :
      (c : Span) (r : Result) {r' : Result}
      → correlate_by_parent spans m window ci c r ≡ some r'
      → Counted ci (has_valid_parent_context c) r r'
  unfolding correlate_by_parent link_found
  correlate_by_parent-Counted c r {r'} e = elim (Bool-cases (has_valid_parent_context c)) [
    | inr orphan ↦ rw orphan (
        Counted-none spans window m ci
          (correlate_by_identity-Counts c r (rw (orphan, correlate_by_parent) at e)))
    | inl child ↦ rw child (
        first (resolve spans m c c.trace_id c.parent_span_id)
          (rw (child, correlate_by_parent) at e))
  ]
    where
      first :
          (l : List ℕ)
          → (elim l [
            | [] ↦
                correlate_by_identity spans m window ci c
                  (count_unresolved ci (count_reference ci r))
            | pi ∷ rest ↦
                some (add_correlation spans ci parent_context high (count_reference ci r) pi)
          ])
            ≡ some r'
          → Counted ci true r r'
      first [] e' =
          Counted-trans spans window m ci true false (link_found-Counted spans window m ci [] [] r)
            (Counted-none spans window m ci
              (correlate_by_identity-Counts c (count_unresolved ci (count_reference ci r)) e'))
      first (pi ∷ rest) e' =
          let p : add_correlation spans ci parent_context high (count_reference ci r) pi ≡ r' =
            cc e' in
          subst (Counted ci true r) p (
            Counted-trans spans window m ci true false
              (link_found-Counted spans window m ci (pi ∷ []) [] r)
              (Counted-none spans window m ci
                (Counts-add_correlation spans ci parent_context high (count_reference ci r) pi)))

  pub correlate_consumer-Counted :
      (r : Result) {r' : Result}
      → correlate_consumer spans m window r ci ≡ some r'
      → Counted ci (has_reference (span_at spans ci)) r r'
  unfolding correlate_consumer correlate_by_links
  correlate_consumer-Counted r {r'} e =
      let c : Span = span_at spans ci in
      let (k, d) = scan_links-Counted spans window m ci c c.links [] r in
      first c (scan_links spans m c ci c.links ([], r)) k d e
    where
      first :
          (c : Span) (st : List ℕ × Result)
          → Counted ci (any link_has_valid_context c.links) r st.1
          → (st.0 ≡ []) ⊎ (any link_has_valid_context c.links ≡ true)
          → correlate_by_links spans m window ci c st ≡ some r'
          → Counted ci (has_reference c) r r'
      first c ([], t) k d e' =
          Counted-trans spans window m ci _ (has_valid_parent_context c) k
            (correlate_by_parent-Counted c t e')
      first c (pi ∷ rest, t) k d e' =
          let p : add_all spans ci span_link high t (pi ∷ rest) ≡ r' = cc e' in
          let valid : any link_has_valid_context c.links ≡ true = elim d [
            | inl q ↦ absurd (cc q)
            | inr q ↦ q
          ] in
          subst (Counted ci (has_reference c) r) p (
            rw valid (
              Counted-trans spans window m ci true false (rw valid at k) (
                Counted-none spans window m ci
                  (Counts-add_all spans ci span_link high t (pi ∷ rest)))))

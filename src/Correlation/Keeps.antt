-- ===== src/Correlation/Keeps.antt =====
-- What every write of Correlate to its result keeps, Correlate keeps.
use async_trace_doctor.Common.{
  ℕ, ◌≡◌, subst, Option, none, some, List, [], ◌∷◌, Bool-cases, inl, inr,
}
use async_trace_doctor.Model.{
  Duration, Span, Link, link_has_valid_context, has_valid_parent_context, message_identity,
}
use async_trace_doctor.Correlation.Indexes.{span_at, Indexes, build_indexes}
use async_trace_doctor.Correlation.Nearest.{Candidate}
use async_trace_doctor.Correlation.Defs.{
  Method, Confidence, span_link, parent_context, time_window_heuristic, high, medium, low, Result,
  no_result, add_correlation, add_all, count_reference, count_unresolved, resolve, link_found,
  scan_links, by_identity, by_time, identity_method, candidate_indices, correlate_by_time,
  correlate_by_identity, correlate_by_parent, correlate_by_links, correlate_consumer,
  correlate_loop, correlate,
}

module _ (spans : List Span) (window : Duration) (P : Result → Type 0)
    (adds : (ci : ℕ) (method : Method) (confidence : Confidence) (r : Result) (pi : ℕ)
      → P r
      → P (add_correlation spans ci method confidence r pi))
    (refers : (ci : ℕ) (r : Result) → P r → P (count_reference ci r))
    (misses : (ci : ℕ) (r : Result) → P r → P (count_unresolved ci r)) where
  -- The result of a stage, if there is one, keeps the property.
  abbrev Kept : Option Result → Type 0
  Kept none = Unit
  Kept (some r) = P r

  add_all-keeps :
      (ci : ℕ) (method : Method) (confidence : Confidence) (r : Result) (pis : List ℕ)
      → P r
      → P (add_all spans ci method confidence r pis)
  unfolding add_all
  add_all-keeps ci method confidence r [] h = h
  add_all-keeps ci method confidence r (pi ∷ rest) h =
      add_all-keeps ci method confidence (add_correlation spans ci method confidence r pi) rest
        (adds ci method confidence r pi h)

  link_found-keeps :
      (ci : ℕ) (found linked : List ℕ) (r : Result) → P r → P (link_found ci found (linked, r)).1
  unfolding link_found
  link_found-keeps ci [] linked r h = misses ci r h
  link_found-keeps ci (pi ∷ rest) linked r h = h

  module _ (m : Indexes) (ci : ℕ) (c : Span) where
    scan_links-keeps :
        (ls : List Link) (linked : List ℕ) (r : Result)
        → P r
        → P (scan_links spans m c ci ls (linked, r)).1
    unfolding scan_links
    scan_links-keeps [] linked r h = h
    scan_links-keeps (l ∷ rest) linked r h = elim (Bool-cases (link_has_valid_context l)) [
      | inr bad ↦ rw (bad, scan_links) (scan_links-keeps rest linked r h)
      | inl valid ↦
          let found = resolve spans m c l.trace_id l.span_id in
          let st : List ℕ × Result = link_found ci found (linked, count_reference ci r) in
          rw (valid, scan_links)
            (scan_links-keeps rest st.0 st.1
              (link_found-keeps ci found linked (count_reference ci r) (refers ci r h)))
    ]

    correlate_by_time-keeps : (r : Result) → P r → Kept (correlate_by_time spans m window ci c r)
    unfolding correlate_by_time
    correlate_by_time-keeps r h = first (by_time spans m c window)
      where
        first :
            (o : Option (List Candidate))
            → Kept (elim o [
              | none ↦ none
              | some found ↦
                  some (add_all spans ci time_window_heuristic low r (candidate_indices found))
            ])
        first none = tt
        first (some found) =
            add_all-keeps ci time_window_heuristic low r (candidate_indices found) h

    correlate_by_identity-keeps :
        (r : Result) → P r → Kept (correlate_by_identity spans m window ci c r)
    unfolding correlate_by_identity
    correlate_by_identity-keeps r h = first (by_identity spans m c window)
      where
        first :
            (l : List Candidate)
            → Kept (elim l [
              | [] ↦ correlate_by_time spans m window ci c r
              | a ∷ rest ↦ some (
                  add_correlation spans ci
                    (identity_method (message_identity c).0)
                    medium
                    r
                    a.index)
            ])
        first [] = correlate_by_time-keeps r h
        first (a ∷ rest) = adds ci _ medium r a.index h

    correlate_by_parent-keeps :
        (r : Result) → P r → Kept (correlate_by_parent spans m window ci c r)
    unfolding correlate_by_parent
    correlate_by_parent-keeps r h = elim (Bool-cases (has_valid_parent_context c)) [
      | inr orphan ↦ rw (orphan, correlate_by_parent) (correlate_by_identity-keeps r h)
      | inl child ↦
          rw (child, correlate_by_parent) (first (resolve spans m c c.trace_id c.parent_span_id))
    ]
      where
        first :
            (l : List ℕ)
            → Kept (elim l [
              | [] ↦
                  correlate_by_identity spans m window ci c
                    (count_unresolved ci (count_reference ci r))
              | pi ∷ rest ↦
                  some (add_correlation spans ci parent_context high (count_reference ci r) pi)
            ])
        first [] =
            correlate_by_identity-keeps (count_unresolved ci (count_reference ci r))
              (misses ci (count_reference ci r) (refers ci r h))
        first (pi ∷ rest) = adds ci parent_context high (count_reference ci r) pi (refers ci r h)

    correlate_by_links-keeps :
        (st : List ℕ × Result) → P st.1 → Kept (correlate_by_links spans m window ci c st)
    unfolding correlate_by_links
    correlate_by_links-keeps ([], r) h = correlate_by_parent-keeps r h
    correlate_by_links-keeps (pi ∷ rest, r) h = add_all-keeps ci span_link high r (pi ∷ rest) h

  correlate_loop-keeps :
      (m : Indexes) (cis : List ℕ) (r : Result) → P r → Kept (correlate_loop spans m window cis r)
  unfolding correlate_loop correlate_consumer
  correlate_loop-keeps m [] r h = h
  correlate_loop-keeps m (ci ∷ rest) r h =
      first (correlate_consumer spans m window r ci)
        (let c : Span = span_at spans ci in
          correlate_by_links-keeps m ci c (scan_links spans m c ci c.links ([], r))
            (scan_links-keeps m ci c c.links [] r h))
        (λ r' k. correlate_loop-keeps m rest r' k)
    where
      first :
          (o : Option Result)
          → Kept o
          → ((r' : Result) → P r' → Kept (correlate_loop spans m window rest r'))
          → Kept (elim o [ none ↦ none | some r' ↦ correlate_loop spans m window rest r' ])
      first none k again = tt
      first (some r') k again = again r' k

  pub correlate-keeps : {r : Result} → P no_result → correlate spans window ≡ some r → P r
  unfolding correlate
  correlate-keeps h e = subst Kept e (correlate_loop-keeps (build_indexes spans) _ no_result h)

-- ===== src/Correlation/Exact.antt =====
-- The exact references of Correlate, links and parents: what they resolve to is warranted.
use async_trace_doctor.Common.{
  ℕ, ◌≡◌, sym, inl, inr, String, true, List, [], ◌∷◌, All, All-map, All-filter_by_test, ltb, nat_eq,
  Bool-cases,
}
use async_trace_doctor.Model.{
  Duration, Span, Link, link_has_valid_context, is_producer, is_consumer,
}
use async_trace_doctor.Correlation.Compatible.{strong_scope_compatible, context_key}
use async_trace_doctor.Correlation.Indexes.{span_at, positions, Indexes}
use async_trace_doctor.Correlation.Defs.{
  span_link, Result, count_reference, count_unresolved, insert_key, insert_keys, resolve,
  link_found, scan_links,
}
use async_trace_doctor.Correlation.Sources.{HasContext, IsAccurate}
use async_trace_doctor.Correlation.Evidence.{Links, IsWarranted, IsReported}

module _ (spans : List Span) (window : Duration) where
  -- What the map by context says of the producers that a context resolves to.
  abbrev pub Resolved : String → Span → ℕ → Type 0
  Resolved key c pi =
      (is_producer (span_at spans pi) ≡ true)
      × (strong_scope_compatible (span_at spans pi) c ≡ true)
      × (key ≡ context_key (span_at spans pi).trace_id (span_at spans pi).span_id)

  pub resolve-Resolved :
      (m : Indexes) (c : Span) (t s : String)
      → IsAccurate spans m
      → All (Resolved (context_key t s) c) (resolve spans m c t s)
  unfolding resolve
  resolve-Resolved m c t s h =
      All-map (λ pi q. (q.0.0, q.1, sym q.0.1)) _
        (All-filter_by_test (HasContext spans (context_key t s)) _
          (positions (context_key t s) m.by_context) (h.contexts (context_key t s)))

  All-insert_key : (Q : ℕ → Type 0) (k : ℕ) (l : List ℕ) → Q k → All Q l → All Q (insert_key k l)
  unfolding insert_key
  All-insert_key Q k [] q h = (q, tt)
  All-insert_key Q k (j ∷ js) q h = elim (Bool-cases (ltb k j)) [
    | inl less ↦ rw less (q, h)
    | inr more ↦ elim (Bool-cases (nat_eq k j)) [
      | inl same ↦ rw (more, same) h
      | inr other ↦ rw (more, other) (h.0, All-insert_key Q k js q h.1)
    ]
  ]

  All-insert_keys : (Q : ℕ → Type 0) (ks l : List ℕ) → All Q ks → All Q l → All Q (insert_keys ks l)
  unfolding insert_keys
  All-insert_keys Q [] l hk h = h
  All-insert_keys Q (k ∷ ks) l hk h =
      All-insert_keys Q ks (insert_key k l) hk.1 (All-insert_key Q k l hk.0 h)

  -- The state of the scan: warranted producers and reported correlations.
  abbrev pub Scanned : ℕ → List ℕ × Result → Type 0
  Scanned ci st =
      All (IsWarranted spans window ci span_link) st.0
      × All (IsReported spans window) st.1.correlations

  link_found-Scanned :
      (ci : ℕ) (found : List ℕ) (st : List ℕ × Result)
      → All (IsWarranted spans window ci span_link) found
      → Scanned ci st
      → Scanned ci (link_found ci found (st.0, count_reference ci st.1))
  unfolding link_found count_reference count_unresolved
  link_found-Scanned ci [] st w h = h
  link_found-Scanned ci (pi ∷ rest) st w h = (All-insert_keys _ (pi ∷ rest) st.0 w h.0, h.1)

  pub scan_links-Scanned :
      (m : Indexes) (ci : ℕ) (ls : List Link) (st : List ℕ × Result)
      → IsAccurate spans m
      → is_consumer (span_at spans ci) ≡ true
      → ((p : Span) → Links ls p → Links (span_at spans ci).links p)
      → Scanned ci st
      → Scanned ci (scan_links spans m (span_at spans ci) ci ls st)
  unfolding scan_links
  scan_links-Scanned m ci [] (linked, r) a c embed h = h
  scan_links-Scanned m ci (l ∷ rest) (linked, r) a c embed h =
      elim (Bool-cases (link_has_valid_context l)) [
        | inl valid ↦
            rw (valid, scan_links)
              (scan_links-Scanned m ci rest _ a c (λ p e. embed p (inr e))
                (link_found-Scanned ci (resolve spans m (span_at spans ci) l.trace_id l.span_id)
                  (linked, r)
                  (All-map
                    (λ pi q. record {
                      produces = q.0;
                      consumes = c;
                      one_scope = q.1;
                      evidence = embed (span_at spans pi) (inl (valid, q.2));
                    })
                    _ (resolve-Resolved m (span_at spans ci) l.trace_id l.span_id a))
                  h))
        | inr broken ↦
            rw (broken, scan_links)
              (scan_links-Scanned m ci rest (linked, r) a c (λ p e. embed p (inr e)) h)
      ]

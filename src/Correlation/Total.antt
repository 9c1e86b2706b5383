-- ===== src/Correlation/Total.antt =====
-- Correlate returns: where no distance of a producer from a consumer reaches 2^63 - 1 nanoseconds and no
-- batch is declared too large to allocate, nothing in it panics.
use async_trace_doctor.Common.{Returns}
use async_trace_doctor.Common.{
  ℕ, ◌≡◌, ◌≤◌, refl, true, false, Option, none, some, List, [], ◌∷◌, All, All-map, All-get_elem?,
  length, get_elem?, ltb, nat_eq, Bool-cases, inl, inr, arith,
}
use async_trace_doctor.Common.Int.{ltb_ℤ, max_int64}
use async_trace_doctor.Model.{
  Duration, Span, empty_span, has_valid_parent_context, message_identity, attr_int, is_producer,
  is_consumer, operation,
}
use async_trace_doctor.Correlation.Compatible.{delta, route_lookup_key}
use async_trace_doctor.Correlation.Indexes.{span_at, Indexes, build_indexes, positions}
use async_trace_doctor.Correlation.Nearest.{
  Candidate, search_position, max_capacity, nearest_route_candidates,
}
use async_trace_doctor.Correlation.Defs.{
  Result, no_result, add_correlation, add_all, count_reference, count_unresolved, resolve,
  scan_links, by_identity, by_time, batch_limit, identity_method, parent_context,
  time_window_heuristic, high, medium, low, candidate_indices, correlate_by_time,
  correlate_by_identity, correlate_by_parent, correlate_by_links, correlate_consumer,
  correlate_loop, correlate,
}
use async_trace_doctor.Correlation.Sources.{IsAccurate, build_indexes-IsAccurate}
use async_trace_doctor.Correlation.Returns.{IsClose, search_from-le, nearest_loop-Returns}

-- No producer's distance from the consumer is 2^63 - 1 nanoseconds, and its batch can be allocated.
abbrev pub IsServed : List Span → Span → Type 0
IsServed spans c =
    All (λ p. is_producer p ≡ true → ltb_ℤ (delta p c) max_int64 ≡ true) spans
    × (batch_limit (attr_int c.attributes "messaging.batch.message_count") ≤ max_capacity)

empty-not_producer : is_producer empty_span ≡ false
unfolding is_producer operation
empty-not_producer = refl

empty-not_consumer : is_consumer empty_span ≡ false
unfolding is_consumer operation
empty-not_consumer = refl

module _ (spans : List Span) (window : Duration) where
  IsClose-at :
      (c : Span) (pi : ℕ)
      → IsServed spans c
      → is_producer (span_at spans pi) ≡ true
      → IsClose spans window c pi
  unfolding span_at
  IsClose-at c pi served = first (get_elem? spans pi) refl
    where
      first :
          (o : Option Span)
          → get_elem? spans pi ≡ o
          → is_producer (elim o [ none ↦ empty_span | some s ↦ s ]) ≡ true
          → ltb_ℤ (delta (elim o [ none ↦ empty_span | some s ↦ s ]) c) max_int64 ≡ true
      first none e p = absurd (cc (empty-not_producer, p))
      first (some s) e p = All-get_elem? _ spans pi served.0 e p

  search_position-le :
      (c : Span) (indices : List ℕ) → search_position spans c indices ≤ length indices
  unfolding search_position
  search_position-le c indices = search_from-le (length indices) _ 0 (length indices) (omega arith)

  candidates-Returns :
      (c : Span) (indices : List ℕ) (limit : ℕ)
      → All (IsClose spans window c) indices
      → limit ≤ max_capacity
      → Returns (nearest_route_candidates indices spans c window limit)
  unfolding nearest_route_candidates
  candidates-Returns c [] limit h l = ([], refl)
  candidates-Returns c (i ∷ is) limit h l = elim (Bool-cases (nat_eq limit 0)) [
    | inl none_wanted ↦ ([], rw (none_wanted, nearest_route_candidates) refl)
    | inr wanted ↦
        let modest : ltb max_capacity limit ≡ false = ground arith in
        rw (wanted, modest, nearest_route_candidates)
          (nearest_loop-Returns spans window (length (i ∷ is)) c (i ∷ is) limit
            (search_position spans c (i ∷ is)) (search_position spans c (i ∷ is)) [] h
            (search_position-le c (i ∷ is)))
  ]

  module _ (m : Indexes) (ci : ℕ) (c : Span) (accurate : IsAccurate spans m)
      (served : IsServed spans c) where
    by_time-Returns : Returns (by_time spans m c window)
    unfolding by_time
    by_time-Returns =
        candidates-Returns c (positions (route_lookup_key c) m.by_route) _
          (All-map (λ pi q. IsClose-at c pi served q.0) _ (accurate.routes (route_lookup_key c)))
          served.1

    correlate_by_time-Returns : (r : Result) → Returns (correlate_by_time spans m window ci c r)
    unfolding correlate_by_time
    correlate_by_time-Returns r =
        let (found, e) = by_time-Returns in
        (
          add_all spans ci time_window_heuristic low r (candidate_indices found),
          rw (e, correlate_by_time) refl,
        )

    correlate_by_identity-Returns :
        (r : Result) → Returns (correlate_by_identity spans m window ci c r)
    unfolding correlate_by_identity
    correlate_by_identity-Returns r = first (by_identity spans m c window)
      where
        first :
            (l : List Candidate)
            → Returns (elim l [
              | [] ↦ correlate_by_time spans m window ci c r
              | a ∷ rest ↦ some (
                  add_correlation spans ci
                    (identity_method (message_identity c).0)
                    medium
                    r
                    a.index)
            ])
        first [] = correlate_by_time-Returns r
        first (a ∷ rest) = (_, refl)

    correlate_by_parent-Returns : (r : Result) → Returns (correlate_by_parent spans m window ci c r)
    unfolding correlate_by_parent
    correlate_by_parent-Returns r = elim (Bool-cases (has_valid_parent_context c)) [
      | inr orphan ↦ rw (orphan, correlate_by_parent) (correlate_by_identity-Returns r)
      | inl child ↦
          rw (child, correlate_by_parent) (first (resolve spans m c c.trace_id c.parent_span_id))
    ]
      where
        first :
            (l : List ℕ)
            → Returns (elim l [
              | [] ↦
                  correlate_by_identity spans m window ci c
                    (count_unresolved ci (count_reference ci r))
              | pi ∷ rest ↦
                  some (add_correlation spans ci parent_context high (count_reference ci r) pi)
            ])
        first [] = correlate_by_identity-Returns (count_unresolved ci (count_reference ci r))
        first (pi ∷ rest) = (_, refl)

    correlate_by_links-Returns :
        (st : List ℕ × Result) → Returns (correlate_by_links spans m window ci c st)
    unfolding correlate_by_links
    correlate_by_links-Returns ([], r) = correlate_by_parent-Returns r
    correlate_by_links-Returns (pi ∷ rest, r) = (_, refl)

  correlate_loop-Returns :
      (m : Indexes) (cis : List ℕ) (r : Result)
      → IsAccurate spans m
      → All (λ ci. IsServed spans (span_at spans ci)) cis
      → Returns (correlate_loop spans m window cis r)
  unfolding correlate_loop correlate_consumer
  correlate_loop-Returns m [] r a h = (r, refl)
  correlate_loop-Returns m (ci ∷ rest) r a h =
      let c : Span = span_at spans ci in
      let (t, e) =
        correlate_by_links-Returns m ci c a h.0 (scan_links spans m c ci c.links ([], r)) in
      let (u, f) = correlate_loop-Returns m rest t a h.1 in (u, rw (e, correlate_loop) f)

  IsServed-at :
      All (λ c. is_consumer c ≡ true → IsServed spans c) spans
      → (ci : ℕ) → is_consumer (span_at spans ci) ≡ true
      → IsServed spans (span_at spans ci)
  unfolding span_at
  IsServed-at h ci = first (get_elem? spans ci) refl
    where
      first :
          (o : Option Span)
          → get_elem? spans ci ≡ o
          → is_consumer (elim o [ none ↦ empty_span | some s ↦ s ]) ≡ true
          → IsServed spans (elim o [ none ↦ empty_span | some s ↦ s ])
      first none e p = absurd (cc (empty-not_consumer, p))
      first (some s) e p = All-get_elem? _ spans ci h e p

  -- Correlate returns a result for spans of which no producer has a distance of 2^63 - 1 nanoseconds from
  -- a consumer, as delta computes it, and no consumer declares a batch of more than 2^44 messages.
  pub correlate-Returns :
      All (λ c. is_consumer c ≡ true → IsServed spans c) spans → Returns (correlate spans window)
  unfolding correlate
  correlate-Returns h =
      let a = build_indexes-IsAccurate spans in
      correlate_loop-Returns (build_indexes spans) _ no_result a
        (All-map (λ ci k. IsServed-at h ci k) _ a.consuming)

-- ===== src/Store/Metrics.antt =====
-- The Prometheus counters of the store agree with the statistics that a report shows.
use async_trace_doctor.Common.{
  ℕ, ◌+◌, ◌≡◌, refl, subst, inl, inr, Bool, true, false, some, List, [], ◌∷◌, length, if◌then◌else◌,
  Option-cases, arith,
}
use async_trace_doctor.Common.Int.{u64}
use async_trace_doctor.Model.{Time, Span}
use async_trace_doctor.Store.Defs.{
  Store, AddResult, Verdict, stale, zero_metrics, zero_result, new_store, update_gauges,
  drop_expired, evict, judge, settle, add_loop, add,
}

-- A statistic is a uint64, so it is the sum of the counters up to its wrap-around.
pub record Agrees (s : Store) : Type 0 where
  pub rejections :
      s.stats.rejected_spans
      ≡ u64 (
          s.metrics.rejected_stale + s.metrics.rejected_conflicting_duplicate
          + s.metrics.rejected_capacity + s.metrics.rejected_memory)
  pub duplicates : s.stats.duplicate_exports ≡ u64 s.metrics.duplicate_exports
  pub conflicts : s.stats.conflicting_duplicates ≡ u64 s.metrics.conflicting_duplicates
  pub conflict_label : s.metrics.conflicting_duplicates ≡ s.metrics.rejected_conflicting_duplicate
  pub evictions : s.stats.ttl_evictions ≡ u64 s.metrics.evictions_ttl

pub new_store-Agrees : (max ttl max_bytes : ℕ) → Agrees (new_store max ttl zero_metrics max_bytes)
unfolding new_store
new_store-Agrees max ttl max_bytes = record {
  rejections = refl;
  duplicates = refl;
  conflicts = refl;
  conflict_label = refl;
  evictions = refl;
}

settle-Agrees :
    (v : Verdict) (span : Span) (s : Store) (r : AddResult)
    → Agrees s
    → Agrees (settle v span (s, r)).0
unfolding settle
settle-Agrees stale span s r h = ground arith
settle-Agrees _ span s r h = ground arith

update_gauges-Agrees : {s : Store} → Agrees s → Agrees (update_gauges s)
unfolding update_gauges
update_gauges-Agrees h = ground arith

drop_expired-Agrees :
    (n : ℕ) (kept : List Span) {s : Store} → Agrees s → Agrees (drop_expired n kept s)
drop_expired-Agrees n kept h = ground arith

pub evict-Agrees : (now : Time) {s : Store} → Agrees s → Agrees (evict now s)
unfolding evict
evict-Agrees now {s} h = update_gauges-Agrees (either _ (drop_expired-Agrees _ _ h))
  where
    either : (b : Bool) {t : Store} → Agrees t → Agrees (if b then t else s)
    either true k = k
    either false k = h

add_loop-Agrees :
    (now : Time) (batch : List Span) (s : Store) (r : AddResult) {st : Store × AddResult}
    → Agrees s
    → add_loop now batch (s, r) ≡ some st
    → Agrees st.0
unfolding add_loop
add_loop-Agrees now [] s r {st} h e =
    let p : (s, r) ≡ st = cc e in subst (λ (w : Store × AddResult). Agrees w.0) p h
add_loop-Agrees now (span ∷ rest) s r {st} h e = elim (Option-cases (judge now s span)) [
  | inl panics ↦ cc (rw (panics, add_loop) at e)
  | inr (v, j) ↦
      add_loop-Agrees now rest (settle v span (s, r)).0 (settle v span (s, r)).1
        (settle-Agrees v span s r h) (rw (j, add_loop) at e)
]

gauges : (s : Store) → (update_gauges s).metrics.state_spans ≡ length (update_gauges s).spans
unfolding update_gauges
gauges s = refl

-- After an Add the counters still agree with the statistics, and the two gauges show the number of
-- retained spans and the estimate of their bytes.
pub add-Agrees :
    (now : Time) (batch : List Span) (s : Store) {s' : Store} {r : AddResult}
    → Agrees s
    → add now batch s ≡ some (s', r)
    → Agrees s'
      × (s'.metrics.state_spans ≡ length s'.spans)
      × (s'.metrics.state_bytes ≡ s'.current_bytes)
unfolding add update_gauges
add-Agrees now batch s {s'} {r} h e =
    elim (Option-cases (add_loop now batch (evict now s, zero_result))) [
      | inl panics ↦ cc (rw (panics, add) at e)
      | inr ((t, q), loop) ↦
          let p : some (update_gauges t, q) ≡ some (s', r) = rw (loop, add) at e in
          let g : update_gauges t ≡ s' = cc p in
          subst
            (λ (w : Store).
              Agrees w
              × (w.metrics.state_spans ≡ length w.spans)
              × (w.metrics.state_bytes ≡ w.current_bytes))
            g
            (
              update_gauges-Agrees
                  (add_loop-Agrees now batch (evict now s) zero_result (evict-Agrees now h) loop),
              refl,
              refl,
            )
    ]

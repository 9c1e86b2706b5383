-- ===== src/Tests/StoreTests.antt =====
-- The statements about the store at a batch of two spans.
use async_trace_doctor.Common.{
  ℕ, ◌+◌, ◌≤◌, ◌<◌, ◌≡◌, refl, ◌≢◌, false, none, some, length, All, arith,
}
use async_trace_doctor.Common.Dict
use async_trace_doctor.Store.{
  Store, AddResult, zero_metrics, zero_result, new_store, add, evict, snapshot, span_identity,
  has_nan, estimate_span_bytes,
}
use async_trace_doctor.Store.Invariant.{IsSound, new_store-IsSound}
use async_trace_doctor.Store.Admission.{limits, live, receive, add-eq-receive}
use async_trace_doctor.Store.Accounting.{add_accounts}
use async_trace_doctor.Store.Metrics.{Agrees, new_store-Agrees, add-Agrees}
use async_trace_doctor.Store.Reachable.{here, next, adds, Reach-new_store}
use async_trace_doctor.Store.Reexport.{add_again}
use async_trace_doctor.Store.Snapshots.{IsFresh, new_store-IsFresh, add-IsFresh, snapshot_current}
use async_trace_doctor.Tests.Samples.{arrival, small, export}

abbrev outcome : Store × AddResult
outcome = elim (add arrival export small) [ none ↦ (small, zero_result) | some w ↦ w ]

export_taken : add arrival export small ≡ some outcome
unfolding add new_store span_identity estimate_span_bytes Dict.get Dict.put
export_taken = refl

export_counts : outcome.1 ≡ record zero_result { accepted = 2 }
unfolding add new_store span_identity estimate_span_bytes Dict.get Dict.put
export_counts = refl

export_named : All (λ x. span_identity x ≢ "") export
unfolding span_identity
export_named = (λ p. cc, (λ p. cc, tt))

export_finite : All (λ x. has_nan x ≡ false) export
unfolding has_nan
export_finite = (refl, (refl, tt))

small-IsSound : IsSound small
small-IsSound = new_store-IsSound 4 60000000000 zero_metrics 1000000

add-eq-receive_example :
    (s' : Store) × (r : AddResult) × (add arrival export small ≡ some (s', r))
    × IsSound s'
    × ((s'.spans, r)
        ≡ receive arrival (limits small) export (live arrival small.ttl small.spans) zero_result)
    × (limits s' ≡ limits small)
add-eq-receive_example = add-eq-receive arrival export small small-IsSound

add_accounts_example :
    (outcome.1.accepted + outcome.1.rejected + outcome.1.duplicate_exports ≡ length export)
    × (length outcome.0.spans ≡ length (live arrival small.ttl small.spans) + outcome.1.accepted)
    × (outcome.1.conflicting_duplicates + outcome.1.rejected_memory ≤ outcome.1.rejected)
add_accounts_example = add_accounts arrival export small small-IsSound export_taken

add-Agrees_example :
    Agrees outcome.0
    × (outcome.0.metrics.state_spans ≡ length outcome.0.spans)
    × (outcome.0.metrics.state_bytes ≡ outcome.0.current_bytes)
add-Agrees_example =
    add-Agrees arrival export small (new_store-Agrees 4 60000000000 1000000) export_taken

Reach-new_store_example :
    (length outcome.0.spans ≤ 4)
    × (0 < 1000000 → outcome.0.current_bytes ≤ 1000000)
    × IsSound outcome.0
    × Agrees outcome.0
Reach-new_store_example =
    Reach-new_store 4 60000000000 1000000 (next here (adds arrival export outcome.1 export_taken))

add_again_example :
    (t : Store) × (add arrival export outcome.0
      ≡ some (t, record zero_result { duplicate_exports = length export }))
    × (t.spans ≡ outcome.0.spans)
add_again_example =
    add_again arrival export small small-IsSound export_taken (rw export_counts refl) export_named
      export_finite

small-IsFresh : IsFresh 0 small
small-IsFresh = new_store-IsFresh 4 60000000000 zero_metrics 1000000

add-IsFresh_example : (e : ℕ) × IsFresh e outcome.0 × (0 ≤ e) × (e ≤ 0 + 1 + length export)
add-IsFresh_example = add-IsFresh arrival export small 0 small-IsFresh export_taken

snapshot_current_example :
    ((snapshot arrival small).1 ≡ (evict arrival small).spans)
    × ((snapshot arrival small).0.spans ≡ (evict arrival small).spans)
    × IsFresh 0 (snapshot arrival small).0
snapshot_current_example = snapshot_current arrival small 0 small-IsFresh (omega arith)

-- ===== src/Store/Defs.antt =====
-- The state of internal/server/store.go and its operations. Each holds the store's lock, so each is
-- one step from a state to a state; the moment at which it reads the clock is an argument.
-- `none` stands for a panic: the read of an element that the slice of spans does not have.
use async_trace_doctor.Common.{
  ℕ, suc, ◌+◌, ◌-◌, Bool, true, false, ◌&&◌, not, Option, none, some, List, [], ◌∷◌, ◌++◌, length,
  get_elem?, filter_by, ltb, leb, nat_eq, ◌==◌, if◌then◌else◌,
}
use async_trace_doctor.Common.Int.{u64}
use async_trace_doctor.Common.Dict
use async_trace_doctor.Common.Dict.{Dict}
use async_trace_doctor.Model.{Time, is_zero, is_before, Span}
use async_trace_doctor.Store.Digest.{
  span_identity, span_content_hash, deep_equal, estimate_span_bytes,
}

pub record StoreEntry : Type 0 where
  pub index : ℕ
  pub content_hash : ℕ

-- Each is a uint64.
pub record StoreStats : Type 0 where
  pub rejected_spans : ℕ
  pub duplicate_exports : ℕ
  pub conflicting_duplicates : ℕ
  pub ttl_evictions : ℕ

pub record AddResult : Type 0 where
  pub accepted : ℕ
  pub rejected : ℕ
  pub duplicate_exports : ℕ
  pub conflicting_duplicates : ℕ
  pub rejected_memory : ℕ

-- The Prometheus counters and gauges that the store writes, one field for each label.
pub record StoreMetrics : Type 0 where
  pub audited : ℕ
  pub evictions_ttl : ℕ
  pub rejected_stale : ℕ
  pub rejected_conflicting_duplicate : ℕ
  pub rejected_capacity : ℕ
  pub rejected_memory : ℕ
  pub duplicate_exports : ℕ
  pub conflicting_duplicates : ℕ
  pub state_spans : ℕ
  pub state_bytes : ℕ

-- `max_bytes` and `ttl` are signed in Go: no limit of bytes at or below zero is in force, which is
-- the limit 0 here, and the receiver refuses to start with a TTL or a `max` that is not positive.
pub record Store : Type 0 where
  pub spans : List Span
  pub max : ℕ
  pub max_bytes : ℕ
  pub current_bytes : ℕ
  pub ttl : ℕ
  pub metrics : StoreMetrics
  pub index : Dict StoreEntry
  pub stats : StoreStats
  pub generation : ℕ  -- uint64
  pub last_snapshot_generation : ℕ  -- uint64
  pub cached_snapshot : Option (List Span)  -- `none` is the nil slice

abbrev pub zero_metrics : StoreMetrics
zero_metrics = record {
  audited = 0;
  evictions_ttl = 0;
  rejected_stale = 0;
  rejected_conflicting_duplicate = 0;
  rejected_capacity = 0;
  rejected_memory = 0;
  duplicate_exports = 0;
  conflicting_duplicates = 0;
  state_spans = 0;
  state_bytes = 0;
}

abbrev pub zero_stats : StoreStats
zero_stats = record {
  rejected_spans = 0;
  duplicate_exports = 0;
  conflicting_duplicates = 0;
  ttl_evictions = 0;
}

abbrev pub zero_result : AddResult
zero_result = record {
  accepted = 0;
  rejected = 0;
  duplicate_exports = 0;
  conflicting_duplicates = 0;
  rejected_memory = 0;
}

unfoldable pub new_store : ℕ → ℕ → StoreMetrics → ℕ → Store
new_store max ttl metrics max_bytes = record {
  spans = [];
  max = max;
  max_bytes = max_bytes;
  current_bytes = 0;
  ttl = ttl;
  metrics = metrics;
  index = [];
  stats = zero_stats;
  generation = 0;
  last_snapshot_generation = 0;
  cached_snapshot = none;
}

unfoldable pub total_bytes : List Span → ℕ
total_bytes [] = 0
total_bytes (x ∷ xs) = estimate_span_bytes x + total_bytes xs

-- `!span.End.IsZero() && span.End.Before(now.Add(-s.ttl))`
unfoldable pub is_expired : Time → ℕ → Span → Bool
is_expired now ttl span = not (is_zero span.end) && is_before span.end (now - ttl)

-- rebuildIndexLocked, from the position `i` on
unfoldable pub rebuild_from : ℕ → List Span → Dict StoreEntry → Dict StoreEntry
rebuild_from i [] index = index
rebuild_from i (span ∷ spans) index = rebuild_from (suc i) spans (
    if not (span_identity span == "")
    then Dict.put (span_identity span) (record { index = i; content_hash = span_content_hash span })
        index
    else index)

unfoldable pub rebuild_index : List Span → Dict StoreEntry
unfolding rebuild_from
rebuild_index spans = rebuild_from 0 spans []

unfoldable pub update_gauges : Store → Store
update_gauges s = record s {
  metrics = record s.metrics { state_spans = length s.spans; state_bytes = s.current_bytes };
}

-- What evictLocked writes where `n` spans have expired and `kept` have not.
abbrev pub drop_expired : ℕ → List Span → Store → Store
drop_expired n kept s = record s {
  spans = kept;
  current_bytes = total_bytes kept;
  generation = u64 (s.generation + 1);
  metrics = record s.metrics { evictions_ttl = s.metrics.evictions_ttl + n };
  stats = record s.stats { ttl_evictions = u64 (s.stats.ttl_evictions + n) };
  index = rebuild_index kept;
}

-- evictLocked. It compacts the slice in place; where nothing has expired that writes every span over
-- itself, and otherwise the slice is replaced by a copy.
unfoldable pub evict : Time → Store → Store
unfolding is_expired update_gauges total_bytes rebuild_index
evict now s =
    let kept = filter_by (λ span. not (is_expired now s.ttl span)) s.spans in
    let n = length s.spans - length kept in
    update_gauges (if ltb 0 n then drop_expired n kept s else s)

-- What the loop of Add finds out about one span.
pub data Verdict : Type 0 where
  stale duplicate conflict over_capacity over_memory admitted : Verdict

-- existing, ok := s.index[identity]; identity != "" && ok
unfoldable pub existing : Store → Span → Option StoreEntry
existing s span =
    if not (span_identity span == "") then Dict.get (span_identity span) s.index else none

abbrev pub content_verdict : Bool → Verdict
content_verdict true = duplicate
content_verdict false = conflict

-- existing.contentHash == hash && reflect.DeepEqual(s.spans[existing.index], span)
unfoldable pub compare_content : Store → StoreEntry → Span → Option Verdict
compare_content s e span =
    if nat_eq e.content_hash (span_content_hash span)
    then (elim (get_elem? s.spans e.index) [
      | none ↦ none
      | some old ↦ some (content_verdict (deep_equal old span))
    ])
    else some conflict

-- The limits of count and of bytes, for a span that is not in the store.
unfoldable pub check_limits : Store → Span → Verdict
check_limits s span =
    if leb s.max (length s.spans)
    then over_capacity
    else if ltb 0 s.max_bytes && ltb s.max_bytes (s.current_bytes + estimate_span_bytes span)
    then over_memory
    else admitted

-- The tests of the loop's body, in their order.
unfoldable pub judge : Time → Store → Span → Option Verdict
unfolding is_expired existing compare_content check_limits
judge now s span = if is_expired now s.ttl span then some stale else (elim (existing s span) [
  | some e ↦ compare_content s e span
  | none ↦ some (check_limits s span)
])

abbrev pub reject_stats : StoreStats → StoreStats
reject_stats t = record t { rejected_spans = u64 (t.rejected_spans + 1) }

-- What the loop's body writes for each verdict.
unfoldable pub settle : Verdict → Span → Store × AddResult → Store × AddResult
settle stale span (s, r) = (
  record s {
    stats = record (reject_stats s.stats) { ttl_evictions = u64 (s.stats.ttl_evictions + 1) };
    metrics = record s.metrics {
      evictions_ttl = s.metrics.evictions_ttl + 1;
      rejected_stale = s.metrics.rejected_stale + 1;
    };
  },
  record r { rejected = r.rejected + 1 },
)
settle duplicate span (s, r) = (
  record s {
    stats = record s.stats { duplicate_exports = u64 (s.stats.duplicate_exports + 1) };
    metrics = record s.metrics { duplicate_exports = s.metrics.duplicate_exports + 1 };
  },
  record r { duplicate_exports = r.duplicate_exports + 1 },
)
settle conflict span (s, r) = (
  record s {
    stats = record (reject_stats s.stats) {
      conflicting_duplicates = u64 (s.stats.conflicting_duplicates + 1);
    };
    metrics = record s.metrics {
      conflicting_duplicates = s.metrics.conflicting_duplicates + 1;
      rejected_conflicting_duplicate = s.metrics.rejected_conflicting_duplicate + 1;
    };
  },
  record r { rejected = r.rejected + 1; conflicting_duplicates = r.conflicting_duplicates + 1 },
)
settle over_capacity span (s, r) = (
  record s {
    stats = reject_stats s.stats;
    metrics = record s.metrics { rejected_capacity = s.metrics.rejected_capacity + 1 };
  },
  record r { rejected = r.rejected + 1 },
)
settle over_memory span (s, r) = (
  record s {
    stats = reject_stats s.stats;
    metrics = record s.metrics { rejected_memory = s.metrics.rejected_memory + 1 };
  },
  record r { rejected = r.rejected + 1; rejected_memory = r.rejected_memory + 1 },
)
settle admitted span (s, r) = (
  record s {
    spans = s.spans ++ span ∷ [];
    current_bytes = s.current_bytes + estimate_span_bytes span;
    generation = u64 (s.generation + 1);
    index =
        if not (span_identity span == "")
        then Dict.put (span_identity span)
            (record { index = length s.spans; content_hash = span_content_hash span }) s.index
        else s.index;
    metrics = record s.metrics { audited = s.metrics.audited + 1 };
  },
  record r { accepted = r.accepted + 1 },
)

-- The loop of Add.
unfoldable pub add_loop : Time → List Span → Store × AddResult → Option (Store × AddResult)
unfolding judge settle
add_loop now [] st = some st
add_loop now (span ∷ rest) st = elim (judge now st.0 span) [
  | none ↦ none
  | some v ↦ add_loop now rest (settle v span st)
]

unfoldable pub add : Time → List Span → Store → Option (Store × AddResult)
unfolding add_loop evict update_gauges
add now batch s = elim (add_loop now batch (evict now s, zero_result)) [
  | none ↦ none
  | some (s', r) ↦ some (update_gauges s', r)
]

unfoldable pub take_snapshot : Store → Store × List Span
take_snapshot s =
    (record s { cached_snapshot = some s.spans; last_snapshot_generation = s.generation }, s.spans)

-- Snapshot, after the eviction.
unfoldable pub read_snapshot : Option (List Span) → Store → Store × List Span
unfolding take_snapshot
read_snapshot none s = take_snapshot s
read_snapshot (some cached) s =
    if nat_eq s.generation s.last_snapshot_generation then (s, cached) else take_snapshot s

unfoldable pub snapshot : Time → Store → Store × List Span
unfolding read_snapshot
snapshot now s = let s' = evict now s in read_snapshot s'.cached_snapshot s'

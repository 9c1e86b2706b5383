-- ===== src/Store/Snapshots.antt =====
-- The snapshot cache of internal/server/store.go: a cached copy is handed out only while it is what
-- the store retains.
use async_trace_doctor.Common.{
  ℕ, ◌+◌, ◌≤◌, ◌<◌, ◌^◌, ◌≡◌, refl, subst, inl, inr, Option, none, some, List, [], ◌∷◌, length, ltb,
  nat_eq, nat_eq→eq, ◌-◌, not, filter_by, Option-cases, Bool-cases, arith,
}
use async_trace_doctor.Common.Int.{u64}
use async_trace_doctor.Model.{Time, Span}
use async_trace_doctor.Store.Defs.{
  Store, AddResult, StoreMetrics, Verdict, admitted, zero_result, new_store, is_expired,
  update_gauges, evict, judge, settle, add_loop, add, read_snapshot, take_snapshot, snapshot,
}

-- The store has changed `d` times since the last snapshot, which `d` changes of the generation record.
pub record IsFresh (d : ℕ) (s : Store) : Type 0 where
  pub behind : s.generation ≡ u64 (s.last_snapshot_generation + d)
  pub in_range : s.last_snapshot_generation < 2 ^ 64
  pub same : (c : List Span) → s.cached_snapshot ≡ some c → d ≡ 0 → c ≡ s.spans

pub new_store-IsFresh :
    (max ttl : ℕ) (m : StoreMetrics) (max_bytes : ℕ) → IsFresh 0 (new_store max ttl m max_bytes)
unfolding new_store
new_store-IsFresh max ttl m max_bytes = record {
  behind = refl;
  in_range = omega arith;
  same = λ c p z. cc;
}

-- Any state whose generation has moved on by one is fresh at one change more.
module _ {d : ℕ} {s : Store} (h : IsFresh d s) where
  moved :
      (t : Store)
      → t.generation ≡ u64 (s.generation + 1)
      → t.last_snapshot_generation ≡ s.last_snapshot_generation
      → IsFresh (d + 1) t
  moved t g l = record {
    behind = omega (arith, h.behind);
    in_range = omega (arith, h.in_range);
    same = λ c p z. absurd (omega arith);
  }

-- An eviction changes the store once or not at all.
pub evict-IsFresh :
    (now : Time) (d : ℕ) {s : Store}
    → IsFresh d s
    → (e : ℕ) × IsFresh e (evict now s) × (d ≤ e) × (e ≤ d + 1)
unfolding evict update_gauges
evict-IsFresh now d {s} h =
    elim (Bool-cases (
      ltb 0
        (length s.spans - length (filter_by (λ span. not (is_expired now s.ttl span)) s.spans)))) [
          | inl gone ↦ (d + 1, rw gone (moved h _ refl refl), omega arith, omega arith)
          | inr kept ↦ (
            d,
            rw kept (record { behind = h.behind; in_range = h.in_range; same = h.same }),
            omega arith,
            omega arith,
          )
        ]

settle-IsFresh :
    (v : Verdict) (span : Span) (s : Store) (r : AddResult) (d : ℕ)
    → IsFresh d s
    → (e : ℕ) × IsFresh e (settle v span (s, r)).0 × (d ≤ e) × (e ≤ d + 1)
unfolding settle
settle-IsFresh admitted span s r d h = (d + 1, moved h _ refl refl, omega arith, omega arith)
settle-IsFresh _ span s r d h = (
  d,
  record { behind = h.behind; in_range = h.in_range; same = h.same },
  omega arith,
  omega arith,
)

add_loop-IsFresh :
    (now : Time) (batch : List Span) (s : Store) (r : AddResult) {st : Store × AddResult} (d : ℕ)
    → IsFresh d s
    → add_loop now batch (s, r) ≡ some st
    → (e : ℕ) × IsFresh e st.0 × (d ≤ e) × (e ≤ d + length batch)
unfolding add_loop
add_loop-IsFresh now [] s r {st} d h p =
    let q : (s, r) ≡ st = cc p in
    (d, subst (λ (w : Store × AddResult). IsFresh d w.0) q h, omega arith, omega arith)
add_loop-IsFresh now (span ∷ rest) s r {st} d h p = elim (Option-cases (judge now s span)) [
  | inl panics ↦ cc (rw (panics, add_loop) at p)
  | inr (v, j) ↦
      let (e, k, lo, hi) = settle-IsFresh v span s r d h in
      let (e', k', lo', hi') =
        add_loop-IsFresh now rest (settle v span (s, r)).0 (settle v span (s, r)).1 e k
          (rw (j, add_loop) at p) in
      (e', k', omega arith, omega arith)
]

-- An Add of n spans changes the store at most n + 1 times.
pub add-IsFresh :
    (now : Time) (batch : List Span) (s : Store) {s' : Store} {r : AddResult} (d : ℕ)
    → IsFresh d s
    → add now batch s ≡ some (s', r)
    → (e : ℕ) × IsFresh e s' × (d ≤ e) × (e ≤ d + 1 + length batch)
unfolding add update_gauges
add-IsFresh now batch s {s'} {r} d h p =
    elim (Option-cases (add_loop now batch (evict now s, zero_result))) [
      | inl panics ↦ cc (rw (panics, add) at p)
      | inr ((t, q), loop) ↦
          let (e, k, lo, hi) = evict-IsFresh now d h in
          let (e', k', lo', hi') = add_loop-IsFresh now batch (evict now s) zero_result e k loop in
          let g : some (update_gauges t, q) ≡ some (s', r) = rw (loop, add) at p in
          let g' : update_gauges t ≡ s' = cc g in
          (
            e',
            subst (IsFresh e') g'
                (record { behind = k'.behind; in_range = k'.in_range; same = k'.same }),
            omega arith,
            omega arith,
          )
    ]

take_snapshot-IsFresh : (s : Store) → s.generation < 2 ^ 64 → IsFresh 0 (take_snapshot s).0
unfolding take_snapshot
take_snapshot-IsFresh s g = record { behind = omega arith; in_range = g; same = λ c p z. cc }

read_snapshot-current :
    (t : Store) (e : ℕ) (o : Option (List Span))
    → IsFresh e t
    → e < 2 ^ 64
    → t.cached_snapshot ≡ o
    → ((read_snapshot o t).1 ≡ t.spans)
      × ((read_snapshot o t).0.spans ≡ t.spans)
      × IsFresh 0 (read_snapshot o t).0
unfolding read_snapshot take_snapshot
read_snapshot-current t e none k small p =
    (refl, refl, take_snapshot-IsFresh t (omega (arith, k.behind)))
read_snapshot-current t e (some c) k small p =
    elim (Bool-cases (nat_eq t.generation t.last_snapshot_generation)) [
      | inl equal ↦
          let no_change : e ≡ 0 = omega (arith, k.behind, k.in_range, nat_eq→eq _ _ equal) in
          rw equal (k.same c p no_change, refl, subst (λ n. IsFresh n t) no_change k)
      | inr newer ↦ rw newer (refl, refl, take_snapshot-IsFresh t (omega (arith, k.behind)))
    ]

-- Where the store has changed fewer than 2^64 - 1 times since the last snapshot, the next one hands out
-- exactly the spans that the store retains once the expired ones are gone, and leaves a store that
-- retains the same and has not changed since its snapshot.
pub snapshot_current :
    (now : Time) (s : Store) (d : ℕ)
    → IsFresh d s
    → d + 1 < 2 ^ 64
    → ((snapshot now s).1 ≡ (evict now s).spans)
      × ((snapshot now s).0.spans ≡ (evict now s).spans)
      × IsFresh 0 (snapshot now s).0
unfolding snapshot
snapshot_current now s d h small =
    let (e, k, lo, hi) = evict-IsFresh now d h in
    read_snapshot-current (evict now s) e _ k (omega arith) refl

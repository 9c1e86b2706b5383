-- ===== src/Store/Admission.antt =====
-- Add of internal/server/store.go against a description of it over the list of retained spans alone:
-- no index, no content hashes and no running count of bytes.
use async_trace_doctor.Common.{
  ℕ, suc, ◌+◌, ◌-◌, ◌≤◌, ◌≡◌, refl, sym, ◌∙◌, ap, ◌≢◌, inl, inr, Bool, false, not, ◌&&◌, Option,
  none, some, List, [], ◌∷◌, ◌++◌, length, filter_by, ltb, leb, nat_eq, get_elem?, ◌==◌,
  if◌then◌else◌, Bool-cases, Option-cases, eq_iff, ltb_false→le, arith,
}
use async_trace_doctor.Model.{Time, Span}
use async_trace_doctor.Store.Digest.{
  span_identity, span_content_hash, deep_equal, estimate_span_bytes,
}
use async_trace_doctor.Store.Defs.{
  Store, AddResult, Verdict, stale, duplicate, conflict, over_capacity, over_memory, admitted,
  zero_result, total_bytes, is_expired, update_gauges, evict, existing, compare_content,
  content_verdict, check_limits, judge, settle, add_loop, add,
}
use async_trace_doctor.Store.Lookup.{
  find_entry, find_entry_points, find_span, find_span_of_none, deep_equal_iff, entry_at,
}
use async_trace_doctor.Store.Invariant.{
  IsSound, length-filter_by-le, evict-IsSound, settle-IsSound, update_gauges-IsSound,
}

-- The limits of a store.
pub record Limits : Type 0 where
  pub max : ℕ
  pub max_bytes : ℕ
  pub ttl : ℕ

abbrev pub limits : Store → Limits
limits s = record { max = s.max; max_bytes = s.max_bytes; ttl = s.ttl }

-- The retained span with the identity of a span, where that is not empty.
abbrev pub known : List Span → Span → Option Span
known xs span = if not (span_identity span == "") then find_span (span_identity span) xs else none

abbrev pub room : Limits → List Span → Span → Verdict
room l xs span =
    if leb l.max (length xs)
    then over_capacity
    else if ltb 0 l.max_bytes && ltb l.max_bytes (total_bytes xs + estimate_span_bytes span)
    then over_memory
    else admitted

-- What becomes of a span: stale spans go first, then a span is compared with the retained span of its
-- identity, and a new one wants room.
abbrev pub ruling : Time → Limits → List Span → Span → Verdict
ruling now l xs span = if is_expired now l.ttl span then stale else (elim (known xs span) [
  | some old ↦ content_verdict (deep_equal old span)
  | none ↦ room l xs span
])

abbrev pub keep : Verdict → Span → List Span → List Span
keep admitted span xs = xs ++ span ∷ []
keep _ span xs = xs

abbrev pub tally : Verdict → AddResult → AddResult
tally stale r = record r { rejected = r.rejected + 1 }
tally duplicate r = record r { duplicate_exports = r.duplicate_exports + 1 }
tally conflict r = record r {
  rejected = r.rejected + 1;
  conflicting_duplicates = r.conflicting_duplicates + 1;
}
tally over_capacity r = record r { rejected = r.rejected + 1 }
tally over_memory r = record r {
  rejected = r.rejected + 1;
  rejected_memory = r.rejected_memory + 1;
}
tally admitted r = record r { accepted = r.accepted + 1 }

-- The retained spans and the counts after a batch.
unfoldable pub receive : Time → Limits → List Span → List Span → AddResult → List Span × AddResult
receive now l [] xs r = (xs, r)
receive now l (span ∷ rest) xs r =
    let v = ruling now l xs span in receive now l rest (keep v span xs) (tally v r)

-- The comparison by hash and content agrees with the comparison by content.
compare_content-entry_at :
    (s : Store) (k : ℕ) (old span : Span)
    → get_elem? s.spans k ≡ some old
    → compare_content s (entry_at k old) span ≡ some (content_verdict (deep_equal old span))
unfolding compare_content
compare_content-entry_at s k old span g =
    elim (Bool-cases (nat_eq (span_content_hash old) (span_content_hash span))) [
      | inl same ↦ rw (same, g) refl
      | inr other ↦ elim (Bool-cases (deep_equal old span)) [
        | inl equal ↦
            absurd (hash_differs (ap span_content_hash ((deep_equal_iff old span).0 equal).0) other)
        | inr differ ↦ rw (other, differ) refl
      ]
    ]
  where
    hash_differs : {a b : ℕ} → a ≡ b → nat_eq a b ≡ false → ⊥
    hash_differs p h = ground arith

-- On a sound store the tests of the loop never read out of range, and they answer as described.
pub judge-eq-ruling :
    (now : Time) {s : Store} (span : Span)
    → IsSound s
    → judge now s span ≡ some (ruling now (limits s) s.spans span)
unfolding judge existing check_limits
judge-eq-ruling now {s} span h = elim (Bool-cases (is_expired now s.ttl span)) [
  | inl old ↦ rw old refl
  | inr fresh ↦ elim (Bool-cases (span_identity span == "")) [
    | inl nameless ↦ rw (fresh, nameless, h.weighed) refl
    | inr named ↦
        let n : span_identity span ≢ "" = λ p. ground (arith, eq_iff (span_identity span) "") in
        elim (Option-cases (find_entry (span_identity span) 0 s.spans)) [
          | inl missing ↦
              rw
                (
                  fresh,
                  named,
                  h.indexed _ n,
                  missing,
                  find_span_of_none _ 0 s.spans missing,
                  h.weighed,
                )
                refl
          | inr (e, found) ↦
              let (k, old, p, g, f) = find_entry_points _ 0 s.spans found in
              let z : 0 + k ≡ k = omega arith in
              rw (fresh, named, h.indexed _ n, found, f, p, z)
                (compare_content-entry_at s k old span g)
        ]
  ]
]

settle-eq-keep :
    (v : Verdict) (span : Span) (s : Store) (r : AddResult)
    → ((settle v span (s, r)).0.spans ≡ keep v span s.spans)
      × ((settle v span (s, r)).1 ≡ tally v r)
      × (limits (settle v span (s, r)).0 ≡ limits s)
unfolding settle
settle-eq-keep stale span s r = (refl, refl, refl)
settle-eq-keep _ span s r = (refl, refl, refl)

-- What a finished Add amounts to: a sound store that holds the described spans, with the described counts.
abbrev Received : Time → Limits → List Span → List Span → AddResult → Store × AddResult → Type 0
Received now l batch xs r st =
    IsSound st.0 × ((st.0.spans, st.1) ≡ receive now l batch xs r) × (limits st.0 ≡ l)

add_loop-receive :
    (now : Time) (batch : List Span) (s : Store) (r : AddResult)
    → IsSound s
    → (st : Store × AddResult) × (add_loop now batch (s, r) ≡ some st)
      × Received now (limits s) batch s.spans r st
unfolding add_loop receive
add_loop-receive now [] s r h = ((s, r), refl, (h, refl, refl))
add_loop-receive now (span ∷ rest) s r h =
    let v : Verdict = ruling now (limits s) s.spans span in
    let j = judge-eq-ruling now span h in
    let (p, q, l) = settle-eq-keep v span s r in
    let s' : Store = (settle v span (s, r)).0 in
    let r' : AddResult = (settle v span (s, r)).1 in
    let (st, e, (sound, same, l')) =
      add_loop-receive now rest s' r' (settle-IsSound now span v r h j) in
    (st, rw (j, add_loop) e, (sound, same ∙ (λ i. receive now (l i) rest (p i) (q i)), l' ∙ l))

abbrev pub live : Time → ℕ → List Span → List Span
live now ttl = filter_by (λ span. not (is_expired now ttl span))

all_kept :
    (p : Span → Bool) (xs : List Span) → length xs ≤ length (filter_by p xs) → filter_by p xs ≡ xs
all_kept p [] h = refl
all_kept p (x ∷ xs) h = elim (Bool-cases (p x)) [
  | inl keeps ↦
      let h' : suc (length xs) ≤ suc (length (filter_by p xs)) = rw keeps at h in
      rw keeps (ap (◌∷◌ x) (all_kept p xs (omega arith)))
  | inr drops ↦
      let h' : suc (length xs) ≤ length (filter_by p xs) = rw drops at h in
      absurd (omega (arith, length-filter_by-le p xs))
]

-- After an eviction exactly the spans that have not expired are left, in their order, and the limits
-- are what they were.
pub spans-evict :
    (now : Time) (s : Store)
    → ((evict now s).spans ≡ live now s.ttl s.spans) × (limits (evict now s) ≡ limits s)
unfolding evict update_gauges
spans-evict now s = elim (Bool-cases (ltb 0 (length s.spans - length (live now s.ttl s.spans)))) [
  | inl some_gone ↦ (rw some_gone refl, rw some_gone refl)
  | inr none_gone ↦ (
    rw none_gone (sym (all_kept _ s.spans (omega (arith, ltb_false→le 0 _ none_gone)))),
    rw none_gone refl,
  )
]

-- Add on a sound store never fails. It leaves a sound store with the same limits, and its spans and its
-- counts are those of the description: the expired spans go, and each span of the batch is judged
-- against the spans retained so far.
pub add-eq-receive :
    (now : Time) (batch : List Span) (s : Store)
    → IsSound s
    → (s' : Store) × (r : AddResult) × (add now batch s ≡ some (s', r))
      × IsSound s'
      × ((s'.spans, r) ≡ receive now (limits s) batch (live now s.ttl s.spans) zero_result)
      × (limits s' ≡ limits s)
unfolding add update_gauges
add-eq-receive now batch s h =
    let (p, l) = spans-evict now s in
    let ((t, r), e, (sound, same, l')) =
      add_loop-receive now batch (evict now s) zero_result (evict-IsSound now h) in
    (
      update_gauges t,
      r,
      rw (e, add) refl,
      update_gauges-IsSound sound,
      same ∙ (λ i. receive now (l i) batch (p i) zero_result),
      l' ∙ l,
    )

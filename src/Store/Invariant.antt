-- ===== src/Store/Invariant.antt =====
-- What holds of the store of internal/server/store.go between two operations, and that each
-- operation keeps it.
use async_trace_doctor.Common.{
  ℕ, ◌+◌, ◌-◌, ◌≤◌, ◌<◌, ◌≡◌, refl, sym, ◌∙◌, subst, ◌≢◌, inl, inr, String, Bool, true, false, not,
  none, some, List, [], ◌∷◌, ◌++◌, All-append, length, length-append, filter_by, ltb, ◌==◌,
  if◌then◌else◌, Bool-cases, Option-cases, eq_iff, arith,
}
use async_trace_doctor.Common.Dict
use async_trace_doctor.Model.{Time, Span}
use async_trace_doctor.Store.Digest.{span_identity, estimate_span_bytes}
use async_trace_doctor.Store.Defs.{
  Store, StoreEntry, AddResult, StoreMetrics, Verdict, admitted, new_store, total_bytes, is_expired,
  update_gauges, drop_expired, evict, existing, judge, settle,
}
use async_trace_doctor.Store.Lookup.{
  find_entry, Absent, Unique, Unique-filter_by, Absent-of_find_entry, find_entry-append,
  find_entry-append_found, find_entry_of_Absent, get-rebuild_index, get-index_one, index_one,
}

pub record IsSound (s : Store) : Type 0 where
  pub counted : length s.spans ≤ s.max
  pub weighed : s.current_bytes ≡ total_bytes s.spans
  pub fits : 0 < s.max_bytes → s.current_bytes ≤ s.max_bytes
  pub unique : Unique s.spans
  pub indexed : (id : String) → id ≢ "" → Dict.get id s.index ≡ find_entry id 0 s.spans

pub new_store-IsSound :
    (max ttl : ℕ) (m : StoreMetrics) (max_bytes : ℕ) → IsSound (new_store max ttl m max_bytes)
unfolding new_store total_bytes find_entry Dict.get
new_store-IsSound max ttl m max_bytes = record {
  counted = omega arith;
  weighed = refl;
  fits = λ h. omega arith;
  unique = tt;
  indexed = λ id n. refl;
}

pub length-filter_by-le : (p : Span → Bool) (xs : List Span) → length (filter_by p xs) ≤ length xs
length-filter_by-le p [] = omega arith
length-filter_by-le p (x ∷ xs) = ground (arith, length-filter_by-le p xs)

pub total_bytes-filter_by-le :
    (p : Span → Bool) (xs : List Span) → total_bytes (filter_by p xs) ≤ total_bytes xs
unfolding total_bytes
total_bytes-filter_by-le p [] = omega arith
total_bytes-filter_by-le p (x ∷ xs) = ground (arith, total_bytes-filter_by-le p xs)

pub total_bytes-append :
    (xs : List Span) (x : Span)
    → total_bytes (xs ++ x ∷ []) ≡ total_bytes xs + estimate_span_bytes x
unfolding total_bytes
total_bytes-append [] x = omega arith
total_bytes-append (y ∷ ys) x = omega (arith, total_bytes-append ys x)

pub update_gauges-IsSound : {s : Store} → IsSound s → IsSound (update_gauges s)
unfolding update_gauges
update_gauges-IsSound h = record {
  counted = h.counted;
  weighed = h.weighed;
  fits = h.fits;
  unique = h.unique;
  indexed = h.indexed;
}

drop_expired-IsSound :
    {s : Store} (n : ℕ) (p : Span → Bool)
    → IsSound s
    → IsSound (drop_expired n (filter_by p s.spans) s)
drop_expired-IsSound {s} n p h = record {
  counted = omega (arith, length-filter_by-le p s.spans, h.counted);
  weighed = refl;
  fits = λ b. omega (arith, total_bytes-filter_by-le p s.spans, h.weighed, h.fits b);
  unique = Unique-filter_by p s.spans h.unique;
  indexed =
      λ id n. get-rebuild_index id (filter_by p s.spans) n (Unique-filter_by p s.spans h.unique);
}

-- Eviction keeps the invariant.
pub evict-IsSound : (now : Time) {s : Store} → IsSound s → IsSound (evict now s)
unfolding evict
evict-IsSound now {s} h = update_gauges-IsSound (
    either (ltb 0 (length s.spans - length (filter_by live s.spans)))
      (drop_expired-IsSound (length s.spans - length (filter_by live s.spans)) live h))
  where
    live : Span → Bool
    live = λ span. not (is_expired now s.ttl span)

    either : (b : Bool) {t : Store} → IsSound t → IsSound (if b then t else s)
    either true k = k
    either false k = h

pub Unique-append :
    (xs : List Span) (x : Span)
    → Unique xs
    → (span_identity x ≢ "" → Absent (span_identity x) xs)
    → Unique (xs ++ x ∷ [])
Unique-append [] x u a = (λ n. tt, tt)
Unique-append (y ∷ ys) x u a = (
  λ n. All-append _ ys (x ∷ []) (u.0 n) ((λ p. (a (λ q. n (sym p ∙ q))).0 (sym p)), tt),
  Unique-append ys x u.1 (λ n. (a n).1),
)

-- What the tests of the loop say of a span that is admitted.
pub judge-admitted :
    (now : Time) (s : Store) (span : Span)
    → judge now s span ≡ some admitted
    → (is_expired now s.ttl span ≡ false)
      × (existing s span ≡ none)
      × (length s.spans < s.max)
      × (0 < s.max_bytes → s.current_bytes + estimate_span_bytes span ≤ s.max_bytes)
unfolding judge
judge-admitted now s span h = ground arith

-- A span whose identity the index does not know is in no place of the list.
Absent-of_existing :
    {s : Store} (span : Span)
    → IsSound s
    → existing s span ≡ none
    → span_identity span ≢ ""
    → Absent (span_identity span) s.spans
unfolding existing
Absent-of_existing {s} span h e n =
    Absent-of_find_entry _ 0 s.spans
      (sym (h.indexed _ n) ∙ (ground (arith, eq_iff (span_identity span) "")))

indexed-append :
    {s : Store} (span : Span) (id : String)
    → IsSound s
    → existing s span ≡ none
    → id ≢ ""
    → Dict.get id (index_one (length s.spans) span s.index) ≡ find_entry id 0 (s.spans ++ span ∷ [])
indexed-append {s} span id h e n =
    get-index_one id (length s.spans) span s.index n
    ∙ elim (Option-cases (find_entry id 0 s.spans)) [
      | inl missing ↦
          let z : 0 + length s.spans ≡ length s.spans = omega arith in
          rw (find_entry-append id 0 s.spans span missing, z, h.indexed id n, missing) refl
      | inr (old, found) ↦ elim (Bool-cases (span_identity span == id)) [
        | inl same ↦
            let p : span_identity span ≡ id = (eq_iff _ _).0 same in
            let a = Absent-of_existing span h e (λ q. n (sym p ∙ q)) in
            absurd (found_absent id s.spans found (subst (λ j. Absent j s.spans) p a))
        | inr other ↦
            rw (other, find_entry-append_found id 0 s.spans (span ∷ []) found)
              (h.indexed id n ∙ found)
      ]
    ]
  where
    found_absent :
        (id : String) (xs : List Span) {e : StoreEntry}
        → find_entry id 0 xs ≡ some e
        → Absent id xs
        → ⊥
    found_absent id xs f a = cc (f, find_entry_of_Absent id 0 xs a)

-- The loop's body keeps the invariant on each of its branches.
pub settle-IsSound :
    (now : Time) (span : Span) (v : Verdict) {s : Store} (r : AddResult)
    → IsSound s
    → judge now s span ≡ some v
    → IsSound (settle v span (s, r)).0
unfolding settle
settle-IsSound now span admitted {s} r h j =
    let (_, missing, room, memory) = judge-admitted now s span j in
    record {
      counted = omega (arith, length-append s.spans (span ∷ []));
      weighed = omega (arith, total_bytes-append s.spans span, h.weighed);
      fits = memory;
      unique = Unique-append s.spans span h.unique (Absent-of_existing span h missing);
      indexed = λ id n. indexed-append span id h missing n;
    }
settle-IsSound now span _ {s} r h j = record {
  counted = h.counted;
  weighed = h.weighed;
  fits = h.fits;
  unique = h.unique;
  indexed = h.indexed;
}

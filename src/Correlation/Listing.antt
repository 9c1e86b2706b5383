-- ===== src/Correlation/Listing.antt =====
-- The list of consumers that Correlate walks holds every consumer span of the input.
use async_trace_doctor.Common.{
  ℕ, zero, suc, ◌+◌, ◌≡◌, refl, subst, inl, inr, Bool, true, false, ◌||◌, some, List, [], ◌∷◌, ◌++◌,
  any, get_elem?, nat_eq, if◌then◌else◌, Bool-cases, arith,
}
use async_trace_doctor.Model.{Span, is_consumer, is_producer}
use async_trace_doctor.Correlation.Indexes.{
  Indexes, no_indexes, index_message, index_route, index_producer, index_span, index_from,
  build_indexes,
}

-- The consumer `j` is on the list.
abbrev pub Listed : ℕ → Indexes → Type 0
Listed j m = any (λ ci. nat_eq ci j) m.consumers ≡ true

any-append_left : (f : ℕ → Bool) (xs ys : List ℕ) → any f xs ≡ true → any f (xs ++ ys) ≡ true
any-append_left f [] ys h = absurd (cc h)
any-append_left f (x ∷ xs) ys h = elim (Bool-cases (f x)) [
  | inl so ↦ rw so refl
  | inr other ↦ rw other (any-append_left f xs ys (rw other at h))
]

any-append_right : (f : ℕ → Bool) (xs ys : List ℕ) → any f ys ≡ true → any f (xs ++ ys) ≡ true
any-append_right f [] ys h = h
any-append_right f (x ∷ xs) ys h = rw (any-append_right f xs ys h) (or_true (f x))
  where
    or_true : (b : Bool) → (b || true) ≡ true
    or_true true = refl
    or_true false = refl

consumers-index_producer :
    (i : ℕ) (s : Span) (m : Indexes) → (index_producer i s m).consumers ≡ m.consumers
unfolding index_producer index_route index_message
consumers-index_producer i s m = ground arith

Listed-index_span : (i j : ℕ) (s : Span) (m : Indexes) → Listed j m → Listed j (index_span i s m)
unfolding index_span
Listed-index_span i j s m h = elim (Bool-cases (is_producer s)) [
  | inl so ↦ rw so (last _ (rw (consumers-index_producer i s m) h))
  | inr other ↦ rw other (last m h)
]
  where
    last :
        (t : Indexes)
        → Listed j t
        → Listed j (if is_consumer s then record t { consumers = t.consumers ++ i ∷ [] } else t)
    last t k = elim (Bool-cases (is_consumer s)) [
      | inl so ↦ rw so (any-append_left _ t.consumers (i ∷ []) k)
      | inr other ↦ rw other k
    ]

Listed-index_span_self :
    (i : ℕ) (s : Span) (m : Indexes) → is_consumer s ≡ true → Listed i (index_span i s m)
unfolding index_span
Listed-index_span_self i s m c = rw c (
    any-append_right (λ x. nat_eq x i)
      ((if is_producer s then index_producer i s m else m).consumers) (i ∷ []) (ground arith))

index_from-keeps :
    (i j : ℕ) (xs : List Span) (m : Indexes) → Listed j m → Listed j (index_from i xs m)
unfolding index_from
index_from-keeps i j [] m h = h
index_from-keeps i j (x ∷ xs) m h =
    index_from-keeps (suc i) j xs (index_span i x m) (Listed-index_span i j x m h)

index_from-Listed :
    (i k : ℕ) (xs : List Span) (m : Indexes) {s : Span}
    → get_elem? xs k ≡ some s
    → is_consumer s ≡ true
    → Listed (i + k) (index_from i xs m)
unfolding index_from
index_from-Listed i k [] m h c = absurd (cc h)
index_from-Listed i zero (x ∷ xs) m {s} h c =
    let e : i + 0 ≡ i = omega arith in
    let p : x ≡ s = cc h in
    rw e (index_from-keeps (suc i) i xs (index_span i x m) (Listed-index_span_self i x m (rw p c)))
index_from-Listed i (suc k) (x ∷ xs) m h c =
    let e : i + suc k ≡ suc i + k = omega arith in
    rw e (index_from-Listed (suc i) k xs (index_span i x m) h c)

pub consumers-Listed :
    (spans : List Span) (j : ℕ) {s : Span}
    → get_elem? spans j ≡ some s
    → is_consumer s ≡ true
    → Listed j (build_indexes spans)
unfolding build_indexes
consumers-Listed spans j h c =
    let e : 0 + j ≡ j = omega arith in
    subst (λ k. Listed k (index_from 0 spans no_indexes)) e
      (index_from-Listed 0 j spans no_indexes h c)

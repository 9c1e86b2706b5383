-- ===== src/Correlation/Maps.antt =====
-- The maps that Correlate answers beside the correlations say what the correlations say.
use mathlib.Core.List.{append-nil}
use async_trace_doctor.Common.{
  ℕ, suc, ◌+◌, ◌≡◌, refl, sym, ap, ◌∙◌, Bool, true, false, ◌||◌, some, List, [], ◌∷◌, ◌++◌, length,
  any, nat_eq, nat_eq→eq, if◌then◌else◌, Bool-cases, inl, inr, arith,
}
use async_trace_doctor.Model.{Duration, Span}
use async_trace_doctor.Correlation.Defs.{
  Method, Confidence, Correlation, Result, assign, correlation_of, add_correlation, count_reference,
  count_unresolved, correlate,
}
use async_trace_doctor.Correlation.Keeps.{correlate-keeps}

abbrev pub joins_producer : ℕ → Correlation → Bool
joins_producer i x = nat_eq x.producer_index i

abbrev pub joins_consumer : ℕ → Correlation → Bool
joins_consumer i x = nat_eq x.consumer_index i

-- The positions, counted from `n`, of the correlations of the consumer `i`.
unfoldable pub places : ℕ → ℕ → List Correlation → List ℕ
places i n [] = []
places i n (x ∷ xs) =
    let rest = places i (suc n) xs in if joins_consumer i x then n ∷ rest else rest

any-snoc :
    (f : Correlation → Bool) (xs : List Correlation) (x : Correlation)
    → any f (xs ++ x ∷ []) ≡ (any f xs || f x)
any-snoc f [] x = or_false (f x)
  where
    or_false : (b : Bool) → (b || false) ≡ b
    or_false true = refl
    or_false false = refl
any-snoc f (y ∷ xs) x = ap (λ b. f y || b) (any-snoc f xs x) ∙ assoc (f y) (any f xs) (f x)
  where
    assoc : (a b c : Bool) → (a || (b || c)) ≡ ((a || b) || c)
    assoc true b c = refl
    assoc false b c = refl

places-snoc :
    (i n : ℕ) (xs : List Correlation) (x : Correlation)
    → places i n (xs ++ x ∷ [])
      ≡ places i n xs ++ (if joins_consumer i x then (n + length xs) ∷ [] else [])
unfolding places
places-snoc i n [] x = let e : n + 0 ≡ n = omega arith in rw e refl
places-snoc i n (y ∷ xs) x =
    let e : n + suc (length xs) ≡ suc n + length xs = omega arith in
    let p = places-snoc i (suc n) xs x in
    elim (Bool-cases (joins_consumer i y)) [
      | inl mine ↦ rw (mine, e, places) (ap (λ t. n ∷ t) p)
      | inr other ↦ rw (other, e, places) p
    ]

-- What the maps of a result answer.
pub record IsConsistent (r : Result) : Type 0 where
  pub producers : (i : ℕ) → r.producer_matched i ≡ any (joins_producer i) r.correlations
  pub consumers : (i : ℕ) → r.consumer_matched i ≡ any (joins_consumer i) r.correlations
  pub by_consumer : (i : ℕ) → r.correlation_by_consumer i ≡ places i 0 r.correlations

assign-true : (m : ℕ → Bool) (k i : ℕ) (b : Bool) → m i ≡ b → assign m k true i ≡ (b || nat_eq k i)
assign-true m k i b h = elim (Bool-cases (nat_eq i k)) [
  | inl same ↦ rw (same, flipped i k true same) (sym (or_true b))
  | inr other ↦ rw (other, flipped i k false other) (h ∙ sym (or_false b))
]
  where
    flipped : (i k : ℕ) (b : Bool) → nat_eq i k ≡ b → nat_eq k i ≡ b
    flipped i k true h = ground arith
    flipped i k false h = ground arith

    or_true : (b : Bool) → (b || true) ≡ true
    or_true true = refl
    or_true false = refl

    or_false : (b : Bool) → (b || false) ≡ b
    or_false true = refl
    or_false false = refl

module _ (spans : List Span) where
  add_correlation-IsConsistent :
      (ci : ℕ) (method : Method) (confidence : Confidence) (r : Result) (pi : ℕ)
      → IsConsistent r
      → IsConsistent (add_correlation spans ci method confidence r pi)
  unfolding add_correlation correlation_of
  add_correlation-IsConsistent ci method confidence r pi h =
      let x : Correlation = correlation_of spans pi ci method confidence in
      record {
        producers = λ i.
            assign-true r.producer_matched pi i _ (h.producers i)
            ∙ sym (any-snoc (joins_producer i) r.correlations x);
        consumers = λ i.
            assign-true r.consumer_matched ci i _ (h.consumers i)
            ∙ sym (any-snoc (joins_consumer i) r.correlations x);
        by_consumer = λ i.
            assigned i (h.by_consumer ci) (h.by_consumer i)
            ∙ sym (places-snoc i 0 r.correlations x);
      }
    where
      assigned :
          (i : ℕ)
          → r.correlation_by_consumer ci ≡ places ci 0 r.correlations
          → r.correlation_by_consumer i ≡ places i 0 r.correlations
          → assign r.correlation_by_consumer ci
              (r.correlation_by_consumer ci ++ length r.correlations ∷ [])
              i
            ≡ places i 0 r.correlations
              ++ (if nat_eq ci i then (0 + length r.correlations) ∷ [] else [])
      assigned i here there =
          let z : 0 + length r.correlations ≡ length r.correlations = omega arith in
          elim (Bool-cases (nat_eq i ci)) [
            | inl same ↦
                let e : i ≡ ci = nat_eq→eq i ci same in
                let back : nat_eq ci i ≡ true = ground arith in
                rw (same, back, here, z)
                  ((ap (λ k. places k 0 r.correlations ++ length r.correlations ∷ []) (sym e)))
            | inr other ↦
                let back : nat_eq ci i ≡ false = ground arith in
                rw (other, back) (there ∙ sym (append-nil (places i 0 r.correlations)))
          ]

  -- In the result of Correlate a producer or a consumer counts as matched exactly when a correlation
  -- names it, and the correlations filed under a consumer are the positions of its own, in order.
  pub correlate-IsConsistent :
      (window : Duration) {r : Result} → correlate spans window ≡ some r → IsConsistent r
  correlate-IsConsistent window e =
      correlate-keeps spans window IsConsistent add_correlation-IsConsistent
        (λ ci r h.
          unfold count_reference in
          record { producers = h.producers; consumers = h.consumers; by_consumer = h.by_consumer })
        (λ ci r h.
          unfold count_unresolved in
          record { producers = h.producers; consumers = h.consumers; by_consumer = h.by_consumer })
        (record {
          producers = λ i. refl;
          consumers = λ i. refl;
          by_consumer = λ i. unfold places in refl;
        })
        e

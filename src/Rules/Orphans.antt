-- ===== src/Rules/Orphans.antt =====
-- What the checks by absence conclude, together with the maps of Correlate that they read.
use async_trace_doctor.Common.{
  ℕ, suc, ◌+◌, ◌≡◌, ◌≢◌, ◌<◌, ◌⊎◌, refl, sym, ◌∙◌, Bool, true, false, not, Option, none, some, List,
  [], ◌∷◌, All, any, get_elem?, nat_eq, if◌then◌else◌, &&-left, &&-right, Bool-cases, inl, inr,
  arith,
}
use async_trace_doctor.Model.{Duration, Span, is_consumer}
use async_trace_doctor.Correlation.{Correlation, Result, correlate}
use async_trace_doctor.Correlation.Counts.{has_reference}
use async_trace_doctor.Correlation.References.{correlate-references}
use async_trace_doctor.Correlation.Maps.{joins_consumer, places, correlate-IsConsistent}
use async_trace_doctor.Config.{Rule}
use async_trace_doctor.Rules.Windows.{AuditContext}
use async_trace_doctor.Rules.Absence.{
  is_orphan_producer, is_orphan_consumer, correlation_for_consumer,
}

negated : (b : Bool) → not b ≡ true → b ≡ false
negated true h = absurd (cc h)
negated false h = refl

none_of :
    (key : Correlation → ℕ) (i : ℕ) (xs : List Correlation)
    → any (λ x. nat_eq (key x) i) xs ≡ false
    → All (λ x. key x ≢ i) xs
none_of key i [] h = tt
none_of key i (x ∷ xs) h = elim (Bool-cases (nat_eq (key x) i)) [
  | inl same ↦ absurd (cc (rw same at h))
  | inr other ↦ (differ (key x) i other, none_of key i xs (rw other at h))
]
  where
    differ : (a b : ℕ) → nat_eq a b ≡ false → a ≢ b
    differ a b n p = ground arith

-- The first correlation of a consumer.
unfoldable pub first_of : ℕ → List Correlation → Option Correlation
first_of i [] = none
first_of i (x ∷ xs) = if joins_consumer i x then some x else first_of i xs

-- Where the places of a consumer begin.
abbrev Begins : ℕ → ℕ → List Correlation → Type 0
Begins i n xs =
    ((places i n xs ≡ []) × (first_of i xs ≡ none))
    ⊎ ((k : ℕ) × (x : Correlation) × (rest : List ℕ) × (places i n xs ≡ (n + k) ∷ rest)
        × (get_elem? xs k ≡ some x)
        × (first_of i xs ≡ some x))

places-Begins : (i n : ℕ) (xs : List Correlation) → Begins i n xs
unfolding places first_of
places-Begins i n [] = inl (refl, refl)
places-Begins i n (x ∷ xs) = elim (Bool-cases (joins_consumer i x)) [
  | inl mine ↦
      let e : n + 0 ≡ n = omega arith in
      inr (0, x, places i (suc n) xs, rw (mine, e, places) refl, refl, rw (mine, first_of) refl)
  | inr other ↦ elim (places-Begins i (suc n) xs) [
    | inl (p, q) ↦ inl (rw (other, places) p, rw (other, first_of) q)
    | inr (k, y, rest, p, g, q) ↦
        let e : n + suc k ≡ suc n + k = omega arith in
        inr (suc k, y, rest, rw (other, e, places) p, g, rw (other, first_of) q)
  ]
]

module _ (spans : List Span) (window : Duration) {corr : Result}
    (e : correlate spans window ≡ some corr) where
  -- On what Correlate answers, the look-up of a consumer's correlation never reads out of range and
  -- finds the first correlation of the consumer, if there is one.
  pub correlation_for_consumer-first_of :
      (i : ℕ) → correlation_for_consumer i corr ≡ some (first_of i corr.correlations)
  unfolding correlation_for_consumer
  correlation_for_consumer-first_of i =
      let h = (correlate-IsConsistent spans window e).by_consumer i in
      elim (places-Begins i 0 corr.correlations) [
        | inl (p, q) ↦ rw (correlation_for_consumer, h, p, q) refl
        | inr (k, x, rest, p, g, q) ↦
            let z : 0 + k ≡ k = omega arith in rw (correlation_for_consumer, h, p, q, z, g) refl
      ]

  -- On what Correlate answers, a producer that is found to be an orphan is named by no correlation, and
  -- a consumer of the input that is found to be one is named by none and carries neither a valid link
  -- nor a valid parent context.
  pub orphans-uncorrelated :
      (r : Rule) (limit : Duration) (audit : AuditContext) (i : ℕ) {s : Span}
      → get_elem? spans i ≡ some s
      → (is_orphan_producer r corr limit audit i s ≡ true
          → All (λ (x : Correlation). x.producer_index ≢ i) corr.correlations)
        × (is_orphan_consumer r corr limit audit i s ≡ true
            → All (λ (x : Correlation). x.consumer_index ≢ i) corr.correlations
              × (has_reference s ≡ false))
  unfolding is_orphan_producer is_orphan_consumer
  orphans-uncorrelated r limit audit i {s} at_i =
      let k = correlate-IsConsistent spans window e in
      (
        (λ h.
            none_of (λ x. x.producer_index) i corr.correlations
              (sym (k.producers i) ∙ negated _ (&&-right _ _ (&&-left _ _ h)))),
        (λ h.
            let counted = &&-left _ _ h in
            let matched = &&-left _ _ counted in
            let c : is_consumer s ≡ true = &&-left _ _ (&&-left _ _ matched) in
            let (refs, _) = correlate-references spans window i e at_i c in
            (
              none_of (λ x. x.consumer_index) i corr.correlations
                  (sym (k.consumers i) ∙ negated _ (&&-right _ _ matched)),
              (elim (Bool-cases (has_reference s)) [
                | inl has ↦ absurd (none_left _ (&&-right _ _ counted) (refs.1 has))
                | inr lacks ↦ lacks
              ]),
            )),
      )
    where
      none_left : (n : ℕ) → nat_eq n 0 ≡ true → 0 < n → ⊥
      none_left n z h = ground arith

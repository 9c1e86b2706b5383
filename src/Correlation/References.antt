-- ===== src/Correlation/References.antt =====
-- The counts of context references and of unresolved ones that Correlate keeps for each consumer.
use async_trace_doctor.Common.{
  ℕ, ◌+◌, ◌≤◌, ◌<◌, ◌≡◌, refl, ◌∙◌, subst, ◌↔◌, inl, inr, true, false, some, List, [], ◌∷◌, any,
  get_elem?, nat_eq, Bool-cases, Option-cases, arith,
}
use async_trace_doctor.Model.{Duration, Span, is_consumer}
use async_trace_doctor.Correlation.Indexes.{span_at, Indexes, build_indexes}
use async_trace_doctor.Correlation.Defs.{
  Result, no_result, correlate_consumer, correlate_loop, correlate,
}
use async_trace_doctor.Correlation.Counts.{has_reference, Counted}
use async_trace_doctor.Correlation.Counting.{correlate_consumer-Counted}
use async_trace_doctor.Correlation.Listing.{consumers-Listed}

-- What a run over consumers does to the counts of any position.
record Grown (spans : List Span) (cis : List ℕ) (j : ℕ) (r r' : Result) : Type 0 where
  more : r.context_references j ≤ r'.context_references j
  fewer :
      r.unresolved_references j ≤ r.context_references j
      → r'.unresolved_references j ≤ r'.context_references j
  found :
      any (λ ci. nat_eq ci j) cis ≡ true
      → has_reference (span_at spans j) ≡ true
      → 0 < r'.context_references j
  kept : has_reference (span_at spans j) ≡ false → r'.context_references j ≡ r.context_references j

Counted-Grown :
    (spans : List Span) (ci j : ℕ) (r t : Result)
    → Counted ci (has_reference (span_at spans ci)) r t
    → Grown spans (ci ∷ []) j r t
Counted-Grown spans ci j r t h = elim (Bool-cases (nat_eq j ci)) [
  | inl same ↦
      let e : j ≡ ci = ground arith in
      let k = h.counts.references j in
      let q : t.context_references j ≡ r.context_references j + h.n = rw same at k in
      let l = h.counts.unresolved j in
      let s : t.unresolved_references j ≡ r.unresolved_references j + h.u = rw same at l in
      record {
        more = omega arith;
        fewer = λ p. omega (arith, h.fewer);
        found = λ here there. omega (arith, h.present (rw e at there));
        kept = λ gone. omega (arith, h.absent (rw e at gone));
      }
  | inr other ↦
      let k = h.counts.references j in
      let q : t.context_references j ≡ r.context_references j + 0 = rw other at k in
      let l = h.counts.unresolved j in
      let s : t.unresolved_references j ≡ r.unresolved_references j + 0 = rw other at l in
      record {
        more = omega arith;
        fewer = λ p. omega arith;
        found = λ here there. absurd (ground arith);
        kept = λ gone. omega arith;
      }
]

correlate_loop-Grown :
    (spans : List Span) (window : Duration) (m : Indexes) (cis : List ℕ) (j : ℕ) (r : Result)
    {r' : Result}
    → correlate_loop spans m window cis r ≡ some r'
    → Grown spans cis j r r'
unfolding correlate_loop
correlate_loop-Grown spans window m [] j r {r'} e =
    let p : r ≡ r' = cc e in
    subst (Grown spans [] j r) p (record {
      more = omega arith;
      fewer = λ q. q;
      found = λ here there. absurd (cc here);
      kept = λ gone. refl;
    })
correlate_loop-Grown spans window m (ci ∷ rest) j r {r'} e =
    elim (Option-cases (correlate_consumer spans m window r ci)) [
      | inl panics ↦ absurd (cc (rw (panics, correlate_loop) at e))
      | inr (t, k) ↦
          let h = Counted-Grown spans ci j r t (correlate_consumer-Counted spans window m ci r k) in
          let g = correlate_loop-Grown spans window m rest j t (rw (k, correlate_loop) at e) in
          record {
            more = omega (arith, h.more, g.more);
            fewer = λ q. g.fewer (h.fewer q);
            found = λ here there. elim (Bool-cases (nat_eq ci j)) [
              | inl first ↦ omega (arith, g.more, h.found (rw first refl) there)
              | inr later ↦ g.found (rw later at here) there
            ];
            kept = λ gone. g.kept gone ∙ h.kept gone;
          }
    ]

-- A consumer span of the input has a context reference counted exactly when it carries one itself, a
-- valid link or a valid parent context, whatever producers the input holds; and no more of its
-- references are counted as unresolved than are counted.
pub correlate-references :
    (spans : List Span) (window : Duration) (j : ℕ) {s : Span} {r : Result}
    → correlate spans window ≡ some r
    → get_elem? spans j ≡ some s
    → is_consumer s ≡ true
    → ((0 < r.context_references j) ↔ (has_reference s ≡ true))
      × (r.unresolved_references j ≤ r.context_references j)
unfolding correlate span_at
correlate-references spans window j {s} {r} e at_j c =
    let g = correlate_loop-Grown spans window (build_indexes spans) _ j no_result e in
    let p : span_at spans j ≡ s = rw (at_j, span_at) refl in
    (
      (
        λ counted. elim (Bool-cases (has_reference s)) [
          | inl so ↦ so
          | inr gone ↦ absurd (omega (arith, g.kept (rw p gone)))
        ],
        λ there. g.found (consumers-Listed spans j at_j c) (rw p there),
      ),
      g.fewer (omega arith),
    )

-- ===== src/Rules/Exclusion.antt =====
-- The checks of a consumer's context, together with the counts of Correlate that they read.
use async_trace_doctor.Common.{
  ℕ, ◌≡◌, ◌<◌, ◌≤◌, refl, sym, ◌∙◌, ◌↔◌, Bool, true, false, ◌&&◌, ◌||◌, some, List, get_elem?, ltb,
  nat_eq, ◌==◌, &&-left, &&-right, &&-both, Bool-cases, inl, inr, eq_iff, arith,
}
use async_trace_doctor.Model.{Span, Duration, operation, is_consumer}
use async_trace_doctor.Correlation.{Result, correlate}
use async_trace_doctor.Correlation.Counts.{has_reference}
use async_trace_doctor.Correlation.References.{correlate-references}
use async_trace_doctor.Rules.Scope.{is_messaging}
use async_trace_doctor.Rules.Semantic.{is_bad}

missing_lem :
    (corr : Result) (i : ℕ) (s : Span)
    → is_bad "missing_consumer_context" corr i s
      ≡ (operation s == "process" && nat_eq (corr.context_references i) 0)
unfolding is_bad
missing_lem corr i s = refl

unresolved_lem :
    (corr : Result) (i : ℕ) (s : Span)
    → is_bad "unresolved_consumer_context" corr i s
      ≡ (is_consumer s && ltb 0 (corr.unresolved_references i))
unfolding is_bad
unresolved_lem corr i s = refl

process-is_consumer : (s : Span) → (operation s == "process") ≡ true → is_consumer s ≡ true
unfolding is_consumer
process-is_consumer s h = rw h refl

process-is_messaging : (s : Span) → (operation s == "process") ≡ true → is_messaging s ≡ true
unfolding is_messaging
process-is_messaging s h = let p : operation s ≡ "process" = (eq_iff _ _).0 h in rw p (or_true _)
  where
    or_true : (b : Bool) → (b || true) ≡ true
    or_true true = refl
    or_true false = refl

module _ (spans : List Span) (window : Duration) {corr : Result}
    (e : correlate spans window ≡ some corr) where
  -- On what Correlate answers, the check for a missing consumer context finds a span of the input bad
  -- exactly when it processes a message and carries neither a valid link nor a valid parent context.
  pub missing_context_iff :
      (i : ℕ) {s : Span}
      → get_elem? spans i ≡ some s
      → (is_bad "missing_consumer_context" corr i s ≡ true)
        ↔ ((operation s ≡ "process") × (has_reference s ≡ false))
  missing_context_iff i {s} at_i = (
    (λ h.
        let b : (operation s == "process" && nat_eq (corr.context_references i) 0) ≡ true =
          sym (missing_lem corr i s) ∙ h in
        let p = &&-left _ _ b in
        let z = &&-right _ _ b in
        let (refs, _) = correlate-references spans window i e at_i (process-is_consumer s p) in
        (
          (eq_iff _ _).0 p,
          elim (Bool-cases (has_reference s)) [
            | inl has ↦ absurd (none_left (corr.context_references i) z (refs.1 has))
            | inr lacks ↦ lacks
          ],
        )),
    (λ (p, lacks).
        let o : (operation s == "process") ≡ true = (eq_iff _ _).1 p in
        let (refs, _) = correlate-references spans window i e at_i (process-is_consumer s o) in
        rw (missing_lem corr i s) (
          &&-both _ _ o (elim (Bool-cases (nat_eq (corr.context_references i) 0)) [
            | inl zero ↦ zero
            | inr more ↦ absurd (cc (lacks, refs.0 (positive (corr.context_references i) more)))
          ]))),
  )
    where
      none_left : (n : ℕ) → nat_eq n 0 ≡ true → 0 < n → ⊥
      none_left n z h = ground arith

      positive : (n : ℕ) → nat_eq n 0 ≡ false → 0 < n
      positive n z = ground arith

  -- On what Correlate answers, no span of the input is bad both for a missing consumer context and for an
  -- unresolved one.
  context_checks_exclusive :
      (i : ℕ) {s : Span}
      → get_elem? spans i ≡ some s
      → is_bad "missing_consumer_context" corr i s ≡ true
      → is_bad "unresolved_consumer_context" corr i s ≡ false
  context_checks_exclusive i {s} at_i h =
      let b : (operation s == "process" && nat_eq (corr.context_references i) 0) ≡ true =
        sym (missing_lem corr i s) ∙ h in
      let c = process-is_consumer s (&&-left _ _ b) in
      let (_, fewer) = correlate-references spans window i e at_i c in
      rw (unresolved_lem corr i s, c) (unreported _ _ (&&-right _ _ b) fewer)
    where
      unreported : (n u : ℕ) → nat_eq n 0 ≡ true → u ≤ n → ltb 0 u ≡ false
      unreported n u z h = ground arith

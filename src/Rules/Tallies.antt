-- ===== src/Rules/Tallies.antt =====
-- What the summary of an audit counts of the consumers' contexts.
use async_trace_doctor.Common.{
  ℕ, zero, suc, ◌+◌, ◌<◌, ◌≡◌, refl, ap, ◌∙◌, ◌↔◌, Bool, true, false, not, ◌&&◌, some, List, [],
  ◌∷◌, get_elem?, ltb, if◌then◌else◌, arith,
}
use async_trace_doctor.Model.{Duration, Span, is_consumer}
use async_trace_doctor.Correlation.{Result, correlate}
use async_trace_doctor.Correlation.Counts.{has_reference}
use async_trace_doctor.Correlation.References.{correlate-references}
use async_trace_doctor.Rules.Windows.{AuditContext}
use async_trace_doctor.Rules.Findings.{Finding}
use async_trace_doctor.Rules.Summaries.{Tally, no_spans, add_if, tally_span, tally_spans, summary}

-- How many spans pass a test.
unfoldable pub count_where : (Span → Bool) → List Span → ℕ
count_where test [] = 0
count_where test (s ∷ rest) = add_if (test s) (count_where test rest)

-- A consumer that carries a valid link or a valid parent context, and one that does not.
unfoldable pub carries : Span → Bool
unfolding is_consumer
carries s = is_consumer s && has_reference s

unfoldable pub lacks : Span → Bool
unfolding is_consumer
lacks s = is_consumer s && not (has_reference s)

-- From one tally to another the consumers of some spans are counted.
record Tallied (spans : List Span) (t t' : Tally) : Type 0 where
  consumers : t'.consumers ≡ t.consumers + count_where is_consumer spans
  strong : t'.strong ≡ t.strong + count_where carries spans
  broken : t'.broken ≡ t.broken + count_where lacks spans

module _ (spans : List Span) (correlation_window : Duration) {c : Result}
    (e : correlate spans correlation_window ≡ some c) (window : Duration)
    (audit : AuditContext) where
  counted :
      (i : ℕ) {s : Span}
      → get_elem? spans i ≡ some s
      → is_consumer s ≡ true
      → ltb 0 (c.context_references i) ≡ has_reference s
  counted i {s} at_i h =
      let (refs, _) = correlate-references spans correlation_window i e at_i h in
      agree (c.context_references i) (has_reference s) refs
    where
      agree : (n : ℕ) (b : Bool) → ((0 < n) ↔ (b ≡ true)) → ltb 0 n ≡ b
      agree n true r = ground (arith, r.1 refl)
      agree zero false r = refl
      agree (suc n) false r = absurd (cc (r.0 (omega arith)))

  tally_spans-Tallied :
      (i : ℕ) (rest : List Span) (t : Tally)
      → ((k : ℕ) → get_elem? spans (i + k) ≡ get_elem? rest k)
      → Tallied rest t (tally_spans c window audit i rest t)
  unfolding tally_spans count_where tally_span carries lacks
  tally_spans-Tallied i [] t at_ = record {
    consumers = omega arith;
    strong = omega arith;
    broken = omega arith;
  }
  tally_spans-Tallied i (s ∷ rest) t at_ =
      let later = tally_spans-Tallied (suc i) rest (tally_span c window audit i s t) next in
      let here : is_consumer s ≡ true → ltb 0 (c.context_references i) ≡ has_reference s =
        counted i (at_i (at_ 0)) in
      record {
        consumers = later.consumers ∙ shift (is_consumer s) t.consumers _;
        strong =
            later.strong
            ∙ ap (λ b. add_if b t.strong + count_where carries rest) (both (is_consumer s) _ _ here)
            ∙ shift (carries s) t.strong _;
        broken =
            later.broken
            ∙ ap (λ b. add_if b t.broken + count_where lacks rest)
                (neither (is_consumer s) _ _ here)
            ∙ shift (lacks s) t.broken _;
      }
    where
      next : (k : ℕ) → get_elem? spans (suc i + k) ≡ get_elem? rest k
      next k = let z : suc i + k ≡ i + suc k = omega arith in rw z (at_ (suc k))

      at_i : get_elem? spans (i + 0) ≡ some s → get_elem? spans i ≡ some s
      at_i h = let z : i + 0 ≡ i = omega arith in rw z at h

      shift : (b : Bool) (m n : ℕ) → add_if b m + n ≡ m + add_if b n
      shift true m n = omega arith
      shift false m n = refl

      both : (b x y : Bool) → (b ≡ true → x ≡ y) → (b && x) ≡ (b && y)
      both true x y h = h refl
      both false x y h = refl

      neither : (b x y : Bool) → (b ≡ true → x ≡ y) → (b && not x) ≡ (b && not y)
      neither true x y h = ap not (h refl)
      neither false x y h = refl

  -- On what Correlate answers, the broken links of the summary are the consumers that carry neither a
  -- valid link nor a valid parent context, and the ratio is that of the consumers that carry one to all
  -- consumers, 0 of 1 where there is no consumer. A link or a parent counts whether or not the span that
  -- it names is in the input.
  pub summary-references :
      (findings : List Finding) (elapsed : Duration)
      → ((summary spans c findings elapsed window audit).broken_links ≡ count_where lacks spans)
        × ((summary spans c findings elapsed window audit).context_completeness_ratio ≡ (
            if ltb 0 (count_where is_consumer spans)
            then (count_where carries spans, count_where is_consumer spans)
            else (0, 1)))
  unfolding summary
  summary-references findings elapsed =
      let h =
        tally_spans-Tallied 0 spans no_spans (λ k. let z : 0 + k ≡ k = omega arith in rw z refl) in
      let b : (tally_spans c window audit 0 spans no_spans).broken ≡ count_where lacks spans =
        omega (arith, h.broken) in
      let k : (tally_spans c window audit 0 spans no_spans).consumers
          ≡ count_where is_consumer spans =
        omega (arith, h.consumers) in
      let s : (tally_spans c window audit 0 spans no_spans).strong ≡ count_where carries spans =
        omega (arith, h.strong) in
      (b, rw (k, s) refl)

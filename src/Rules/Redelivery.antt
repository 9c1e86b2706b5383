-- ===== src/Rules/Redelivery.antt =====
-- A repeated export of a span is no second attempt at its message.
use Prim.Native.String.{◌++◌ as join_texts}
use async_trace_doctor.Common.{
  ℕ, zero, suc, ◌≡◌, ◌≢◌, refl, ◌∙◌, sym, String, Bool, true, false, not, ◌&&◌, ◌||◌, some, List,
  [], ◌∷◌, ◌++◌, get_elem?, ◌==◌, Bool-cases, inl, inr, eq_iff, ne→==_false, subst,
}
use async_trace_doctor.Model.{Span}
use async_trace_doctor.Config.{Rule, Settings, contains}
use async_trace_doctor.Rules.Duplicates.{
  Grouping, is_attempt, group_span, group_spans, duplicate_findings,
}

abbrev key_of : Span → String
key_of s = join_texts s.trace_id (join_texts "\0" s.span_id)

module _ (r : Rule) where
  group_spans-append :
      (xs ys : List Span) (st : Grouping)
      → group_spans r (xs ++ ys) st ≡ group_spans r ys (group_spans r xs st)
  unfolding group_spans
  group_spans-append [] ys st = refl
  group_spans-append (x ∷ xs) ys st = group_spans-append xs ys (group_span r x st)

  group_span-seen :
      (s : Span) (st : Grouping) (key : String)
      → contains st.0 key ≡ true
      → contains (group_span r s st).0 key ≡ true
  unfolding group_span contains
  group_span-seen s (seen, groups) key h = elim (Bool-cases (not (is_attempt r s))) [
    | inl out ↦ rw (out, group_span) h
    | inr attempt ↦
        elim (Bool-cases
          (not (s.trace_id == "") && not (s.span_id == "") && contains seen (key_of s))) [
            | inl again ↦ rw (attempt, again, group_span) h
            | inr new ↦ rw (attempt, new, group_span) (or_true (key_of s == key) _ h)
          ]
  ]
    where
      or_true : (a b : Bool) → b ≡ true → (a || b) ≡ true
      or_true true b h = refl
      or_true false b h = h

  group_spans-seen :
      (xs : List Span) (st : Grouping) (key : String)
      → contains st.0 key ≡ true
      → contains (group_spans r xs st).0 key ≡ true
  unfolding group_spans
  group_spans-seen [] st key h = h
  group_spans-seen (x ∷ xs) st key h =
      group_spans-seen xs (group_span r x st) key (group_span-seen x st key h)

  group_span-adds :
      (s : Span) (st : Grouping)
      → is_attempt r s ≡ true
      → contains (group_span r s st).0 (key_of s) ≡ true
  unfolding group_span contains
  group_span-adds s (seen, groups) attempt =
      elim (Bool-cases
        (not (s.trace_id == "") && not (s.span_id == "") && contains seen (key_of s))) [
          | inl again ↦
              rw (attempt, again, group_span)
                (last_of (not (s.trace_id == "")) (not (s.span_id == "")) _ again)
          | inr new ↦
              let same : (key_of s == key_of s) ≡ true = (eq_iff (key_of s) (key_of s)).1 refl in
              rw (attempt, new, group_span, same) refl
        ]
    where
      last_of : (a b c : Bool) → (a && b && c) ≡ true → c ≡ true
      last_of true true c h = h
      last_of true false c h = absurd (cc h)
      last_of false b c h = absurd (cc h)

  group_spans-adds :
      (xs : List Span) (st : Grouping) (i : ℕ) {s : Span}
      → get_elem? xs i ≡ some s
      → is_attempt r s ≡ true
      → contains (group_spans r xs st).0 (key_of s) ≡ true
  unfolding group_spans
  group_spans-adds [] st i e h = absurd (cc e)
  group_spans-adds (x ∷ xs) st zero {s} e h =
      let p : x ≡ s = cc e in
      group_spans-seen xs (group_span r x st) (key_of s) (
        subst (λ y. contains (group_span r x st).0 (key_of y) ≡ true) p
          (group_span-adds x st (subst (λ y. is_attempt r y ≡ true) (sym p) h)))
  group_spans-adds (x ∷ xs) st (suc i) e h = group_spans-adds xs (group_span r x st) i e h

  -- A span that is no attempt, or that was seen before, is skipped.
  group_span-skips :
      (s : Span) (st : Grouping)
      → s.trace_id ≢ ""
      → s.span_id ≢ ""
      → (is_attempt r s ≡ true → contains st.0 (key_of s) ≡ true)
      → group_span r s st ≡ st
  unfolding group_span
  group_span-skips s (seen, groups) t u h = elim (Bool-cases (is_attempt r s)) [
    | inr out ↦ rw (out, group_span) refl
    | inl attempt ↦
        let e : (s.trace_id == "") ≡ false = ne→==_false s.trace_id "" t in
        let f : (s.span_id == "") ≡ false = ne→==_false s.span_id "" u in
        let k : contains seen (key_of s) ≡ true = h attempt in
        rw (attempt, e, f, k, group_span) refl
  ]

  -- When the export of a span with a trace and a span id is repeated after the spans that hold it, the
  -- duplicates that are found do not change.
  pub duplicate_findings-again :
      (sort_by_start : List Span → List Span) (settings : Settings) (spans : List Span) (i : ℕ)
      {s : Span}
      → get_elem? spans i ≡ some s
      → s.trace_id ≢ ""
      → s.span_id ≢ ""
      → duplicate_findings sort_by_start r settings (spans ++ s ∷ [])
        ≡ duplicate_findings sort_by_start r settings spans
  unfolding duplicate_findings group_spans
  duplicate_findings-again sort_by_start settings spans i {s} e t u =
      let p : group_spans r (spans ++ s ∷ []) ([], []) ≡ group_spans r spans ([], []) =
        group_spans-append spans (s ∷ []) ([], [])
        ∙ group_span-skips s (group_spans r spans ([], [])) t u
            (λ attempt. group_spans-adds spans ([], []) i e attempt) in
      rw (p, duplicate_findings) refl

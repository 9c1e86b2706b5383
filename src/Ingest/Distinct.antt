-- ===== src/Ingest/Distinct.antt =====
-- The deduplication of the spans that are read from files: it always answers, and answers rightly.
use mathlib.Core.List.{append_assoc, append-nil}
use async_trace_doctor.Common.{
  ℕ, ◌≡◌, refl, sym, subst, ◌≢◌, ap, ◌∙◌, inl, inr, true, false, Option, none, some, List, [], ◌∷◌,
  ◌++◌, All-get_elem?, nat_eq, Bool-cases, Option-cases, arith,
}
use async_trace_doctor.Common.Dict
use async_trace_doctor.Common.Dict.{Dict}
use async_trace_doctor.Model.{Span}
use async_trace_doctor.Store.{deep_equal}
use async_trace_doctor.Store.Lookup.{deep_equal_iff}
use async_trace_doctor.Ingest.Dedup.{
  Seen, Deduplicated, conflicting, distinct, dedup_content_hash, is_nameless, identity, Occurrence,
  nameless, first, repeated, differing, compare_seen, occurrence, deduplicate_loop,
  deduplicate_spans,
}
use async_trace_doctor.Ingest.Tracking.{
  Within, Within-append, Within-last, IsRight, Tracks, Tracks-nameless, Tracks-repeated,
  Tracks-first,
}

-- What the loop has found of a span, for each answer of its tests.
abbrev Found : Dict Seen → List Span → Span → Occurrence → Type 0
Found seen out span nameless = is_nameless span ≡ true
Found seen out span first = (is_nameless span ≡ false) × (Dict.get (identity span) seen ≡ none)
Found seen out span repeated = Within span out
Found seen out span differing =
    (is_nameless span ≡ false)
    × (old : Span) × Within old out
    × (is_nameless old ≡ false)
    × (identity old ≡ identity span)
    × (deep_equal old span ≡ false)

compare_seen-Found :
    {done : List Span} (seen : Dict Seen) (out : List Span) (span : Span) (e : Seen)
    → Tracks done seen out
    → is_nameless span ≡ false
    → Dict.get (identity span) seen ≡ some e
    → (o : Occurrence) × (compare_seen out e span ≡ some o) × Found seen out span o
unfolding compare_seen
compare_seen-Found seen out span e h named g =
    let (old, at_old, same_id, old_named, hash) = h.points (identity span) e g in
    let changed : deep_equal old span ≡ false → Found seen out span differing =
      λ d. (named, old, (e.index, at_old), old_named, same_id, d) in
    elim (Bool-cases (nat_eq e.hash (dedup_content_hash span))) [
      | inr other ↦ (
        differing,
        rw other refl,
        elim (Bool-cases (deep_equal old span)) [
          | inr d ↦ changed d
          | inl equal ↦
              let p : old ≡ span = ((deep_equal_iff old span).0 equal).0 in
              let q : dedup_content_hash span ≡ e.hash = ap dedup_content_hash (sym p) ∙ hash in
              absurd (unequal e.hash (dedup_content_hash span) other (sym q))
        ],
      )
      | inl same ↦ elim (Bool-cases (deep_equal old span)) [
        | inl equal ↦
            let p : old ≡ span = ((deep_equal_iff old span).0 equal).0 in
            (repeated, rw (same, at_old, equal) refl, (e.index, at_old ∙ ap some p))
        | inr differ ↦ (differing, rw (same, at_old, differ) refl, changed differ)
      ]
    ]
  where
    unequal : (a b : ℕ) → nat_eq a b ≡ false → a ≢ b
    unequal a b n p = ground arith

occurrence-Found :
    {done : List Span} (seen : Dict Seen) (out : List Span) (span : Span)
    → Tracks done seen out
    → (o : Occurrence) × (occurrence seen out span ≡ some o) × Found seen out span o
unfolding occurrence
occurrence-Found seen out span h = elim (Bool-cases (is_nameless span)) [
  | inl n ↦ (nameless, rw n refl, n)
  | inr named ↦ elim (Option-cases (Dict.get (identity span) seen)) [
    | inl new ↦ (first, rw (named, new) refl, (named, new))
    | inr (e, old) ↦
        let (o, p, f) = compare_seen-Found seen out span e h named old in (o, rw (named, old) p, f)
  ]
]

-- The answer of the loop is right for the spans `done` and those to come.
abbrev Answers : List Span → Option Deduplicated → Type 0
Answers spans r = (d : Deduplicated) × (r ≡ some d) × IsRight spans d

deduplicate_loop-IsRight :
    (done rest : List Span) (seen : Dict Seen) (out : List Span)
    → Tracks done seen out
    → Answers (done ++ rest) (deduplicate_loop rest seen out)
unfolding deduplicate_loop
deduplicate_loop-IsRight done [] seen out h =
    rw (append-nil done) (distinct out, refl, (h.covered, h.genuine, h.unique))
deduplicate_loop-IsRight done (span ∷ rest) seen out h =
    let (o, p, f) = occurrence-Found seen out span h in
    let again : (seen' : Dict Seen) (out' : List Span)
        → Tracks (done ++ span ∷ []) seen' out'
        → Answers (done ++ span ∷ rest) (deduplicate_loop rest seen' out') =
      λ seen' out' k.
        subst (λ all. Answers all (deduplicate_loop rest seen' out'))
          (append_assoc done (span ∷ []) rest)
          (deduplicate_loop-IsRight (done ++ span ∷ []) rest seen' out' k) in
    settle o f p again
  where
    settle :
        (o : Occurrence)
        → Found seen out span o
        → occurrence seen out span ≡ some o
        → ((seen' : Dict Seen) (out' : List Span)
            → Tracks (done ++ span ∷ []) seen' out'
            → Answers (done ++ span ∷ rest) (deduplicate_loop rest seen' out'))
        → Answers (done ++ span ∷ rest) (deduplicate_loop (span ∷ rest) seen out)
    settle nameless f p again =
        rw (p, deduplicate_loop)
          (again seen (out ++ span ∷ []) (Tracks-nameless done seen out span h f))
    settle first f p again =
        rw (p, deduplicate_loop)
          (again _ (out ++ span ∷ []) (Tracks-first done seen out span h f.0 f.1))
    settle repeated f p again =
        rw (p, deduplicate_loop) (again seen out (Tracks-repeated done seen out span h f.0 f.1))
    settle differing (named, old, w, old_named, same, n) p again = (
      conflicting (identity span),
      rw (p, deduplicate_loop) refl,
      record {
        one = old;
        other = span;
        one_within = Within-append done (span ∷ rest) old (All-get_elem? _ out w.0 h.genuine w.1);
        other_within = Within-last done rest span;
        one_named = old_named;
        other_named = named;
        one_identity = same;
        other_identity = refl;
        different = n;
      },
    )

-- The deduplication of any spans answers. Either every span of the input is among those that it
-- answers, every answered span is of the input, and no two of them have one identity; or it names an
-- identity that two spans of the input have which are not deeply equal (a span with a NaN in its attributes
-- is not deeply equal to its repetition).
pub deduplicate_spans-IsRight :
    (spans : List Span) → (d : Deduplicated) × (deduplicate_spans spans ≡ some d) × IsRight spans d
unfolding deduplicate_spans
deduplicate_spans-IsRight spans = deduplicate_loop-IsRight [] spans [] [] (record {
  points = λ k e g. absurd (cc (sym (Dict.get-nil k) ∙ g));
  listed = tt;
  covered = tt;
  genuine = tt;
  unique = tt;
})

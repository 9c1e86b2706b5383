-- ===== src/Correlation/Counts.antt =====
-- How the scan of a consumer's links changes the counts of its context references.
use async_trace_doctor.Common.{
  ℕ, ◌+◌, ◌≤◌, ◌<◌, ◌≡◌, refl, ◌⊎◌, inl, inr, Bool, true, false, ◌||◌, List, [], ◌∷◌, any, nat_eq,
  if◌then◌else◌, Bool-cases, arith,
}
use async_trace_doctor.Model.{
  Duration, Span, Link, link_has_valid_context, has_valid_parent_context,
}
use async_trace_doctor.Correlation.Indexes.{Indexes}
use async_trace_doctor.Correlation.Defs.{
  Method, Confidence, Result, add_correlation, add_all, count_reference, count_unresolved, resolve,
  link_found, scan_links,
}

-- The span carries a context of its message: a valid link, or a valid parent.
abbrev pub has_reference : Span → Bool
has_reference c = any link_has_valid_context c.links || has_valid_parent_context c

-- From one result to another the consumer `ci` has `n` references more, `u` of them unresolved, and no
-- other count changes.
pub record Counts (ci n u : ℕ) (r r' : Result) : Type 0 where
  pub references :
      (j : ℕ) → r'.context_references j ≡ r.context_references j + (if nat_eq j ci then n else 0)
  pub unresolved :
      (j : ℕ)
      → r'.unresolved_references j ≡ r.unresolved_references j + (if nat_eq j ci then u else 0)

pub Counts-refl : (ci : ℕ) (r : Result) → Counts ci 0 0 r r
Counts-refl ci r = record { references = λ j. ground arith; unresolved = λ j. ground arith }

pub Counts-trans :
    {ci n u n' u' : ℕ} {r s t : Result}
    → Counts ci n u r s
    → Counts ci n' u' s t
    → Counts ci (n + n') (u + u') r t
Counts-trans {ci} h k = record {
  references = λ j. ground (arith, h.references j, k.references j);
  unresolved = λ j. ground (arith, h.unresolved j, k.unresolved j);
}

pub Counts-reference : (ci : ℕ) (r : Result) → Counts ci 1 0 r (count_reference ci r)
unfolding count_reference
Counts-reference ci r = record { references = λ j. ground arith; unresolved = λ j. ground arith }

pub Counts-unresolved : (ci : ℕ) (r : Result) → Counts ci 0 1 r (count_unresolved ci r)
unfolding count_unresolved
Counts-unresolved ci r = record { references = λ j. ground arith; unresolved = λ j. ground arith }

pub Counts-add_all :
    (spans : List Span) (ci : ℕ) (method : Method) (conf : Confidence) (r : Result) (l : List ℕ)
    → Counts ci 0 0 r (add_all spans ci method conf r l)
unfolding add_all add_correlation
Counts-add_all spans ci method conf r [] = Counts-refl ci r
Counts-add_all spans ci method conf r (pi ∷ rest) =
    let h = Counts-add_all spans ci method conf (add_correlation spans ci method conf r pi) rest in
    record { references = h.references; unresolved = h.unresolved }

pub Counts-add_correlation :
    (spans : List Span) (ci : ℕ) (method : Method) (conf : Confidence) (r : Result) (pi : ℕ)
    → Counts ci 0 0 r (add_correlation spans ci method conf r pi)
unfolding add_correlation
Counts-add_correlation spans ci method conf r pi =
    let h = Counts-refl ci r in record { references = h.references; unresolved = h.unresolved }

-- The references that are counted: at most that many are unresolved, and there is one exactly if `b`.
pub record Counted (ci : ℕ) (b : Bool) (r r' : Result) : Type 0 where
  pub n : ℕ
  pub u : ℕ
  pub counts : Counts ci n u r r'
  pub fewer : u ≤ n
  pub present : b ≡ true → 0 < n
  pub absent : b ≡ false → n ≡ 0

module _ (spans : List Span) (window : Duration) (m : Indexes) (ci : ℕ) where
  pub link_found-Counted :
      (found linked : List ℕ) (r : Result)
      → Counted ci true r (link_found ci found (linked, count_reference ci r)).1
  unfolding link_found
  link_found-Counted [] linked r = record {
    n = 1;
    u = 1;
    counts = Counts-trans (Counts-reference ci r) (Counts-unresolved ci (count_reference ci r));
    fewer = omega arith;
    present = λ _. omega arith;
    absent = λ e. absurd (cc e);
  }
  link_found-Counted (pi ∷ rest) linked r = record {
    n = 1;
    u = 0;
    counts = Counts-reference ci r;
    fewer = omega arith;
    present = λ _. omega arith;
    absent = λ e. absurd (cc e);
  }

  pub Counted-trans :
      (a b : Bool) {r s t : Result} → Counted ci a r s → Counted ci b s t → Counted ci (a || b) r t
  Counted-trans a b h k = record {
    n = h.n + k.n;
    u = h.u + k.u;
    counts = Counts-trans h.counts k.counts;
    fewer = omega (arith, h.fewer, k.fewer);
    present = λ e. ground (arith, h.present, k.present);
    absent = λ e. ground (arith, h.absent, k.absent);
  }

  pub Counted-none : {r s : Result} → Counts ci 0 0 r s → Counted ci false r s
  Counted-none h = record {
    n = 0;
    u = 0;
    counts = h;
    fewer = omega arith;
    present = λ e. absurd (cc e);
    absent = λ e. refl;
  }

  -- The scan counts the valid links, and links a producer only by a valid link.
  pub scan_links-Counted :
      (c : Span) (ls : List Link) (linked : List ℕ) (r : Result)
      → Counted ci (any link_has_valid_context ls) r (scan_links spans m c ci ls (linked, r)).1
        × ((scan_links spans m c ci ls (linked, r)).0 ≡ linked
            ⊎ (any link_has_valid_context ls ≡ true))
  unfolding scan_links
  scan_links-Counted c [] linked r = (Counted-none (Counts-refl ci r), inl refl)
  scan_links-Counted c (l ∷ rest) linked r = elim (Bool-cases (link_has_valid_context l)) [
    | inl valid ↦
        rw (valid, scan_links)
          (
            Counted-trans true _
                (link_found-Counted (resolve spans m c l.trace_id l.span_id) linked r)
                (scan_links-Counted c rest _ _).0,
            inr refl,
          )
    | inr broken ↦ rw (broken, scan_links) (scan_links-Counted c rest linked r)
  ]

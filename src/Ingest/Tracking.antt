-- ===== src/Ingest/Tracking.antt =====
-- The state of the loop of deduplicateSpans, and what its answer must be: one span for each identity,
-- or a conflict that the input holds.
use async_trace_doctor.Common.{
  ℕ, zero, suc, ◌≡◌, refl, sym, subst, ◌≢◌, ◌∙◌, inl, inr, String, true, false, none, some, List,
  [], ◌∷◌, ◌++◌, All, All-append, All-map, length, get_elem?, ◌==◌, if◌then◌else◌, Bool-cases,
  eq_iff,
}
use async_trace_doctor.Common.Dict
use async_trace_doctor.Common.Dict.{Dict}
use async_trace_doctor.Store.{deep_equal}
use async_trace_doctor.Model.{Span}
use async_trace_doctor.Ingest.Dedup.{
  Seen, Deduplicated, conflicting, distinct, dedup_content_hash, is_nameless, identity,
}

-- A span stands in a list.
abbrev pub Within : Span → List Span → Type 0
Within x xs = (i : ℕ) × (get_elem? xs i ≡ some x)

get_elem?-append :
    (xs ys : List Span) (i : ℕ) {x : Span}
    → get_elem? xs i ≡ some x
    → get_elem? (xs ++ ys) i ≡ some x
get_elem?-append [] ys i h = absurd (cc h)
get_elem?-append (x ∷ xs) ys zero h = h
get_elem?-append (x ∷ xs) ys (suc i) h = get_elem?-append xs ys i h

get_elem?-last : (xs ys : List Span) (x : Span) → get_elem? (xs ++ x ∷ ys) (length xs) ≡ some x
get_elem?-last [] ys x = refl
get_elem?-last (y ∷ xs) ys x = get_elem?-last xs ys x

pub Within-append : (xs ys : List Span) (x : Span) → Within x xs → Within x (xs ++ ys)
Within-append xs ys x (i, h) = (i, get_elem?-append xs ys i h)

pub Within-last : (xs ys : List Span) (x : Span) → Within x (xs ++ x ∷ ys)
Within-last xs ys x = (length xs, get_elem?-last xs ys x)

-- A span has another identity than `x`, if it has one.
abbrev pub Differs : Span → Span → Type 0
Differs x y = is_nameless y ≡ false → identity y ≢ identity x

-- No two spans of a list have one identity.
abbrev pub OnePerIdentity : List Span → Type 0
OnePerIdentity [] = Unit
OnePerIdentity (x ∷ xs) = (is_nameless x ≡ false → All (Differs x) xs) × OnePerIdentity xs

OnePerIdentity-append :
    (xs : List Span) (x : Span)
    → OnePerIdentity xs
    → All (λ y. is_nameless y ≡ false → Differs y x) xs
    → OnePerIdentity (xs ++ x ∷ [])
OnePerIdentity-append [] x u h = ((λ n. tt), tt)
OnePerIdentity-append (y ∷ xs) x u h = (
  (λ n. All-append (Differs y) xs (x ∷ []) (u.0 n) (h.0 n, tt)),
  OnePerIdentity-append xs x u.1 h.1,
)

-- Two spans of the input that are not deeply equal have the identity.
pub record IsConflict (spans : List Span) (id : String) : Type 0 where
  pub one : Span
  pub other : Span
  pub one_within : Within one spans
  pub other_within : Within other spans
  pub one_named : is_nameless one ≡ false
  pub other_named : is_nameless other ≡ false
  pub one_identity : identity one ≡ id
  pub other_identity : identity other ≡ id
  pub different : deep_equal one other ≡ false

-- What the answer must be: every span of the input is kept, nothing else is, and no identity twice; or
-- the input holds a conflict on the identity that the error names.
abbrev pub IsRight : List Span → Deduplicated → Type 0
IsRight spans (distinct out) =
    All (λ x. Within x out) spans × All (λ x. Within x spans) out × OnePerIdentity out
IsRight spans (conflicting id) = IsConflict spans id

-- The state of the loop after the spans `done`.
pub record Tracks (done : List Span) (seen : Dict Seen) (out : List Span) : Type 0 where
  pub points :
      (k : String) (e : Seen)
      → Dict.get k seen ≡ some e
      → (x : Span) × (get_elem? out e.index ≡ some x)
        × (identity x ≡ k)
        × (is_nameless x ≡ false)
        × (dedup_content_hash x ≡ e.hash)
  pub listed : All (λ x. is_nameless x ≡ false → Dict.get (identity x) seen ≢ none) out
  pub covered : All (λ x. Within x out) done
  pub genuine : All (λ x. Within x done) out
  pub unique : OnePerIdentity out

module _ (done : List Span) (seen : Dict Seen) (out : List Span) (span : Span)
    (h : Tracks done seen out) where
  covered_more : All (λ x. Within x (out ++ span ∷ [])) (done ++ span ∷ [])
  covered_more =
      All-append _ done (span ∷ [])
        (All-map (λ x w. Within-append out (span ∷ []) x w) done h.covered)
        (Within-last out [] span, tt)

  genuine_more : All (λ x. Within x (done ++ span ∷ [])) (out ++ span ∷ [])
  genuine_more =
      All-append _ out (span ∷ [])
        (All-map (λ x w. Within-append done (span ∷ []) x w) out h.genuine)
        (Within-last done [] span, tt)

  pub Tracks-nameless : is_nameless span ≡ true → Tracks (done ++ span ∷ []) seen (out ++ span ∷ [])
  Tracks-nameless n = record {
    points = λ k e g.
        let (x, at_x, a, b, c) = h.points k e g in
        (x, get_elem?-append out (span ∷ []) e.index at_x, a, b, c);
    listed = All-append _ out (span ∷ []) h.listed ((λ named. absurd (cc (n, named))), tt);
    covered = covered_more;
    genuine = genuine_more;
    unique =
        OnePerIdentity-append out span h.unique
          (All-map (λ y w n' named. absurd (cc (n, named))) out h.genuine);
  }

  pub Tracks-repeated : (i : ℕ) → get_elem? out i ≡ some span → Tracks (done ++ span ∷ []) seen out
  Tracks-repeated i at_i = record {
    points = h.points;
    listed = h.listed;
    covered = All-append _ done (span ∷ []) h.covered ((i, at_i), tt);
    genuine = All-map (λ x w. Within-append done (span ∷ []) x w) out h.genuine;
    unique = h.unique;
  }

  abbrev pub entry_of : Seen
  entry_of = record { index = length out; hash = dedup_content_hash span }

  get-seen :
      (k : String)
      → Dict.get k (Dict.put (identity span) entry_of seen)
        ≡ (if identity span == k then some entry_of else Dict.get k seen)
  get-seen k = Dict.get-put (identity span) k entry_of seen

  get-seen_same :
      (k : String)
      → (identity span == k) ≡ true
      → Dict.get k (Dict.put (identity span) entry_of seen) ≡ some entry_of
  get-seen_same k same = get-seen k ∙ (rw same refl)

  get-seen_other :
      (k : String)
      → (identity span == k) ≡ false
      → Dict.get k (Dict.put (identity span) entry_of seen) ≡ Dict.get k seen
  get-seen_other k other = get-seen k ∙ (rw other refl)

  pub Tracks-first :
      is_nameless span ≡ false
      → Dict.get (identity span) seen ≡ none
      → Tracks (done ++ span ∷ []) (Dict.put (identity span) entry_of seen) (out ++ span ∷ [])
  Tracks-first named new = record {
    points = λ k e g. elim (Bool-cases (identity span == k)) [
      | inl same ↦
          let q : some entry_of ≡ some e = sym (get-seen_same k same) ∙ g in
          let p : entry_of ≡ e = cc q in
          subst
            (λ (e : Seen).
              (x : Span) × (get_elem? (out ++ span ∷ []) e.index ≡ some x)
              × (identity x ≡ k)
              × (is_nameless x ≡ false)
              × (dedup_content_hash x ≡ e.hash))
            p (span, get_elem?-last out [] span, (eq_iff _ _).0 same, named, refl)
      | inr other ↦
          let q : Dict.get k seen ≡ some e = sym (get-seen_other k other) ∙ g in
          let (x, at_x, a, b, c) = h.points k e q in
          (x, get_elem?-append out (span ∷ []) e.index at_x, a, b, c)
    ];
    listed =
        All-append _ out (span ∷ [])
          (All-map
            (λ x old n gone. elim (Bool-cases (identity span == identity x)) [
              | inl same ↦ cc (get-seen_same (identity x) same, gone)
              | inr other ↦ old n (sym (get-seen_other (identity x) other) ∙ gone)
            ])
            out h.listed)
          ((λ n gone. cc (get-seen_same (identity span) ((eq_iff _ _).1 refl), gone)), tt);
    covered = covered_more;
    genuine = genuine_more;
    unique =
        OnePerIdentity-append out span h.unique
          (All-map (λ y old n _ same. old n (rw same at new)) out h.listed);
  }

-- ===== src/Store/Lookup.antt =====
-- The index of internal/server/store.go against a search through the retained spans.
use async_trace_doctor.Common.{
  ℕ, suc, ◌+◌, ◌≡◌, refl, ◌∙◌, ap, ◌≢◌, inl, inr, ◌↔◌, String, Bool, true, false, not, Option, none,
  some, List, [], ◌∷◌, ◌++◌, All, All-filter_by, length, get_elem?, filter_by, ◌==◌, if◌then◌else◌,
  Bool-cases, eq_iff, ne→==_false, arith,
}
use async_trace_doctor.Common.Dict
use async_trace_doctor.Common.Dict.{Dict}
use async_trace_doctor.Model.{Span, Span-discrete}
use async_trace_doctor.Store.Digest.{span_identity, span_content_hash, has_nan, deep_equal}
use async_trace_doctor.Store.Defs.{StoreEntry, rebuild_from, rebuild_index}

-- reflect.DeepEqual answers true exactly on equal spans without a NaN.
pub deep_equal_iff : (a b : Span) → (deep_equal a b ≡ true) ↔ ((a ≡ b) × (has_nan a ≡ false))
unfolding deep_equal
deep_equal_iff a b =
    elim (Span-discrete a b)
      as (λ d.
        ((elim d [ yes _ ↦ not (has_nan a) | no _ ↦ false ]) ≡ true)
        ↔ ((a ≡ b) × (has_nan a ≡ false))) [
          | yes p ↦ (λ h. (p, negation (has_nan a) h), λ q. rw q.1 refl)
          | no n ↦ (λ h. absurd (cc h), λ q. absurd (n q.0))
        ]
  where
    negation : (b : Bool) → not b ≡ true → b ≡ false
    negation true h = absurd (cc h)
    negation false h = refl

abbrev pub entry_at : ℕ → Span → StoreEntry
entry_at i span = record { index = i; content_hash = span_content_hash span }

-- The entry of the first span with an identity, where the first of the list has the position `i`.
unfoldable pub find_entry : String → ℕ → List Span → Option StoreEntry
find_entry id i [] = none
find_entry id i (x ∷ xs) =
    if span_identity x == id then some (entry_at i x) else find_entry id (suc i) xs

-- The first span with an identity.
unfoldable pub find_span : String → List Span → Option Span
find_span id [] = none
find_span id (x ∷ xs) = if span_identity x == id then some x else find_span id xs

abbrev pub Absent : String → List Span → Type 0
Absent id = All (λ y. span_identity y ≢ id)

-- No two spans of a list have one identity, unless it is empty.
abbrev pub Unique : List Span → Type 0
Unique [] = Unit
Unique (x ∷ xs) = (span_identity x ≢ "" → Absent (span_identity x) xs) × Unique xs

pub Unique-filter_by : (p : Span → Bool) (xs : List Span) → Unique xs → Unique (filter_by p xs)
Unique-filter_by p [] u = tt
Unique-filter_by p (x ∷ xs) u = elim (Bool-cases (p x)) [
  | inl keep ↦ rw keep (λ n. All-filter_by _ p xs (u.0 n), Unique-filter_by p xs u.1)
  | inr drop ↦ rw drop (Unique-filter_by p xs u.1)
]

pub find_entry_of_Absent :
    (id : String) (i : ℕ) (xs : List Span) → Absent id xs → find_entry id i xs ≡ none
unfolding find_entry
find_entry_of_Absent id i [] h = refl
find_entry_of_Absent id i (x ∷ xs) h =
    rw (ne→==_false _ _ h.0) (find_entry_of_Absent id (suc i) xs h.1)

pub Absent-of_find_entry :
    (id : String) (i : ℕ) (xs : List Span) → find_entry id i xs ≡ none → Absent id xs
unfolding find_entry
Absent-of_find_entry id i [] h = tt
Absent-of_find_entry id i (x ∷ xs) h = elim (Bool-cases (span_identity x == id)) [
  | inl same ↦ cc (rw same at h)
  | inr other ↦
      (λ p. cc (other, (eq_iff _ _).1 p), Absent-of_find_entry id (suc i) xs (rw other at h))
]

pub find_entry-append :
    (id : String) (i : ℕ) (xs : List Span) (x : Span)
    → find_entry id i xs ≡ none
    → find_entry id i (xs ++ x ∷ [])
      ≡ (if span_identity x == id then some (entry_at (i + length xs) x) else none)
unfolding find_entry
find_entry-append id i [] x h = let e : i + 0 ≡ i = omega arith in rw e refl
find_entry-append id i (y ∷ ys) x h = elim (Bool-cases (span_identity y == id)) [
  | inl same ↦ cc (rw same at h)
  | inr other ↦
      let e : i + suc (length ys) ≡ suc i + length ys = omega arith in
      rw (other, e) (find_entry-append id (suc i) ys x (rw other at h))
]

pub find_entry-append_found :
    (id : String) (i : ℕ) (xs ys : List Span) {e : StoreEntry}
    → find_entry id i xs ≡ some e
    → find_entry id i (xs ++ ys) ≡ some e
unfolding find_entry
find_entry-append_found id i [] ys h = cc
find_entry-append_found id i (x ∷ xs) ys h = elim (Bool-cases (span_identity x == id)) [
  | inl same ↦ rw same (rw same at h)
  | inr other ↦ rw other (find_entry-append_found id (suc i) xs ys (rw other at h))
]

-- A found entry points at the first span with the identity, and holds its hash.
pub find_entry_points :
    (id : String) (i : ℕ) (xs : List Span) {e : StoreEntry}
    → find_entry id i xs ≡ some e
    → (k : ℕ) × (old : Span) × (e ≡ entry_at (i + k) old)
      × (get_elem? xs k ≡ some old)
      × (find_span id xs ≡ some old)
unfolding find_entry find_span
find_entry_points id i [] h = cc
find_entry_points id i (x ∷ xs) {e} h = elim (Bool-cases (span_identity x == id)) [
  | inl same ↦
      let z : i + 0 ≡ i = omega arith in
      let q : some (entry_at i x) ≡ some e = rw same at h in (0, x, rw z (cc q), refl, rw same refl)
  | inr other ↦
      let (k, old, p, q, r) = find_entry_points id (suc i) xs (rw other at h) in
      let z : i + suc k ≡ suc i + k = omega arith in (suc k, old, rw z p, q, rw other r)
]

pub find_span_of_none :
    (id : String) (i : ℕ) (xs : List Span) → find_entry id i xs ≡ none → find_span id xs ≡ none
unfolding find_entry find_span
find_span_of_none id i [] h = refl
find_span_of_none id i (x ∷ xs) h = elim (Bool-cases (span_identity x == id)) [
  | inl same ↦ cc (rw same at h)
  | inr other ↦ rw other (find_span_of_none id (suc i) xs (rw other at h))
]

-- What a rebuilt index answers: the entry of the search, and else what the index answered before.
abbrev or_else : Option StoreEntry → Option StoreEntry → Option StoreEntry
or_else none d = d
or_else (some e) d = some e

abbrev pub index_one : ℕ → Span → Dict StoreEntry → Dict StoreEntry
index_one i x index =
    if not (span_identity x == "") then Dict.put (span_identity x) (entry_at i x) index else index

pub get-index_one :
    (id : String) (i : ℕ) (x : Span) (index : Dict StoreEntry)
    → id ≢ ""
    → Dict.get id (index_one i x index)
      ≡ (if span_identity x == id then some (entry_at i x) else Dict.get id index)
get-index_one id i x index n = ground (
  arith,
  eq_iff (span_identity x) id,
  eq_iff (span_identity x) "",
  Dict.get-put (span_identity x) id (entry_at i x) index,
)

pub get-rebuild_from :
    (id : String) (i : ℕ) (xs : List Span) (index : Dict StoreEntry)
    → id ≢ ""
    → Unique xs
    → Dict.get id (rebuild_from i xs index) ≡ or_else (find_entry id i xs) (Dict.get id index)
unfolding rebuild_from find_entry
get-rebuild_from id i [] index n u = refl
get-rebuild_from id i (x ∷ xs) index n u =
    get-rebuild_from id (suc i) xs (index_one i x index) n u.1
    ∙ elim (Bool-cases (span_identity x == id)) [
      | inl same ↦
          let e : span_identity x ≡ id = (eq_iff _ _).0 same in
          rw (same, find_entry_of_Absent id (suc i) xs (rw e at (u.0 (rw e n))))
            (get-index_one id i x index n ∙ (rw same refl))
      | inr other ↦
          rw other (
            ap (or_else (find_entry id (suc i) xs))
              (get-index_one id i x index n ∙ (rw other refl)))
    ]

pub get-rebuild_index :
    (id : String) (xs : List Span)
    → id ≢ ""
    → Unique xs
    → Dict.get id (rebuild_index xs) ≡ find_entry id 0 xs
unfolding rebuild_index Dict.get
get-rebuild_index id xs n u = get-rebuild_from id 0 xs [] n u ∙ or_none (find_entry id 0 xs)
  where
    or_none : (o : Option StoreEntry) → or_else o none ≡ o
    or_none none = refl
    or_none (some e) = refl

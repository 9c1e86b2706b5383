-- ===== src/Rules/BatchBounds.antt =====
-- The coverage of a batch by links never exceeds the number of its valid links.
use async_trace_doctor.Common.{
  ℕ, suc, ◌+◌, ◌≡◌, ◌≤◌, ◌<◌, refl, sym, ◌∙◌, ◌≢◌, ap, String, true, some, List, [], ◌∷◌, ◌++◌, All,
  All-append, length, length-append, ◌==◌, Bool-cases, inl, inr, eq_iff, ne→==_false, arith,
}
use async_trace_doctor.Common.Int.{pos}
use async_trace_doctor.Common.Dict
use async_trace_doctor.Common.Dict.{Dict}
use async_trace_doctor.Model.{
  Span, Link, link_has_valid_context, attr_string, attr_int, is_consumer,
}
use async_trace_doctor.Config.{Rule, contains}
use async_trace_doctor.Config.Refusals.{contains-false}
use async_trace_doctor.Rules.Scope.{applies}
use async_trace_doctor.Rules.Batch.{
  insert_unique, LinkTally, no_links, number_of, set_of, tally_message, tally_anonymous, tally_link,
  tally_links, producers_from, covered, sum_over, batch_link_coverage, is_incomplete_batch,
}

-- The links of one context that were counted.
abbrev count_of : LinkTally → String → ℕ
count_of t k = length (set_of (Dict.get k t.messages)) + number_of (Dict.get k t.anonymous_links)

abbrev Distinct : List String → Type 0
Distinct [] = Unit
Distinct (x ∷ xs) = All (λ y. y ≢ x) xs × Distinct xs

Distinct-snoc :
    (xs : List String) (x : String) → Distinct xs → All (λ y. y ≢ x) xs → Distinct (xs ++ x ∷ [])
Distinct-snoc [] x d h = (tt, tt)
Distinct-snoc (y ∷ xs) x d h =
    (All-append (λ z. z ≢ y) xs (x ∷ []) d.0 ((λ p. h.0 (sym p)), tt), Distinct-snoc xs x d.1 h.1)

sum_over-snoc :
    (f : String → ℕ) (ks : List String) (k : String)
    → sum_over f (ks ++ k ∷ []) ≡ sum_over f ks + f k
unfolding sum_over
sum_over-snoc f [] k = omega arith
sum_over-snoc f (j ∷ ks) k = omega (arith, sum_over-snoc f ks k)

sum_over-le :
    (f g : String → ℕ)
    → ((k : String) → f k ≤ g k)
    → (ks : List String) → sum_over f ks ≤ sum_over g ks
unfolding sum_over
sum_over-le f g h [] = omega arith
sum_over-le f g h (k ∷ ks) = omega (arith, h k, sum_over-le f g h ks)

-- Two counts that differ at one key at most, by one at most.
module _ (f g : String → ℕ) (k : String) (elsewhere : (j : String) → j ≢ k → g j ≡ f j)
    (here : g k ≤ f k + 1) where
  sum_over-absent : (ks : List String) → All (λ j. j ≢ k) ks → sum_over g ks ≡ sum_over f ks
  unfolding sum_over
  sum_over-absent [] h = refl
  sum_over-absent (j ∷ ks) h = omega (arith, elsewhere j h.0, sum_over-absent ks h.1)

  sum_over-bump : (ks : List String) → Distinct ks → sum_over g ks ≤ sum_over f ks + 1
  unfolding sum_over
  sum_over-bump [] d = omega arith
  sum_over-bump (j ∷ ks) d = elim (Bool-cases (j == k)) [
    | inl same ↦
        let p : j ≡ k = (eq_iff j k).0 same in
        let q : sum_over g ks ≡ sum_over f ks = sum_over-absent ks (rw p at d.0) in
        let r : g j ≤ f j + 1 = rw p here in omega arith
    | inr other ↦
        let q : g j ≡ f j = elsewhere j (λ p. cc (other, (eq_iff j k).1 p)) in
        omega (arith, sum_over-bump ks d.1)
  ]

length-insert_unique : (x : String) (xs : List String) → length (insert_unique x xs) ≤ length xs + 1
unfolding insert_unique
length-insert_unique x xs = elim (Bool-cases (contains xs x)) [
  | inl known ↦ rw known (omega arith)
  | inr new ↦ rw new (omega (arith, length-append xs (x ∷ [])))
]

-- The tally of some links is sound.
record IsTally (t : LinkTally) : Type 0 where
  distinct : Distinct t.contexts
  absent : (k : String) → All (λ j. j ≢ k) t.contexts → count_of t k ≡ 0
  bounded : sum_over (count_of t) t.contexts ≤ t.valid_links

-- One more valid link of the context `k`.
module _ (t u : LinkTally) (k : String) (h : IsTally t)
    (elsewhere : (j : String) → j ≢ k → count_of u j ≡ count_of t j)
    (here : count_of u k ≤ count_of t k + 1) (more : u.valid_links ≡ suc t.valid_links)
    (keys : u.contexts ≡ insert_unique k t.contexts) where
  IsTally-more : IsTally u
  unfolding insert_unique
  IsTally-more = elim (Bool-cases (contains t.contexts k)) [
    | inl known ↦
        let same : u.contexts ≡ t.contexts = keys ∙ (rw known refl) in
        record {
          distinct = rw same h.distinct;
          absent = λ j out.
              let gone : All (λ i. i ≢ j) t.contexts = rw same at out in
              elsewhere j (λ p. cc (known, (contains-false t.contexts k).1 (rw p at gone)))
              ∙ h.absent j gone;
          bounded =
              let b =
                sum_over-bump (count_of t) (count_of u) k elsewhere here t.contexts h.distinct in
              rw same (omega (arith, h.bounded));
        }
    | inr new ↦
        let fresh : All (λ j. j ≢ k) t.contexts = (contains-false t.contexts k).0 new in
        let grown : u.contexts ≡ t.contexts ++ k ∷ [] = keys ∙ (rw new refl) in
        record {
          distinct = rw grown (Distinct-snoc t.contexts k h.distinct fresh);
          absent = λ j out.
              let (gone, last) = split t.contexts (rw grown at out) in
              elsewhere j (λ p. last (sym p)) ∙ h.absent j gone;
          bounded =
              let b = sum_over-absent (count_of t) (count_of u) k elsewhere here t.contexts fresh in
              let s = sum_over-snoc (count_of u) t.contexts k in
              let z = h.absent k fresh in rw grown (omega (arith, h.bounded));
        }
  ]
    where
      split :
          {j : String} (xs : List String)
          → All (λ i. i ≢ j) (xs ++ k ∷ [])
          → All (λ i. i ≢ j) xs × (k ≢ j)
      split [] a = (tt, a.0)
      split (x ∷ xs) a = let (b, c) = split xs a.1 in ((a.0, b), c)

get-put_same : {V : Type 0} (k : String) (v : V) (m : Dict V) → Dict.get k (Dict.put k v m) ≡ some v
get-put_same k v m = Dict.get-put k k v m ∙ (rw ((eq_iff k k).1 refl) refl)

get-put_other :
    {V : Type 0} (k j : String) (v : V) (m : Dict V)
    → j ≢ k
    → Dict.get j (Dict.put k v m) ≡ Dict.get j m
get-put_other k j v m n = Dict.get-put k j v m ∙ (rw (ne→==_false k j (λ p. n (sym p))) refl)

tally_message-IsTally : (k id : String) (t : LinkTally) → IsTally t → IsTally (tally_message k id t)
unfolding tally_message
tally_message-IsTally k id t h =
    let old : List String = set_of (Dict.get k t.messages) in
    IsTally-more t (tally_message k id t) k h
      (λ j n.
        let e = get-put_other k j (insert_unique id old) t.messages n in
        ap (λ o. length (set_of o) + number_of (Dict.get j t.anonymous_links)) e)
      (let e = get-put_same k (insert_unique id old) t.messages in
        let l = length-insert_unique id old in rw e (omega arith))
      refl refl

tally_anonymous-IsTally : (k : String) (t : LinkTally) → IsTally t → IsTally (tally_anonymous k t)
unfolding tally_anonymous
tally_anonymous-IsTally k t h =
    let old : ℕ = number_of (Dict.get k t.anonymous_links) in
    IsTally-more t (tally_anonymous k t) k h
      (λ j n.
        let e = get-put_other k j (old + 1) t.anonymous_links n in
        ap (λ o. length (set_of (Dict.get j t.messages)) + number_of o) e)
      (let e = get-put_same k (old + 1) t.anonymous_links in rw e (omega arith)) refl refl

tally_link-IsTally : (l : Link) (t : LinkTally) → IsTally t → IsTally (tally_link l t)
unfolding tally_link
tally_link-IsTally l t h = elim (Bool-cases (link_has_valid_context l)) [
  | inr bad ↦ rw bad h
  | inl valid ↦ elim (Bool-cases (attr_string l.attributes "messaging.message.id" == "")) [
    | inl anonymous ↦ rw (valid, anonymous) (tally_anonymous-IsTally _ t h)
    | inr named ↦ rw (valid, named) (tally_message-IsTally _ _ t h)
  ]
]

tally_links-IsTally : (ls : List Link) (t : LinkTally) → IsTally t → IsTally (tally_links ls t)
unfolding tally_links
tally_links-IsTally [] t h = h
tally_links-IsTally (l ∷ ls) t h =
    tally_links-IsTally ls (tally_link l t) (tally_link-IsTally l t h)

no_links-IsTally : IsTally no_links
unfolding sum_over Dict.get
no_links-IsTally = record { distinct = tt; absent = λ k h. none_counted k; bounded = omega arith }
  where
    none_counted : (k : String) → count_of no_links k ≡ 0
    none_counted k = refl

covered-le :
    (producers : Dict Span) (t : LinkTally) (k : String) → covered producers t k ≤ count_of t k
unfolding covered
covered-le producers t k = ground arith

-- The links of a consumer never cover more messages than the consumer has valid links, whatever the
-- producers declare.
coverage-le-valid_links :
    (s : Span) (spans : List Span)
    → (batch_link_coverage s spans).coverage ≤ (batch_link_coverage s spans).valid_links
unfolding batch_link_coverage
coverage-le-valid_links s spans =
    let t : LinkTally = tally_links s.links no_links in
    let h = tally_links-IsTally s.links no_links no_links-IsTally in
    le_trans _ _ _
      (sum_over-le (covered (producers_from spans []) t) (count_of t) (covered-le _ t) t.contexts)
      h.bounded
  where
    le_trans : (a b c : ℕ) → a ≤ b → b ≤ c → a ≤ c
    le_trans a b c p q = omega arith

-- A consumer to which the rule applies and whose declared batch of two messages or more has fewer valid
-- links than messages is found to be incomplete.
pub short_batch-is_incomplete :
    (r : Rule) (spans : List Span) (s : Span) (count : ℕ)
    → is_consumer s ≡ true
    → applies r s ≡ true
    → attr_int s.attributes "messaging.batch.message_count" ≡ some (pos count)
    → 2 ≤ count
    → (batch_link_coverage s spans).valid_links < count
    → is_incomplete_batch r spans s ≡ true
unfolding is_incomplete_batch
short_batch-is_incomplete r spans s count c a declared two short =
    let le = coverage-le-valid_links s spans in rw (c, a, declared) (ground arith)

-- ===== src/Rules/Observed.antt =====
-- The findings of topologyFindings about edges that were observed, by a description without state.
use async_trace_doctor.Common.{
  ℕ, zero, suc, ◌+◌, ◌<◌, ◌≡◌, refl, sym, ap, ◌∙◌, Bool, true, false, not, ◌&&◌, ◌||◌, Option, none,
  some, List, [], ◌∷◌, ◌++◌, any, length, nat_eq, nat_eq→eq, ltb, if◌then◌else◌, Bool-cases, inl,
  inr, arith, get_elem?,
}
use mathlib.Core.List.{append_assoc, append-nil}
use async_trace_doctor.Correlation.{assign}
use async_trace_doctor.Config.{Rule, ExpectedEdge, Topology}
use async_trace_doctor.Rules.Topology.{Edge, edge_matches, matching_edge, matching_from}
use async_trace_doctor.Rules.Findings.{Finding}
use async_trace_doctor.Rules.Drift.{
  is_found, mark_matches, edge_finding, observe_edge, observe_edges,
}

-- One of the edges of the configuration matches the observed one.
unfoldable pub is_among : List ExpectedEdge → Edge → Bool
is_among edges o = any (λ x. edge_matches x o) edges

-- Neither denied nor ignored.
unfoldable pub is_judged : Topology → Edge → Bool
unfolding is_among
is_judged t o = not (is_among t.denied_edges o) && not (is_among t.ignored_edges o)

-- What is reported of one observed edge.
unfoldable pub verdict : Rule → Topology → Edge → List Finding
unfolding is_among
verdict r t o =
    if is_among t.denied_edges o
    then edge_finding r o "denied_edge" ∷ []
    else if is_among t.ignored_edges o
        || (nat_eq (length t.expected_edges) 0 || is_among t.expected_edges o)
    then []
    else edge_finding r o "unexpected_edge" ∷ []

unfoldable pub verdicts : Rule → Topology → List Edge → List Finding
unfolding verdict
verdicts r t [] = []
verdicts r t (o ∷ rest) = verdict r t o ++ verdicts r t rest

matches_place : Edge → Option ExpectedEdge → Bool
matches_place o none = false
matches_place o (some x) = edge_matches x o

-- The expected edge of position `i` matches.
unfoldable pub matches_at : List ExpectedEdge → ℕ → Edge → Bool
unfolding matches_place
matches_at edges i o = matches_place o (get_elem? edges i)

is_found-matching_from :
    (i : ℕ) (xs : List ExpectedEdge) (o : Edge) → is_found (matching_from i xs o) ≡ is_among xs o
unfolding matching_from is_among
is_found-matching_from i [] o = refl
is_found-matching_from i (x ∷ xs) o = elim (Bool-cases (edge_matches x o)) [
  | inl here ↦ rw (here, matching_from) refl
  | inr other ↦ rw (other, matching_from) (is_found-matching_from (suc i) xs o)
]

is_found-matching_edge :
    (xs : List ExpectedEdge) (o : Edge) → is_found (matching_edge xs o) ≡ is_among xs o
unfolding matching_edge
is_found-matching_edge xs o = is_found-matching_from 0 xs o

or_false : (b : Bool) → (b || false) ≡ b
or_false true = refl
or_false false = refl

or_true : (b : Bool) → (b || true) ≡ true
or_true true = refl
or_true false = refl

or_assoc : (a b c : Bool) → ((a || b) || c) ≡ (a || (b || c))
or_assoc true b c = refl
or_assoc false b c = refl

-- The expected edge of position `i`, counted from `n`, matches.
matches_from : ℕ → List ExpectedEdge → ℕ → Edge → Bool
matches_from n [] i o = false
matches_from n (x ∷ xs) i o = (nat_eq i n && edge_matches x o) || matches_from (suc n) xs i o

positive : (k : ℕ) → ltb 0 (suc k) ≡ true
positive k = ground arith

mark_matches-count :
    (n : ℕ) (xs : List ExpectedEdge) (o : Edge) (matched : ℕ → Bool) (k : ℕ)
    → ltb 0 (mark_matches n xs o (matched, k)).1 ≡ (ltb 0 k || is_among xs o)
unfolding mark_matches is_among
mark_matches-count n [] o matched k = sym (or_false (ltb 0 k))
mark_matches-count n (x ∷ xs) o matched k = elim (Bool-cases (edge_matches x o)) [
  | inl here ↦
      rw (here, mark_matches)
        (mark_matches-count (suc n) xs o (assign matched n true) (suc k)
          ∙ ap (λ b. b || is_among xs o) (positive k)
          ∙ sym (or_true (ltb 0 k)))
  | inr other ↦ rw (other, mark_matches) (mark_matches-count (suc n) xs o matched k)
]

mark_matches-at :
    (n : ℕ) (xs : List ExpectedEdge) (o : Edge) (matched : ℕ → Bool) (k i : ℕ)
    → (mark_matches n xs o (matched, k)).0 i ≡ (matched i || matches_from n xs i o)
unfolding mark_matches matches_from
mark_matches-at n [] o matched k i = sym (or_false (matched i))
mark_matches-at n (x ∷ xs) o matched k i = elim (Bool-cases (edge_matches x o)) [
  | inl here ↦
      rw (here, mark_matches, matches_from)
        (mark_matches-at (suc n) xs o (assign matched n true) (suc k) i
          ∙ ap (λ b. b || matches_from (suc n) xs i o) (marked (nat_eq i n) (matched i))
          ∙ or_assoc (matched i) (nat_eq i n && true) (matches_from (suc n) xs i o))
  | inr other ↦
      rw (other, mark_matches, matches_from)
        (mark_matches-at (suc n) xs o matched k i
          ∙ ap (λ b. matched i || (b || matches_from (suc n) xs i o)) (dropped (nat_eq i n)))
]
  where
    marked : (b m : Bool) → (if b then true else m) ≡ (m || (b && true))
    marked true m = sym (or_true m)
    marked false m = sym (or_false m)

    dropped : (b : Bool) → false ≡ (b && false)
    dropped true = refl
    dropped false = refl

matches_from-at :
    (n : ℕ) (xs : List ExpectedEdge) (i : ℕ) (o : Edge)
    → matches_from n xs (n + i) o ≡ matches_at xs i o
unfolding matches_from matches_at
matches_from-at n [] i o = refl
matches_from-at n (x ∷ xs) zero o =
    let e : nat_eq (n + 0) n ≡ true = ground arith in
    let f : n + 0 ≡ n = omega arith in
    rw (e, f, matches_from)
      (ap (λ b. edge_matches x o || b) (past (suc n) xs n (omega arith)) ∙ or_false _)
  where
    past : (n : ℕ) (xs : List ExpectedEdge) (i : ℕ) → i < n → matches_from n xs i o ≡ false
    past n [] i h = refl
    past n (x ∷ xs) i h =
        let e : nat_eq i n ≡ false = ground arith in
        rw (e, matches_from) (past (suc n) xs i (omega arith))
matches_from-at n (x ∷ xs) (suc i) o =
    let e : nat_eq (n + suc i) n ≡ false = ground arith in
    let f : n + suc i ≡ suc n + i = omega arith in
    rw (e, f, matches_from) (matches_from-at (suc n) xs i o)

-- The branches of observe_edge.
abbrev decided :
    Bool
    → Bool
    → Bool
    → Bool
    → List Finding
    → List Finding
    → List Finding
    → (ℕ → Bool)
    → (ℕ → Bool)
    → List Finding × (ℕ → Bool)
decided denied ignored free expected out x y a b =
    if denied
    then (out ++ x, a)
    else if ignored
    then (out, a)
    else if free
    then (out, a)
    else if expected
    then (out, b)
    else (out ++ y, b)

decided-findings :
    (denied ignored free expected : Bool) (out x y : List Finding) (a b : ℕ → Bool)
    → (decided denied ignored free expected out x y a b).0
      ≡ out ++ (if denied then x else if ignored || (free || expected) then [] else y)
decided-findings true ignored free expected out x y a b = refl
decided-findings false true free expected out x y a b = sym (append-nil out)
decided-findings false false true expected out x y a b = sym (append-nil out)
decided-findings false false false true out x y a b = sym (append-nil out)
decided-findings false false false false out x y a b = refl

decided-matched :
    (denied ignored free expected here : Bool) (out x y : List Finding) (a b : ℕ → Bool) (i : ℕ)
    → (free ≡ true → here ≡ false)
    → b i ≡ (a i || here)
    → (decided denied ignored free expected out x y a b).1 i
      ≡ (a i || ((not denied && not ignored) && here))
decided-matched true ignored free expected here out x y a b i f h = sym (or_false (a i))
decided-matched false true free expected here out x y a b i f h = sym (or_false (a i))
decided-matched false false true expected here out x y a b i f h =
    sym (or_false (a i)) ∙ ap (λ c. a i || c) (sym (f refl))
decided-matched false false false true here out x y a b i f h = h
decided-matched false false false false here out x y a b i f h = h

none_expected :
    (xs : List ExpectedEdge) (i : ℕ) (o : Edge)
    → nat_eq (length xs) 0 ≡ true
    → matches_at xs i o ≡ false
unfolding matches_at matches_place
none_expected [] i o h = refl
none_expected (x ∷ xs) i o h = absurd (omega (arith, nat_eq→eq _ _ h))

module _ (r : Rule) (t : Topology) where
  observe_edge-verdict :
      (o : Edge) (out : List Finding) (matched : ℕ → Bool)
      → (observe_edge r t o (out, matched)).0 ≡ out ++ verdict r t o
  unfolding observe_edge verdict
  observe_edge-verdict o out matched =
      let d = is_found-matching_edge t.denied_edges o in
      let g = is_found-matching_edge t.ignored_edges o in
      let m : ltb 0 (mark_matches 0 t.expected_edges o (matched, 0)).1
          ≡ is_among t.expected_edges o =
        mark_matches-count 0 t.expected_edges o matched 0 in
      rw (d, g, m, observe_edge, verdict)
        (decided-findings (is_among t.denied_edges o) (is_among t.ignored_edges o)
          (nat_eq (length t.expected_edges) 0) (is_among t.expected_edges o) out _ _ matched _)

  observe_edge-matched :
      (o : Edge) (out : List Finding) (matched : ℕ → Bool) (i : ℕ)
      → (observe_edge r t o (out, matched)).1 i
        ≡ (matched i || (is_judged t o && matches_at t.expected_edges i o))
  unfolding observe_edge is_judged
  observe_edge-matched o out matched i =
      let d = is_found-matching_edge t.denied_edges o in
      let g = is_found-matching_edge t.ignored_edges o in
      let m : ltb 0 (mark_matches 0 t.expected_edges o (matched, 0)).1
          ≡ is_among t.expected_edges o =
        mark_matches-count 0 t.expected_edges o matched 0 in
      let z : 0 + i ≡ i = omega arith in
      rw (d, g, m, observe_edge, is_judged)
        (decided-matched (is_among t.denied_edges o) (is_among t.ignored_edges o)
          (nat_eq (length t.expected_edges) 0) (is_among t.expected_edges o)
          (matches_at t.expected_edges i o) out _ _ matched _ i (none_expected t.expected_edges i o)
          (mark_matches-at 0 t.expected_edges o matched 0 i
            ∙ ap (λ b. matched i || b) (rw z at (matches_from-at 0 t.expected_edges i o))))

  observe_edges-verdicts :
      (os : List Edge) (out : List Finding) (matched : ℕ → Bool)
      → ((observe_edges r t os (out, matched)).0 ≡ out ++ verdicts r t os)
        × ((i : ℕ)
            → (observe_edges r t os (out, matched)).1 i
              ≡ (matched i || any (λ o. is_judged t o && matches_at t.expected_edges i o) os))
  unfolding observe_edges verdicts
  observe_edges-verdicts [] out matched = (sym (append-nil out), λ i. sym (or_false (matched i)))
  observe_edges-verdicts (o ∷ os) out matched =
      let st : List Finding × (ℕ → Bool) = observe_edge r t o (out, matched) in
      let (found, marked) = observe_edges-verdicts os st.0 st.1 in
      (
        found
            ∙ ap (λ l. l ++ verdicts r t os) (observe_edge-verdict o out matched)
            ∙ append_assoc out (verdict r t o) (verdicts r t os),
        λ i.
            marked i
            ∙ ap (λ b. b || any (λ o. is_judged t o && matches_at t.expected_edges i o) os)
                (observe_edge-matched o out matched i)
            ∙ or_assoc (matched i) _ _,
      )

  -- Of the observed edges exactly these are reported, in their order: each denied one, and, where edges
  -- are expected at all, each that is neither ignored nor expected. The expected edge of a position
  -- counts as matched exactly when an observed edge that is neither denied nor ignored matches it.
  pub observe_edges-are_verdicts :
      (os : List Edge)
      → ((observe_edges r t os ([], λ i. false)).0 ≡ verdicts r t os)
        × ((i : ℕ)
            → (observe_edges r t os ([], λ i. false)).1 i
              ≡ any (λ o. is_judged t o && matches_at t.expected_edges i o) os)
  observe_edges-are_verdicts os = observe_edges-verdicts os [] (λ i. false)

-- ===== src/Rules/Matching.antt =====
-- What matchingEdge answers.
use async_trace_doctor.Common.{
  ℕ, zero, suc, ◌+◌, ◌≡◌, subst, true, false, none, some, List, [], ◌∷◌, All, Bool-cases, inl, inr,
  arith,
}
use async_trace_doctor.Config.{ExpectedEdge}
use async_trace_doctor.Rules.Topology.{Edge, edge_matches, matching_from, matching_edge}

-- The first edge of a list that matches, and none before it.
abbrev FirstMatch : List ExpectedEdge → Edge → ℕ → Type 0
FirstMatch [] o k = ⊥
FirstMatch (x ∷ xs) o zero = edge_matches x o ≡ true
FirstMatch (x ∷ xs) o (suc k) = (edge_matches x o ≡ false) × FirstMatch xs o k

matching_from-FirstMatch :
    (i : ℕ) (xs : List ExpectedEdge) (o : Edge) {j : ℕ}
    → matching_from i xs o ≡ some j
    → (k : ℕ) × (j ≡ i + k) × FirstMatch xs o k
unfolding matching_from
matching_from-FirstMatch i [] o h = absurd (cc h)
matching_from-FirstMatch i (x ∷ xs) o {j} h = elim (Bool-cases (edge_matches x o)) [
  | inl here ↦
      let p : some i ≡ some j = rw (here, matching_from) at h in
      let q : i ≡ j = cc p in (0, omega arith, here)
  | inr other ↦
      let (k, e, m) = matching_from-FirstMatch (suc i) xs o (rw (other, matching_from) at h) in
      (suc k, omega arith, (other, m))
]

matching_from-none :
    (i : ℕ) (xs : List ExpectedEdge) (o : Edge)
    → matching_from i xs o ≡ none
    → All (λ x. edge_matches x o ≡ false) xs
unfolding matching_from
matching_from-none i [] o h = tt
matching_from-none i (x ∷ xs) o h = elim (Bool-cases (edge_matches x o)) [
  | inl here ↦ absurd (cc (rw (here, matching_from) at h))
  | inr other ↦ (other, matching_from-none (suc i) xs o (rw (other, matching_from) at h))
]

-- The position that matchingEdge answers is that of the first edge of the configuration that matches the
-- observed one; where it answers -1 no edge matches.
matching_edge-FirstMatch :
    (edges : List ExpectedEdge) (observed : Edge)
    → ((i : ℕ) → matching_edge edges observed ≡ some i → FirstMatch edges observed i)
      × (matching_edge edges observed ≡ none → All (λ x. edge_matches x observed ≡ false) edges)
unfolding matching_edge
matching_edge-FirstMatch edges observed = (
  (λ i h.
      let (k, e, m) = matching_from-FirstMatch 0 edges observed h in
      let p : k ≡ i = omega arith in subst (FirstMatch edges observed) p m),
  matching_from-none 0 edges observed,
)

-- ===== src/Correlation/Nearest.antt =====
-- nearestRouteCandidates and the candidates of internal/correlation/correlation.go. `none` stands for a
-- panic of the Go program.
use async_trace_doctor.Common.{
  ℕ, zero, suc, ◌+◌, ◌-◌, ◌/◌, ◌^◌, Bool, true, false, ◌||◌, ◌&&◌, not, Option, none, some, List,
  [], ◌∷◌, ◌++◌, length, get_elem?, ltb, nat_eq, if◌then◌else◌,
}
use async_trace_doctor.Common.Int.{ltb_ℤ, leb_ℤ, eq_ℤ, max_int64}
use async_trace_doctor.Model.{Duration, Span, is_zero, is_before, is_after}
use async_trace_doctor.Correlation.Compatible.{compatible, delta}
use async_trace_doctor.Correlation.Indexes.{span_at}

pub record Candidate : Type 0 where
  pub index : ℕ
  pub distance : Duration

candidate_before : Candidate → Candidate → Bool
candidate_before a b =
    if not (eq_ℤ a.distance b.distance) then ltb_ℤ a.distance b.distance else ltb a.index b.index

unfoldable pub insert_candidate : Candidate → List Candidate → List Candidate
unfolding candidate_before
insert_candidate a [] = a ∷ []
insert_candidate a (b ∷ bs) = if candidate_before a b then a ∷ b ∷ bs else b ∷ insert_candidate a bs

-- By distance and then by position.
unfoldable pub sort_candidates : List Candidate → List Candidate
unfolding insert_candidate
sort_candidates [] = []
sort_candidates (a ∷ as') = insert_candidate a (sort_candidates as')

-- sort.Search: the binary search of the standard library between `i` and `j`. Each round halves the
-- range, so the length of the list is more rounds than it takes.
unfoldable pub search_from : ℕ → (ℕ → Bool) → ℕ → ℕ → ℕ
search_from zero found i j = i
search_from (suc fuel) found i j =
    let h = (i + j) / 2 in
    elim (ltb i j) [
      | false ↦ i
      | true ↦ elim (found h) [
        | true ↦ search_from fuel found i h
        | false ↦ search_from fuel found (h + 1) j
      ]
    ]

-- Whether the span at position `i` of a route does not end before the consumer starts.
ends_from : List Span → Span → List ℕ → ℕ → Bool
unfolding span_at
ends_from spans consumer indices i = elim (get_elem? indices i) [
  | none ↦ true
  | some pi ↦ not (is_before (span_at spans pi).end consumer.start)
]

unfoldable pub search_position : List Span → Span → List ℕ → ℕ
unfolding search_from ends_from
search_position spans consumer indices =
    search_from (length indices) (ends_from spans consumer indices) 0 (length indices)

-- The delta of the producer at a place of the route, and the largest Duration past its ends.
unfoldable pub delta_at : List Span → Span → Option ℕ → Duration
unfolding delta span_at
delta_at spans consumer none = max_int64
delta_at spans consumer (some pi) = delta (span_at spans pi) consumer

-- The element at `left`, where `below` is left + 1.
abbrev pub left_place : List ℕ → ℕ → Option ℕ
left_place indices zero = none
left_place indices (suc left) = get_elem? indices left

-- What becomes of one candidate.
unfoldable pub is_eligible : Span → Span → Bool
unfolding compatible
is_eligible producer consumer = not (
    not (is_zero producer.start)
      && not (is_zero consumer.start)
      && is_after producer.start consumer.start
    || not (compatible producer consumer))

-- What one round decides: which side it takes from, and whether it stops, skips or takes.
pub data Outcome : Type 0 where
  crash stop : Outcome
  skip : Bool → Outcome
  take : Bool → Candidate → Outcome

unfoldable pub weigh :
    List Span → Span → Duration → Duration → Duration → Bool → Option ℕ → Duration → Outcome
unfolding is_eligible span_at
weigh spans consumer window dl dr chose_left none distance = crash
weigh spans consumer window dl dr chose_left (some pi) distance =
    if ltb_ℤ window distance
    then (if ltb_ℤ window dl && ltb_ℤ window dr then stop else skip chose_left)
    else if is_eligible (span_at spans pi) consumer
    then take chose_left (record { index = pi; distance = distance })
    else skip chose_left

-- The body of the loop, with `below` elements to the left and the next one to the right at `right`.
unfoldable pub inspect : List ℕ → List Span → Span → Duration → ℕ → ℕ → Outcome
unfolding delta_at weigh
inspect indices spans consumer window below right =
    let dl = delta_at spans consumer (left_place indices below) in
    let dr = delta_at spans consumer (get_elem? indices right) in
    if leb_ℤ dl dr
    then weigh spans consumer window dl dr true (left_place indices below) dl
    else weigh spans consumer window dl dr false (get_elem? indices right) dr

abbrev pub next_below : Bool → ℕ → ℕ
next_below true below = below - 1
next_below false below = below

abbrev pub next_right : Bool → ℕ → ℕ
next_right true right = right
next_right false right = suc right

-- What follows a round: the candidates so far, or the loop again from the next places.
abbrev pub proceed :
    Outcome
    → List Candidate
    → (Bool → List Candidate → Option (List Candidate))
    → Option (List Candidate)
proceed crash out again = none
proceed stop out again = some out
proceed (skip left) out again = again left out
proceed (take left a) out again = again left (out ++ a ∷ [])

-- The test of the loop.
abbrev pub goes_on : List ℕ → ℕ → ℕ → ℕ → List Candidate → Bool
goes_on indices limit below right out =
    ltb (length out) limit && (ltb 0 below || ltb right (length indices))

-- The loop. Each round that goes on takes one element from the left or from the right.
unfoldable pub nearest_loop :
    ℕ → List ℕ → List Span → Span → Duration → ℕ → ℕ → ℕ → List Candidate → Option (List Candidate)
nearest_loop zero indices spans consumer window limit below right out = some out
nearest_loop (suc fuel) indices spans consumer window limit below right out =
    elim (goes_on indices limit below right out) [
      | false ↦ some out
      | true ↦ proceed (inspect indices spans consumer window below right) out (λ left out'.
          nearest_loop fuel indices spans consumer window limit (next_below left below)
            (next_right left right) out')
    ]

-- make([]candidate, 0, limit) panics where the 16 bytes of each of `limit` candidates pass the
-- address space of 2^48 bytes that Go's runtime reckons with on 64-bit machines.
abbrev pub max_capacity : ℕ
max_capacity = 2 ^ 44

-- A limit that is not positive is 0 here.
unfoldable pub nearest_route_candidates :
    List ℕ → List Span → Span → Duration → ℕ → Option (List Candidate)
unfolding nearest_loop inspect search_position
nearest_route_candidates [] spans consumer window limit = some []
nearest_route_candidates (i ∷ is) spans consumer window limit =
    let position = search_position spans consumer (i ∷ is) in
    if nat_eq limit 0
    then some []
    else if ltb max_capacity limit
    then none
    else nearest_loop (length (i ∷ is)) (i ∷ is) spans consumer window limit position position []

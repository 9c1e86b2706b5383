-- ===== src/Rules/EdgeGroups.antt =====
-- How buildTopology groups the correlations: the count of every edge.
use async_trace_doctor.Common.{
  ℕ, suc, ◌+◌, ◌≡◌, refl, sym, ap, ◌∙◌, subst, String, Bool, true, false, Option, none, some, List,
  [], ◌∷◌, All, All-map, get_elem?, length, ◌==◌, Bool-cases, Option-cases, inl, inr, arith,
  if◌then◌else◌,
}
use async_trace_doctor.Common.Dict
use async_trace_doctor.Common.Dict.{Dict}
use async_trace_doctor.Model.{Span}
use async_trace_doctor.Correlation.{Correlation}
use async_trace_doctor.Rules.Topology.{Edge}
use async_trace_doctor.Rules.Edges.{
  edge_of, edge_key, found_or, count_edge, count_edges, sort_edges, values, build_topology,
}
use async_trace_doctor.Rules.EdgeFiling.{edge_text, Once, Once-put, Good, bump, Good-put, Good-get}
use async_trace_doctor.Rules.EdgeCounts.{total, IsShown, All-sort_edges, build_topology-total}

edge_key-edge_text : (p co : Span) → edge_key p co ≡ edge_text (edge_of p co)
unfolding edge_key edge_text edge_of
edge_key-edge_text p co = refl

-- The edge of two spans has the text.
is_of : String → Option Span → Option Span → Bool
unfolding edge_text edge_of
is_of k (some p) (some co) = edge_text (edge_of p co) == k
is_of k _ _ = false

-- How many correlations join spans whose edge has the text.
unfoldable pub tally : List Span → String → List Correlation → ℕ
unfolding is_of
tally spans k [] = 0
tally spans k (x ∷ xs) =
    let rest = tally spans k xs in
    if is_of k (get_elem? spans x.producer_index) (get_elem? spans x.consumer_index)
    then suc rest
    else rest

-- The map has each text once, and counts what `c` says of it.
record IsCounted (c : String → ℕ) (m : Dict Edge) : Type 0 where
  once : Once m
  good : Good c m
  absent : (k : String) → Dict.get k m ≡ none → c k ≡ 0

-- What count_edge files under the key.
grown-Good :
    (p co : Span) (c : String → ℕ) (m : Dict Edge) (o : Option Edge)
    → IsCounted c m
    → Dict.get (edge_key p co) m ≡ o
    → (edge_text
          (record (found_or o (edge_of p co)) { count = suc (found_or o (edge_of p co)).count })
        ≡ edge_key p co)
      × (suc (found_or o (edge_of p co)).count ≡ suc (c (edge_key p co)))
unfolding edge_text edge_of found_or
grown-Good p co c m none h g =
    (sym (edge_key-edge_text p co), ap suc (sym (h.absent (edge_key p co) g)))
grown-Good p co c m (some e) h g =
    let (t, n) = Good-get (edge_key p co) c m h.good g in (t, ap suc n)

put-absent :
    (k : String) (c : String → ℕ) (v : Edge) (m : Dict Edge)
    → ((j : String) → Dict.get j m ≡ none → c j ≡ 0)
    → (j : String) → Dict.get j (Dict.put k v m) ≡ none
    → bump k c j ≡ 0
put-absent k c v m h j g = elim (Bool-cases (k == j)) [
  | inl same ↦ absurd (cc (rw same at (sym (Dict.get-put k j v m) ∙ g)))
  | inr other ↦ rw other (h j (rw other at (sym (Dict.get-put k j v m) ∙ g)))
]

count_edge-IsCounted :
    (p co : Span) (c : String → ℕ) (m : Dict Edge)
    → IsCounted c m
    → IsCounted (bump (edge_key p co) c) (count_edge p co m)
unfolding count_edge
count_edge-IsCounted p co c m h =
    let (text, count) = grown-Good p co c m (Dict.get (edge_key p co) m) h refl in
    record {
      once = Once-put _ _ m h.once;
      good = Good-put (edge_key p co) c _ m text count h.once h.good;
      absent = put-absent (edge_key p co) c _ m h.absent;
    }

module _ (spans : List Span) where
  -- The counts of the edges, if `c` was there before the correlations `xs`.
  Counts : (String → ℕ) → List Correlation → Dict Edge → Type 0
  Counts c xs m =
      All (λ entry. entry.1.count ≡ c (edge_text entry.1) + tally spans (edge_text entry.1) xs) m

  no_more : (c : String → ℕ) (m : Dict Edge) → Good c m → Counts c [] m
  unfolding Counts tally
  no_more c m h = All-map (λ entry (t, n). n ∙ ap c (sym t) ∙ plus_zero (c (edge_text entry.1))) m h
    where
      plus_zero : (n : ℕ) → n ≡ n + 0
      plus_zero n = omega arith

  one_more :
      (c : String → ℕ) (x : Correlation) (xs : List Correlation) (p co : Span) (m : Dict Edge)
      → get_elem? spans x.producer_index ≡ some p
      → get_elem? spans x.consumer_index ≡ some co
      → Counts (bump (edge_key p co) c) xs m
      → Counts c (x ∷ xs) m
  unfolding Counts tally is_of
  one_more c x xs p co m ep ec h = All-map (λ entry n. step (edge_text entry.1) entry.1.count n) m h
    where
      step :
          (k : String) (n : ℕ)
          → n ≡ bump (edge_key p co) c k + tally spans k xs
          → n ≡ c k + tally spans k (x ∷ xs)
      step k n e = elim (Bool-cases (edge_key p co == k)) [
        | inl same ↦
            let here : (edge_text (edge_of p co) == k) ≡ true =
              rw (edge_key-edge_text p co) at same in
            rw (ep, ec, here, tally, is_of) (omega (arith, rw same at e))
        | inr other ↦
            let here : (edge_text (edge_of p co) == k) ≡ false =
              rw (edge_key-edge_text p co) at other in
            rw (ep, ec, here, tally, is_of) (rw other at e)
      ]

  count_edges-Counts :
      (xs : List Correlation) (c : String → ℕ) (m : Dict Edge) {m' : Dict Edge}
      → IsCounted c m
      → count_edges spans xs m ≡ some m'
      → Counts c xs m'
  unfolding count_edges
  count_edges-Counts [] c m h e = subst (Counts c []) (cc e) (no_more c m h.good)
  count_edges-Counts (x ∷ xs) c m {m'} h e =
      elim (Option-cases (get_elem? spans x.producer_index)) [
        | inl missing ↦ absurd (cc (rw (missing, count_edges) at e))
        | inr (p, ep) ↦ elim (Option-cases (get_elem? spans x.consumer_index)) [
          | inl missing ↦ absurd (cc (rw (ep, missing, count_edges) at e))
          | inr (co, ec) ↦ one_more c x xs p co m' ep ec (
              count_edges-Counts xs (bump (edge_key p co) c) (count_edge p co m)
                (count_edge-IsCounted p co c m h) (rw (ep, ec, count_edges) at e))
        ]
      ]

All-values : (P : Edge → Type 0) (m : Dict Edge) → All (λ entry. P entry.1) m → All P (values m)
All-values P [] h = tt
All-values P (entry ∷ m) h = (h.0, All-values P m h.1)

module _ (spans : List Span) (xs : List Correlation) where
  -- The edge counts all correlations of its text.
  abbrev pub IsWhole : Edge → Type 0
  IsWhole e = e.count ≡ tally spans (edge_text e) xs

  edges-IsWhole : {edges : List Edge} → build_topology spans xs ≡ some edges → All IsWhole edges
  unfolding build_topology Counts
  edges-IsWhole {edges} e = elim (Option-cases (count_edges spans xs [])) [
    | inl missing ↦ absurd (cc (rw (missing, build_topology) at e))
    | inr (m, counted) ↦
        let q : some (sort_edges (values m)) ≡ some edges = rw (counted, build_topology) at e in
        let start : IsCounted (λ k. 0) [] = record { once = tt; good = tt; absent = λ k g. refl } in
        let h : Counts spans (λ k. 0) xs m =
          count_edges-Counts spans xs (λ k. 0) [] start counted in
        let whole : All (λ (entry : String × Edge). IsWhole entry.1) m =
          All-map (λ entry n. n ∙ zero_plus (tally spans (edge_text entry.1) xs)) m h in
        subst (All IsWhole) (cc q) (All-sort_edges IsWhole (values m) (All-values IsWhole m whole))
  ]
    where
      zero_plus : (n : ℕ) → 0 + n ≡ n
      zero_plus n = omega arith

  -- The counts of the topology's edges add up to the number of correlations. Each edge is counted and is
  -- the edge of the producer and the consumer of one of the correlations, and its count is the number of
  -- the correlations whose two spans have an edge with the same ten texts, joined by zero bytes.
  pub build_topology-groups :
      {edges : List Edge}
      → build_topology spans xs ≡ some edges
      → (total edges ≡ length xs)
        × All (IsShown spans (λ x. (i : ℕ) × (get_elem? xs i ≡ some x))) edges
        × All IsWhole edges
  build_topology-groups e =
      let (sum, shown) = build_topology-total spans xs e in (sum, shown, edges-IsWhole e)

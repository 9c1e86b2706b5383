-- ===== src/Rules/EdgeCounts.antt =====
-- What buildTopology counts.
use async_trace_doctor.Common.{
  ℕ, suc, ◌+◌, ◌<◌, ◌≡◌, refl, String, Option, none, some, List, [], ◌∷◌, All, All-map, get_elem?,
  length, ◌>>=◌, ◌==◌, Bool-cases, inl, inr, arith, subst,
}
use async_trace_doctor.Common.Dict
use async_trace_doctor.Common.Dict.{Dict}
use async_trace_doctor.Model.{Span}
use async_trace_doctor.Correlation.{Correlation}
use async_trace_doctor.Rules.Topology.{Edge}
use async_trace_doctor.Rules.Edges.{
  edge_of, edge_key, found_or, count_edge, count_edges, edge_less, insert_edge, sort_edges, values,
  build_topology,
}

-- The sum of the counts of some edges.
unfoldable pub total : List Edge → ℕ
total [] = 0
total (e ∷ es) = e.count + total es

abbrev count_of : Option Edge → ℕ
count_of none = 0
count_of (some e) = e.count

total-insert_edge : (e : Edge) (es : List Edge) → total (insert_edge e es) ≡ e.count + total es
unfolding total insert_edge
total-insert_edge e [] = refl
total-insert_edge e (f ∷ fs) = elim (Bool-cases (edge_less e f)) [
  | inl here ↦ rw (here, insert_edge) refl
  | inr later ↦ rw (later, insert_edge) (omega (arith, total-insert_edge e fs))
]

total-sort_edges : (es : List Edge) → total (sort_edges es) ≡ total es
unfolding sort_edges total
total-sort_edges [] = refl
total-sort_edges (e ∷ es) = omega (arith, total-insert_edge e (sort_edges es), total-sort_edges es)

total-put :
    (k : String) (v : Edge) (m : Dict Edge)
    → total (values (Dict.put k v m)) + count_of (Dict.get k m) ≡ total (values m) + v.count
unfolding Dict.put Dict.get total
total-put k v [] = omega arith
total-put k v ((j, w) ∷ m) = elim (Bool-cases (j == k)) [
  | inl same ↦ rw (same, Dict.put, Dict.get) (omega arith)
  | inr other ↦ rw (other, Dict.put, Dict.get) (omega (arith, total-put k v m))
]

total-count_edge :
    (p co : Span) (m : Dict Edge) → total (values (count_edge p co m)) ≡ suc (total (values m))
unfolding count_edge
total-count_edge p co m = first (Dict.get (edge_key p co) m) refl
  where
    grown : Option Edge → Edge
    grown o = record (found_or o (edge_of p co)) { count = suc (found_or o (edge_of p co)).count }

    first :
        (o : Option Edge)
        → Dict.get (edge_key p co) m ≡ o
        → total (values (Dict.put (edge_key p co) (grown o) m)) ≡ suc (total (values m))
    first none h = omega (arith, rw h at (total-put (edge_key p co) (grown none) m))
    first (some e) h = omega (arith, rw h at (total-put (edge_key p co) (grown (some e)) m))

All-insert_edge :
    (P : Edge → Type 0) (e : Edge) (es : List Edge) → P e → All P es → All P (insert_edge e es)
unfolding insert_edge
All-insert_edge P e [] p h = (p, tt)
All-insert_edge P e (f ∷ fs) p h = elim (Bool-cases (edge_less e f)) [
  | inl here ↦ rw (here, insert_edge) (p, h)
  | inr later ↦ rw (later, insert_edge) (h.0, All-insert_edge P e fs p h.1)
]

pub All-sort_edges : (P : Edge → Type 0) (es : List Edge) → All P es → All P (sort_edges es)
unfolding sort_edges
All-sort_edges P [] h = tt
All-sort_edges P (e ∷ es) h = All-insert_edge P e (sort_edges es) h.0 (All-sort_edges P es h.1)

All-put :
    (P : Edge → Type 0) (k : String) (v : Edge) (m : Dict Edge)
    → P v
    → All P (values m)
    → All P (values (Dict.put k v m))
unfolding Dict.put
All-put P k v [] p h = (p, tt)
All-put P k v ((j, w) ∷ m) p h = elim (Bool-cases (j == k)) [
  | inl same ↦ rw (same, Dict.put) (p, h.1)
  | inr other ↦ rw (other, Dict.put) (h.0, All-put P k v m p h.1)
]

All-get :
    (P : Edge → Type 0) (k : String) (m : Dict Edge) {v : Edge}
    → All P (values m)
    → Dict.get k m ≡ some v
    → P v
unfolding Dict.get
All-get P k [] h e = absurd (cc e)
All-get P k ((j, w) ∷ m) {v} h e = elim (Bool-cases (j == k)) [
  | inl same ↦
      let p : some w ≡ some v = rw (same, Dict.get) at e in let q : w ≡ v = cc p in subst P q h.0
  | inr other ↦ All-get P k m h.1 (rw (other, Dict.get) at e)
]

module _ (spans : List Span) (M : Correlation → Type 0) where
  -- The edge is counted, and is that of the two spans of one of the correlations.
  pub record IsShown (e : Edge) : Type 0 where
    pub counted : 0 < e.count
    pub x : Correlation
    pub p : Span
    pub co : Span
    pub among : M x
    pub produced : get_elem? spans x.producer_index ≡ some p
    pub consumed : get_elem? spans x.consumer_index ≡ some co
    pub same : record e { count = 0 } ≡ edge_of p co

  IsShown-count_edge :
      (x : Correlation) (p co : Span) (m : Dict Edge)
      → M x
      → get_elem? spans x.producer_index ≡ some p
      → get_elem? spans x.consumer_index ≡ some co
      → All IsShown (values m)
      → All IsShown (values (count_edge p co m))
  unfolding count_edge
  IsShown-count_edge x p co m mx ep ec h =
      All-put IsShown (edge_key p co) _ m (first (Dict.get (edge_key p co) m) refl) h
    where
      first :
          (o : Option Edge)
          → Dict.get (edge_key p co) m ≡ o
          → IsShown
              (record (found_or o (edge_of p co)) { count = suc (found_or o (edge_of p co)).count })
      first none k = record {
        counted = omega arith;
        x = x;
        p = p;
        co = co;
        among = mx;
        produced = ep;
        consumed = ec;
        same = refl;
      }
      first (some e) k =
          let s : IsShown e = All-get IsShown (edge_key p co) m h k in
          record {
            counted = omega arith;
            x = s.x;
            p = s.p;
            co = s.co;
            among = s.among;
            produced = s.produced;
            consumed = s.consumed;
            same = s.same;
          }

  count_edges-total :
      (xs : List Correlation) (m : Dict Edge) {m' : Dict Edge}
      → All M xs
      → All IsShown (values m)
      → count_edges spans xs m ≡ some m'
      → (total (values m') ≡ total (values m) + length xs) × All IsShown (values m')
  unfolding count_edges
  count_edges-total [] m {m'} a h e =
      let q : m ≡ m' = cc e in
      subst (λ d. (total (values d) ≡ total (values m) + 0) × All IsShown (values d)) q
        (omega arith, h)
  count_edges-total (x ∷ xs) m {m'} a h e =
      first (get_elem? spans x.producer_index) refl (get_elem? spans x.consumer_index) refl e
        (λ m1 h1 k. count_edges-total xs m1 a.1 h1 k)
    where
      first :
          (o : Option Span)
          → get_elem? spans x.producer_index ≡ o
          → (o' : Option Span) → get_elem? spans x.consumer_index ≡ o'
          → (o >>= λ p. o' >>= λ co. count_edges spans xs (count_edge p co m)) ≡ some m'
          → ((m1 : Dict Edge)
              → All IsShown (values m1)
              → count_edges spans xs m1 ≡ some m'
              → (total (values m') ≡ total (values m1) + length xs) × All IsShown (values m'))
          → (total (values m') ≡ total (values m) + suc (length xs)) × All IsShown (values m')
      first none _ o' _ k again = absurd (cc k)
      first (some p) ep none _ k again = absurd (cc k)
      first (some p) ep (some co) ec k again =
          let (t, shown) = again (count_edge p co m) (IsShown-count_edge x p co m a.0 ep ec h) k in
          (omega (arith, t, total-count_edge p co m), shown)

module _ (spans : List Span) (xs : List Correlation) where
  places_all : (ys : List Correlation) → All (λ x. (i : ℕ) × (get_elem? ys i ≡ some x)) ys
  places_all [] = tt
  places_all (y ∷ ys) = ((0, refl), All-map (λ x (i, e). (suc i, e)) ys (places_all ys))

  -- The counts of the topology's edges add up to the number of correlations, and each edge is counted
  -- and is the edge of the producer and the consumer of one of the correlations.
  pub build_topology-total :
      {edges : List Edge}
      → build_topology spans xs ≡ some edges
      → (total edges ≡ length xs)
        × All (IsShown spans (λ x. (i : ℕ) × (get_elem? xs i ≡ some x))) edges
  unfolding build_topology total
  build_topology-total {edges} e = first (count_edges spans xs []) refl e
    where
      first :
          (o : Option (Dict Edge))
          → count_edges spans xs [] ≡ o
          → (o >>= λ m. some (sort_edges (values m))) ≡ some edges
          → (total edges ≡ length xs)
            × All (IsShown spans (λ x. (i : ℕ) × (get_elem? xs i ≡ some x))) edges
      first none k p = absurd (cc p)
      first (some m) k p =
          let q : sort_edges (values m) ≡ edges = cc p in
          let (t, shown) =
            count_edges-total spans (λ x. (i : ℕ) × (get_elem? xs i ≡ some x)) xs [] (places_all xs)
              tt k in
          subst
            (λ es.
              (total es ≡ length xs)
              × All (IsShown spans (λ x. (i : ℕ) × (get_elem? xs i ≡ some x))) es)
            q (omega (arith, t, total-sort_edges (values m)), All-sort_edges _ (values m) shown)

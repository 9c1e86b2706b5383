-- ===== src/Correlation/Indexes.antt =====
-- The maps that Correlate of internal/correlation/correlation.go builds over the producer spans, and the
-- list of consumer spans. A span is named by its position in the input.
use async_trace_doctor.Common.{
  ◌≡◌, ap, ◌∙◌, eq_iff, arith, ℕ, suc, String, Bool, not, Option, none, some, List, [], ◌∷◌, ◌++◌,
  get_elem?, ltb, nat_eq, ◌==◌, if◌then◌else◌,
}
use async_trace_doctor.Common.Dict
use async_trace_doctor.Common.Dict.{Dict}
use async_trace_doctor.Model.{
  Span, empty_span, is_before, is_producer, is_consumer, message_identity,
}
use async_trace_doctor.Correlation.Compatible.{route_lookup_key, context_key, message_key}

-- spans[i]; every position that the maps hold is one of the input.
unfoldable pub span_at : List Span → ℕ → Span
span_at spans i = elim (get_elem? spans i) [ none ↦ empty_span | some s ↦ s ]

-- m[k] of a map to slices: the nil slice for a missing key.
abbrev pub slice_of : Option (List ℕ) → List ℕ
slice_of none = []
slice_of (some l) = l

unfoldable pub positions : String → Dict (List ℕ) → List ℕ
unfolding Dict.get
positions k m = slice_of (Dict.get k m)

-- m[k] = append(m[k], i)
unfoldable pub push : String → ℕ → Dict (List ℕ) → Dict (List ℕ)
unfolding positions Dict.put
push k i m = Dict.put k (positions k m ++ i ∷ []) m

pub positions-push :
    (k j : String) (i : ℕ) (m : Dict (List ℕ))
    → positions k (push j i m) ≡ (if j == k then positions j m ++ i ∷ [] else positions k m)
unfolding positions push
positions-push k j i m =
    ap slice_of (Dict.get-put j k (positions j m ++ i ∷ []) m) ∙ ground (arith, eq_iff j k)

pub record Indexes : Type 0 where
  pub by_context : Dict (List ℕ)
  pub by_message : Dict (List ℕ)
  pub by_route : Dict (List ℕ)
  pub consumers : List ℕ

abbrev pub no_indexes : Indexes
no_indexes = record { by_context = []; by_message = []; by_route = []; consumers = [] }

unfoldable pub index_message : ℕ → Span → Indexes → Indexes
unfolding push route_lookup_key message_identity message_key
index_message i s m =
    if not ((message_identity s).1 == "")
    then record m {
      by_message = push (message_key (route_lookup_key s) (message_identity s).1) i m.by_message;
    }
    else m

unfoldable pub index_route : ℕ → Span → Indexes → Indexes
unfolding push route_lookup_key index_message
index_route i s m =
    if not (route_lookup_key s == "")
    then index_message i s (record m { by_route = push (route_lookup_key s) i m.by_route })
    else m

unfoldable pub index_producer : ℕ → Span → Indexes → Indexes
unfolding push index_route context_key
index_producer i s m =
    index_route i s
      (record m { by_context = push (context_key s.trace_id s.span_id) i m.by_context })

-- One round of the first loop of Correlate.
unfoldable pub index_span : ℕ → Span → Indexes → Indexes
unfolding index_producer is_producer is_consumer
index_span i s m =
    let m' = if is_producer s then index_producer i s m else m in
    if is_consumer s then record m' { consumers = m'.consumers ++ i ∷ [] } else m'

unfoldable pub index_from : ℕ → List Span → Indexes → Indexes
unfolding index_span
index_from i [] m = m
index_from i (s ∷ rest) m = index_from (suc i) rest (index_span i s m)

-- By the end of the span and then by position: no two positions compare equal, so sort.Slice has one
-- possible result.
route_before : List Span → ℕ → ℕ → Bool
unfolding span_at
route_before spans i j =
    let left = span_at spans i in
    let right = span_at spans j in
    if not (nat_eq left.end right.end) then is_before left.end right.end else ltb i j

unfoldable pub insert_route : List Span → ℕ → List ℕ → List ℕ
unfolding route_before
insert_route spans i [] = i ∷ []
insert_route spans i (j ∷ js) =
    if route_before spans i j then i ∷ j ∷ js else j ∷ insert_route spans i js

unfoldable pub sort_route : List Span → List ℕ → List ℕ
unfolding insert_route
sort_route spans [] = []
sort_route spans (i ∷ is) = insert_route spans i (sort_route spans is)

unfoldable pub sort_routes : List Span → Dict (List ℕ) → Dict (List ℕ)
unfolding sort_route
sort_routes spans [] = []
sort_routes spans ((k, l) ∷ m) = (k, sort_route spans l) ∷ sort_routes spans m

unfoldable pub build_indexes : List Span → Indexes
unfolding index_from sort_routes
build_indexes spans =
    let m = index_from 0 spans no_indexes in record m { by_route = sort_routes spans m.by_route }

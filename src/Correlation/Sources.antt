-- ===== src/Correlation/Sources.antt =====
-- What the maps of Correlate hold: under each key only producer spans that have that key.
use async_trace_doctor.Common.{
  ℕ, suc, ◌≡◌, refl, subst, inl, inr, String, true, some, List, [], ◌∷◌, ◌++◌, All, All-append,
  All-swap, length, length-append, get_elem?, ◌==◌, if◌then◌else◌, Bool-cases, eq_iff, arith,
}
use mathlib.Core.List.{append_assoc}
use async_trace_doctor.Common.Dict
use async_trace_doctor.Common.Dict.{Dict}
use async_trace_doctor.Model.{Span, is_producer, is_consumer, message_identity}
use async_trace_doctor.Correlation.Compatible.{route_lookup_key, context_key, message_key}
use async_trace_doctor.Correlation.Indexes.{
  span_at, positions, push, positions-push, Indexes, no_indexes, index_message, index_route,
  index_producer, index_span, index_from, insert_route, sort_route, sort_routes, build_indexes,
}

module _ (P : String → ℕ → Type 0) where
  -- Every position under a key satisfies the predicate of that key.
  abbrev pub Holds : Dict (List ℕ) → Type 0
  Holds m = (k : String) → All (P k) (positions k m)

  Holds-nil : Holds []
  unfolding positions Dict.get
  Holds-nil k = tt

  Holds-push : (j : String) (i : ℕ) (m : Dict (List ℕ)) → P j i → Holds m → Holds (push j i m)
  Holds-push j i m p h k = elim (Bool-cases (j == k)) [
    | inl same ↦
        rw (positions-push k j i m, same)
          (let e : j ≡ k = (eq_iff j k).0 same in
            subst (λ q. All (P q) (positions j m ++ i ∷ [])) e
              (All-append (P j) (positions j m) (i ∷ []) (h j) (p, tt)))
    | inr other ↦ rw (positions-push k j i m, other) (h k)
  ]

module _ (Q : ℕ → Type 0) where
  All-insert_route :
      (spans : List Span) (i : ℕ) (l : List ℕ) → Q i → All Q l → All Q (insert_route spans i l)
  unfolding insert_route
  All-insert_route spans i [] p h = (p, tt)
  All-insert_route spans i (j ∷ js) p h =
      All-swap Q _ i j js _ p h (All-insert_route spans i js p h.1)

  All-sort_route : (spans : List Span) (l : List ℕ) → All Q l → All Q (sort_route spans l)
  unfolding sort_route
  All-sort_route spans [] h = tt
  All-sort_route spans (i ∷ is) h =
      All-insert_route spans i (sort_route spans is) h.0 (All-sort_route spans is h.1)

positions-sort_routes :
    (k : String) (spans : List Span) (m : Dict (List ℕ))
    → positions k (sort_routes spans m) ≡ sort_route spans (positions k m)
unfolding positions sort_routes Dict.get
positions-sort_routes k spans [] = unfold sort_route in refl
positions-sort_routes k spans ((j, l) ∷ m) = elim (Bool-cases (j == k)) [
  | inl same ↦ rw same refl
  | inr other ↦ rw other (positions-sort_routes k spans m)
]

-- The spans of the input from a position on.
abbrev From : List Span → ℕ → List Span → Type 0
From spans i [] = Unit
From spans i (x ∷ xs) = (span_at spans i ≡ x) × From spans (suc i) xs

get_elem?-append :
    (pre : List Span) (x : Span) (xs : List Span) → get_elem? (pre ++ x ∷ xs) (length pre) ≡ some x
get_elem?-append [] x xs = refl
get_elem?-append (y ∷ ys) x xs = get_elem?-append ys x xs

From-append : (pre xs : List Span) → From (pre ++ xs) (length pre) xs
unfolding span_at
From-append pre [] = tt
From-append pre (x ∷ xs) =
    let n : length (pre ++ x ∷ []) ≡ suc (length pre) = omega (arith, length-append pre (x ∷ [])) in
    let e : (pre ++ x ∷ []) ++ xs ≡ pre ++ x ∷ xs = append_assoc pre (x ∷ []) xs in
    (
      rw (get_elem?-append pre x xs, span_at) refl,
      subst (λ w. From w (suc (length pre)) xs) e
          (subst (λ k. From ((pre ++ x ∷ []) ++ xs) k xs) n (From-append (pre ++ x ∷ []) xs)),
    )

module _ (spans : List Span) where
  abbrev pub HasContext : String → ℕ → Type 0
  HasContext k i =
      (is_producer (span_at spans i) ≡ true)
      × (context_key (span_at spans i).trace_id (span_at spans i).span_id ≡ k)

  abbrev pub HasRoute : String → ℕ → Type 0
  HasRoute k i = (is_producer (span_at spans i) ≡ true) × (route_lookup_key (span_at spans i) ≡ k)

  abbrev pub HasMessage : String → ℕ → Type 0
  HasMessage k i =
      (is_producer (span_at spans i) ≡ true)
      × (message_key (route_lookup_key (span_at spans i)) (message_identity (span_at spans i)).1
          ≡ k)

  -- What the maps and the list of consumers say is true of the spans.
  pub record IsAccurate (m : Indexes) : Type 0 where
    pub contexts : Holds HasContext m.by_context
    pub messages : Holds HasMessage m.by_message
    pub routes : Holds HasRoute m.by_route
    pub consuming : All (λ i. is_consumer (span_at spans i) ≡ true) m.consumers

  index_message-IsAccurate :
      (i : ℕ) (m : Indexes)
      → is_producer (span_at spans i) ≡ true
      → IsAccurate m
      → IsAccurate (index_message i (span_at spans i) m)
  unfolding index_message
  index_message-IsAccurate i m p h =
      elim (Bool-cases ((message_identity (span_at spans i)).1 == "")) [
        | inl absent ↦ rw absent h
        | inr present ↦ rw present (record {
          contexts = h.contexts;
          messages = Holds-push HasMessage _ i m.by_message (p, refl) h.messages;
          routes = h.routes;
          consuming = h.consuming;
        })
      ]

  index_route-IsAccurate :
      (i : ℕ) (m : Indexes)
      → is_producer (span_at spans i) ≡ true
      → IsAccurate m
      → IsAccurate (index_route i (span_at spans i) m)
  unfolding index_route
  index_route-IsAccurate i m p h = elim (Bool-cases (route_lookup_key (span_at spans i) == "")) [
    | inl absent ↦ rw absent h
    | inr present ↦ rw present (
        index_message-IsAccurate i _ p (record {
          contexts = h.contexts;
          messages = h.messages;
          routes = Holds-push HasRoute _ i m.by_route (p, refl) h.routes;
          consuming = h.consuming;
        }))
  ]

  index_producer-IsAccurate :
      (i : ℕ) (m : Indexes)
      → is_producer (span_at spans i) ≡ true
      → IsAccurate m
      → IsAccurate (index_producer i (span_at spans i) m)
  unfolding index_producer
  index_producer-IsAccurate i m p h = index_route-IsAccurate i _ p (record {
    contexts = Holds-push HasContext _ i m.by_context (p, refl) h.contexts;
    messages = h.messages;
    routes = h.routes;
    consuming = h.consuming;
  })

  add_consumer-IsAccurate :
      (i : ℕ) (m : Indexes)
      → IsAccurate m
      → IsAccurate (
          if is_consumer (span_at spans i)
          then record m { consumers = m.consumers ++ i ∷ [] }
          else m)
  add_consumer-IsAccurate i m h = elim (Bool-cases (is_consumer (span_at spans i))) [
    | inl so ↦ rw so (record {
      contexts = h.contexts;
      messages = h.messages;
      routes = h.routes;
      consuming = All-append _ m.consumers (i ∷ []) h.consuming (so, tt);
    })
    | inr other ↦ rw other h
  ]

  index_span-IsAccurate :
      (i : ℕ) (m : Indexes) → IsAccurate m → IsAccurate (index_span i (span_at spans i) m)
  unfolding index_span
  index_span-IsAccurate i m h = elim (Bool-cases (is_producer (span_at spans i))) [
    | inl so ↦ rw so (add_consumer-IsAccurate i _ (index_producer-IsAccurate i m so h))
    | inr other ↦ rw other (add_consumer-IsAccurate i m h)
  ]

  index_from-IsAccurate :
      (i : ℕ) (xs : List Span) (m : Indexes)
      → From spans i xs
      → IsAccurate m
      → IsAccurate (index_from i xs m)
  unfolding index_from
  index_from-IsAccurate i [] m f h = h
  index_from-IsAccurate i (x ∷ xs) m f h =
      index_from-IsAccurate (suc i) xs (index_span i x m) f.1
        (subst (λ s. IsAccurate (index_span i s m)) f.0 (index_span-IsAccurate i m h))

-- The maps of Correlate name producers only, each under its own context, route and identity, and the
-- list of consumers names consumers only.
pub build_indexes-IsAccurate : (spans : List Span) → IsAccurate spans (build_indexes spans)
unfolding build_indexes
build_indexes-IsAccurate spans =
    let h = index_from-IsAccurate spans 0 spans no_indexes (From-append [] spans) (record {
      contexts = Holds-nil (HasContext spans);
      messages = Holds-nil (HasMessage spans);
      routes = Holds-nil (HasRoute spans);
      consuming = tt;
    }) in
    record {
      contexts = h.contexts;
      messages = h.messages;
      routes = λ k.
          rw (positions-sort_routes k spans _)
            (All-sort_route (HasRoute spans k) spans _ (h.routes k));
      consuming = h.consuming;
    }

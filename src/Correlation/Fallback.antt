-- ===== src/Correlation/Fallback.antt =====
-- The fallbacks of Correlate, by message identity and by time: what they find is warranted.
use async_trace_doctor.Common.{
  ℕ, zero, suc, ◌≡◌, refl, subst, inl, inr, String, Bool, true, false, not, ◌&&◌, ◌||◌, Option,
  none, some, List, [], ◌∷◌, ◌++◌, All, All-append, All-swap, All-map, All-get_elem?, length,
  get_elem?, ltb, nat_eq, ◌==◌, &&-left, &&-right, Bool-cases, eq_iff,
}
use async_trace_doctor.Common.Int.{leb_ℤ, ltb_ℤ, ltb_ℤ_false→leb_ℤ}
use async_trace_doctor.Model.{Duration, Span, is_producer, message_identity}
use async_trace_doctor.Correlation.Compatible.{compatible, route_lookup_key, message_key, delta}
use async_trace_doctor.Correlation.Indexes.{span_at, Indexes}
use async_trace_doctor.Correlation.Nearest.{
  Candidate, insert_candidate, sort_candidates, is_eligible, Outcome, crash, stop, skip, take,
  delta_at, left_place, weigh, inspect, next_below, next_right, proceed, goes_on, max_capacity,
  nearest_loop, nearest_route_candidates,
}
use async_trace_doctor.Correlation.Defs.{identity_candidates, by_identity, by_time}
use async_trace_doctor.Correlation.Sources.{IsAccurate}
use async_trace_doctor.Correlation.Evidence.{IsNear, SharesIdentity}

module _ (spans : List Span) (window : Duration) where
  -- A candidate of either fallback.
  pub record IsCandidate (c : Span) (a : Candidate) : Type 0 where
    pub produces : is_producer (span_at spans a.index) ≡ true
    pub near : IsNear window (span_at spans a.index) c

  identity_candidates-All :
      (c : Span) (identity : String) (l : List ℕ)
      → All (λ pi. is_producer (span_at spans pi) ≡ true) l
      → All
          (λ a. IsCandidate c a × ((message_identity (span_at spans a.index)).1 ≡ identity))
          (identity_candidates spans c identity window l)
  unfolding identity_candidates
  identity_candidates-All c identity [] h = tt
  identity_candidates-All c identity (pi ∷ rest) h =
      let more = identity_candidates-All c identity rest h.1 in
      elim (Bool-cases (
        (message_identity (span_at spans pi)).1 == identity
        && compatible (span_at spans pi) c
        && leb_ℤ (delta (span_at spans pi) c) window)) [
          | inl passes ↦ rw passes (
            (
              record {
                produces = h.0;
                near = (&&-right _ _ (&&-left _ _ passes), &&-right _ _ passes);
              },
              (eq_iff _ identity).0 (&&-left _ _ (&&-left _ _ passes)),
            ),
            more,
          )
          | inr fails ↦ rw fails more
        ]

  All-insert_candidate :
      (Q : Candidate → Type 0) (a : Candidate) (l : List Candidate)
      → Q a
      → All Q l
      → All Q (insert_candidate a l)
  unfolding insert_candidate
  All-insert_candidate Q a [] q h = (q, tt)
  All-insert_candidate Q a (b ∷ bs) q h =
      All-swap Q _ a b bs _ q h (All-insert_candidate Q a bs q h.1)

  All-sort_candidates :
      (Q : Candidate → Type 0) (l : List Candidate) → All Q l → All Q (sort_candidates l)
  unfolding sort_candidates
  All-sort_candidates Q [] h = tt
  All-sort_candidates Q (a ∷ rest) h =
      All-insert_candidate Q a (sort_candidates rest) h.0 (All-sort_candidates Q rest h.1)

  -- The candidates by identity are near and share the consumer's identity.
  pub by_identity-All :
      (m : Indexes) (c : Span)
      → IsAccurate spans m
      → All
          (λ a. IsCandidate c a × SharesIdentity (span_at spans a.index) c)
          (by_identity spans m c window)
  unfolding by_identity
  by_identity-All m c h = elim (Bool-cases ((message_identity c).1 == "")) [
    | inl absent ↦ rw absent tt
    | inr present ↦ rw present (
        All-sort_candidates _ _ (
          All-map (λ a q. (q.0, (q.1, λ e. cc (present, (eq_iff (message_identity c).1 "").1 e)))) _
            (identity_candidates-All c (message_identity c).1 _ (
              All-map (λ pi q. q.0) _
                (h.messages (message_key (route_lookup_key c) (message_identity c).1))))))
  ]

  is_eligible-compatible : (p c : Span) → is_eligible p c ≡ true → compatible p c ≡ true
  unfolding is_eligible
  is_eligible-compatible p c h = either _ (compatible p c) h
    where
      either : (a b : Bool) → not (a || not b) ≡ true → b ≡ true
      either a true e = refl
      either true false e = e
      either false false e = e

  weigh-take :
      (Q : ℕ → Type 0) (c : Span) (dl dr : Duration) (left : Bool) (place : Option ℕ) {b : Bool}
      {a : Candidate}
      → ((pi : ℕ) → place ≡ some pi → Q pi)
      → weigh spans c window dl dr left place (delta_at spans c place) ≡ take b a
      → Q a.index × IsNear window (span_at spans a.index) c
  unfolding weigh delta_at
  weigh-take Q c dl dr left none q e = absurd (cc e)
  weigh-take Q c dl dr left (some pi) {b} {a} q e =
      elim (Bool-cases (ltb_ℤ window (delta (span_at spans pi) c))) [
        | inl far ↦ elim (Bool-cases (ltb_ℤ window dl && ltb_ℤ window dr)) [
          | inl both ↦ absurd (cc (rw (far, both) at e))
          | inr one ↦ absurd (cc (rw (far, one) at e))
        ]
        | inr near ↦ elim (Bool-cases (is_eligible (span_at spans pi) c)) [
          | inl fits ↦
              let p : take left (record { index = pi; distance = delta (span_at spans pi) c })
                  ≡ take b a =
                rw (near, fits) at e in
              let i : pi ≡ a.index = cc p in
              subst (λ k. Q k × IsNear window (span_at spans k) c) i
                (
                  q pi refl,
                  (
                    is_eligible-compatible _ _ fits,
                    ltb_ℤ_false→leb_ℤ window (delta (span_at spans pi) c) near,
                  ),
                )
          | inr unfit ↦ absurd (cc (rw (near, unfit) at e))
        ]
      ]

  inspect-take :
      (Q : ℕ → Type 0) (indices : List ℕ) (c : Span) (below right : ℕ) {b : Bool} {a : Candidate}
      → All Q indices
      → inspect indices spans c window below right ≡ take b a
      → Q a.index × IsNear window (span_at spans a.index) c
  unfolding inspect
  inspect-take Q indices c below right h e =
      elim (Bool-cases (
        leb_ℤ (delta_at spans c (left_place indices below))
          (delta_at spans c (get_elem? indices right)))) [
            | inl chosen ↦
                weigh-take Q c _ _ true (left_place indices below)
                  (λ pi p. at_left indices below h p) (rw chosen at e)
            | inr other ↦
                weigh-take Q c _ _ false (get_elem? indices right)
                  (λ pi p. All-get_elem? Q indices right h p) (rw other at e)
          ]
    where
      at_left : (l : List ℕ) (k : ℕ) {pi : ℕ} → All Q l → left_place l k ≡ some pi → Q pi
      at_left l zero q p = absurd (cc p)
      at_left l (suc k) q p = All-get_elem? Q l k q p

  -- A candidate that comes from the route and is near.
  abbrev pub IsFound : (ℕ → Type 0) → Span → Candidate → Type 0
  IsFound Q c a = Q a.index × IsNear window (span_at spans a.index) c

  proceed-All :
      (Q : ℕ → Type 0) (c : Span) (o : Outcome) (out : List Candidate)
      (again : Bool → List Candidate → Option (List Candidate)) {found : List Candidate}
      → ((b : Bool) (a : Candidate) → o ≡ take b a → IsFound Q c a)
      → ((b : Bool) (out' : List Candidate)
          → All (IsFound Q c) out'
          → again b out' ≡ some found
          → All (IsFound Q c) found)
      → All (IsFound Q c) out
      → proceed o out again ≡ some found
      → All (IsFound Q c) found
  proceed-All Q c crash out again taken ih h e = absurd (cc e)
  proceed-All Q c stop out again {found} taken ih h e =
      let p : out ≡ found = cc e in subst (All (IsFound Q c)) p h
  proceed-All Q c (skip left) out again taken ih h e = ih left out h e
  proceed-All Q c (take left a) out again taken ih h e =
      ih left (out ++ a ∷ []) (All-append _ out (a ∷ []) h (taken left a refl, tt)) e

  -- What the loop returns is near and comes from the route, like what it starts from.
  pub nearest_loop-All :
      (Q : ℕ → Type 0) (fuel : ℕ) (indices : List ℕ) (c : Span) (limit below right : ℕ)
      (out : List Candidate) {found : List Candidate}
      → All Q indices
      → All (IsFound Q c) out
      → nearest_loop fuel indices spans c window limit below right out ≡ some found
      → All (IsFound Q c) found
  unfolding nearest_loop
  nearest_loop-All Q zero indices c limit below right out {found} h o e =
      let p : out ≡ found = cc e in subst (All (IsFound Q c)) p o
  nearest_loop-All Q (suc fuel) indices c limit below right out {found} h o e =
      elim (Bool-cases (goes_on indices limit below right out)) [
        | inl on ↦
            proceed-All Q c (inspect indices spans c window below right) out _
              (λ b a t. inspect-take Q indices c below right h t)
              (λ b out' o' e'.
                nearest_loop-All Q fuel indices c limit (next_below b below) (next_right b right)
                  out' h o' e')
              o (rw (on, nearest_loop) at e)
        | inr over ↦
            let q : some out ≡ some found = rw (over, nearest_loop) at e in
            let p : out ≡ found = cc q in subst (All (IsFound Q c)) p o
      ]

  nearest_route_candidates-All :
      (Q : ℕ → Type 0) (indices : List ℕ) (c : Span) (limit : ℕ) {found : List Candidate}
      → All Q indices
      → nearest_route_candidates indices spans c window limit ≡ some found
      → All (IsFound Q c) found
  unfolding nearest_route_candidates
  nearest_route_candidates-All Q [] c limit {found} h e =
      let p : [] ≡ found = cc e in subst (All (IsFound Q c)) p tt
  nearest_route_candidates-All Q (i ∷ is) c limit {found} h e = elim (Bool-cases (nat_eq limit 0)) [
    | inl none_wanted ↦
        let q : some [] ≡ some found = rw none_wanted at e in
        let p : [] ≡ found = cc q in subst (All (IsFound Q c)) p tt
    | inr wanted ↦ elim (Bool-cases (ltb max_capacity limit)) [
      | inl huge ↦ absurd (cc (rw (wanted, huge) at e))
      | inr modest ↦
          nearest_loop-All Q (length (i ∷ is)) (i ∷ is) c limit _ _ [] h tt
            (rw (wanted, modest) at e)
    ]
  ]

  -- The candidates by time are near, too.
  pub by_time-All :
      (m : Indexes) (c : Span) {found : List Candidate}
      → IsAccurate spans m
      → by_time spans m c window ≡ some found
      → All (IsCandidate c) found
  unfolding by_time
  by_time-All m c h e =
      All-map (λ a q. record { produces = q.0; near = q.1 }) _
        (nearest_route_candidates-All (λ pi. is_producer (span_at spans pi) ≡ true) _ c _
          (All-map (λ pi q. q.0) _ (h.routes (route_lookup_key c))) e)

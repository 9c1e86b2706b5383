-- ===== src/Correlation/Returns.antt =====
-- The walk along a route returns: where the times of its spans are less than 2^63 - 1 nanoseconds from the
-- consumer, no round of it panics.
use async_trace_doctor.Common.{
  ℕ, zero, suc, ◌+◌, ◌≡◌, ◌≤◌, ◌<◌, refl, Bool, true, false, ◌&&◌, ◌||◌, Option, none, some, List,
  [], ◌∷◌, ◌++◌, All, All-get_elem?, length, get_elem?, ltb, if◌then◌else◌, ◌≢◌, &&-right, ◌/◌,
  Bool-cases, inl, inr, arith, Returns,
}
use async_trace_doctor.Common.Int.{leb_ℤ, ltb_ℤ, max_int64}
use async_trace_doctor.Model.{Duration, Span}
use async_trace_doctor.Correlation.Compatible.{delta}
use async_trace_doctor.Correlation.Indexes.{span_at}
use async_trace_doctor.Correlation.Nearest.{
  Candidate, search_from, delta_at, left_place, is_eligible, Outcome, crash, stop, skip, take,
  weigh, inspect, next_below, next_right, proceed, goes_on, nearest_loop,
}

pub search_from-le : (fuel : ℕ) (f : ℕ → Bool) (i j : ℕ) → i ≤ j → search_from fuel f i j ≤ j
unfolding search_from
search_from-le zero f i j h = h
search_from-le (suc fuel) f i j h = elim (Bool-cases (ltb i j)) [
  | inr over ↦ rw (over, search_from) h
  | inl on ↦
      let lo : i ≤ (i + j) / 2 = ground arith in
      let hi : (i + j) / 2 < j = ground arith in
      elim (Bool-cases (f ((i + j) / 2))) [
        | inl found ↦
            let k = search_from-le fuel f i ((i + j) / 2) lo in
            rw (on, found, search_from) (omega (arith, k))
        | inr missed ↦
            rw (on, missed, search_from) (search_from-le fuel f ((i + j) / 2 + 1) j (omega arith))
      ]
]

below_max : (d : Duration) → ltb_ℤ d max_int64 ≡ true → leb_ℤ max_int64 d ≡ false
below_max d h = ground arith

up_to_max : (d : Duration) → ltb_ℤ d max_int64 ≡ true → leb_ℤ d max_int64 ≡ true
up_to_max d h = ground arith

module _ (spans : List Span) (window : Duration) where
  abbrev pub IsClose : Span → ℕ → Type 0
  IsClose c pi = ltb_ℤ (delta (span_at spans pi) c) max_int64 ≡ true

  weigh-crash-free :
      (c : Span) (dl dr d : Duration) (left : Bool) (pi : ℕ)
      → weigh spans c window dl dr left (some pi) d ≢ crash
  unfolding weigh
  weigh-crash-free c dl dr d left pi =
      one_of (ltb_ℤ window d) (ltb_ℤ window dl && ltb_ℤ window dr)
        (is_eligible (span_at spans pi) c) (record { index = pi; distance = d })
    where
      one_of :
          (a b e : Bool) (x : Candidate)
          → (if a then (if b then stop else skip left) else if e then take left x else skip left)
            ≢ crash
      one_of true true e x p = cc p
      one_of true false e x p = cc p
      one_of false b true x p = cc p
      one_of false b false x p = cc p

  -- A round crashes on neither side where one of them has an element.
  sides-crash-free :
      (c : Span) (l r : Option ℕ)
      → ((pi : ℕ) → l ≡ some pi → IsClose c pi)
      → ((pi : ℕ) → r ≡ some pi → IsClose c pi)
      → (l ≡ none → r ≡ none → ⊥)
      → (if leb_ℤ (delta_at spans c l) (delta_at spans c r)
          then weigh spans c window
              (delta_at spans c l)
              (delta_at spans c r)
              true
              l
              (delta_at spans c l)
          else weigh spans c window
              (delta_at spans c l)
              (delta_at spans c r)
              false
              r
              (delta_at spans c r))
        ≢ crash
  unfolding delta_at
  sides-crash-free c none none hl hr some_side = absurd (some_side refl refl)
  sides-crash-free c none (some q) hl hr some_side =
      let e = below_max (delta (span_at spans q) c) (hr q refl) in
      rw e (weigh-crash-free c _ _ _ false q)
  sides-crash-free c (some p) none hl hr some_side =
      let e = up_to_max (delta (span_at spans p) c) (hl p refl) in
      rw e (weigh-crash-free c _ _ _ true p)
  sides-crash-free c (some p) (some q) hl hr some_side =
      elim (Bool-cases (leb_ℤ (delta (span_at spans p) c) (delta (span_at spans q) c))) [
        | inl left ↦ rw left (weigh-crash-free c _ _ _ true p)
        | inr right ↦ rw right (weigh-crash-free c _ _ _ false q)
      ]

  inspect-crash-free :
      (c : Span) (indices : List ℕ) (below right : ℕ)
      → All (IsClose c) indices
      → below ≤ length indices
      → (ltb 0 below || ltb right (length indices)) ≡ true
      → inspect indices spans c window below right ≢ crash
  unfolding inspect
  inspect-crash-free c indices below right h b on =
      sides-crash-free c (left_place indices below) (get_elem? indices right)
        (λ pi e. left_close below pi e) (λ pi e. All-get_elem? (IsClose c) indices right h e)
        (λ l r. off below l r b on)
    where
      left_close : (k pi : ℕ) → left_place indices k ≡ some pi → IsClose c pi
      left_close zero pi e = absurd (cc e)
      left_close (suc k) pi e = All-get_elem? (IsClose c) indices k h e

      past : (xs : List ℕ) (k : ℕ) → get_elem? xs k ≡ none → length xs ≤ k
      past [] k e = omega arith
      past (x ∷ xs) zero e = absurd (cc e)
      past (x ∷ xs) (suc k) e = omega (arith, past xs k e)

      off :
          (k : ℕ)
          → left_place indices k ≡ none
          → get_elem? indices right ≡ none
          → k ≤ length indices
          → (ltb 0 k || ltb right (length indices)) ≡ true
          → ⊥
      off zero l r b on = let p = past indices right r in ground arith
      off (suc k) l r b on = let p = past indices k l in omega arith

  pub nearest_loop-Returns :
      (fuel : ℕ) (c : Span) (indices : List ℕ) (limit below right : ℕ) (out : List Candidate)
      → All (IsClose c) indices
      → below ≤ length indices
      → Returns (nearest_loop fuel indices spans c window limit below right out)
  unfolding nearest_loop
  nearest_loop-Returns zero c indices limit below right out h b = (out, refl)
  nearest_loop-Returns (suc fuel) c indices limit below right out h b =
      elim (Bool-cases (goes_on indices limit below right out)) [
        | inr over ↦ (out, rw (over, nearest_loop) refl)
        | inl on ↦
            rw (on, nearest_loop)
              (goes (inspect indices spans c window below right) _
                (inspect-crash-free c indices below right h b (&&-right _ _ on))
                (λ left out'.
                  nearest_loop-Returns fuel c indices limit (next_below left below)
                    (next_right left right) out' h (shrunk left)))
      ]
    where
      shrunk : (left : Bool) → next_below left below ≤ length indices
      shrunk true = omega arith
      shrunk false = b

      goes :
          (o : Outcome) (again : Bool → List Candidate → Option (List Candidate))
          → o ≢ crash
          → ((left : Bool) (out' : List Candidate) → Returns (again left out'))
          → Returns (proceed o out again)
      goes crash again n k = absurd (n refl)
      goes stop again n k = (out, refl)
      goes (skip left) again n k = k left out
      goes (take left a) again n k = k left (out ++ a ∷ [])

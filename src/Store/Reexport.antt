-- ===== src/Store/Reexport.antt =====
-- An exporter that sends a batch again: the identical exports are recognised and change nothing.
use async_trace_doctor.Common.{
  ℕ, suc, ◌+◌, ◌≤◌, ◌≡◌, refl, sym, ◌∙◌, ap, ◌≢◌, inl, inr, String, Bool, true, false, none, some,
  List, [], ◌∷◌, ◌++◌, All, All-append, length, ◌==◌, Bool-cases, Option-cases, eq_iff, ne→==_false,
  arith,
}
use async_trace_doctor.Model.{Time, Span}
use async_trace_doctor.Store.Digest.{span_identity, has_nan, deep_equal}
use async_trace_doctor.Store.Defs.{
  Store, AddResult, Verdict, stale, duplicate, admitted, zero_result, is_expired, add,
}
use async_trace_doctor.Store.Lookup.{find_span, deep_equal_iff}
use async_trace_doctor.Store.Invariant.{IsSound}
use async_trace_doctor.Store.Admission.{
  Limits, limits, known, room, ruling, keep, tally, receive, live, add-eq-receive,
}
use async_trace_doctor.Store.Accounting.{add-receive}

rejected-tally-le : (v : Verdict) (r : AddResult) → r.rejected ≤ (tally v r).rejected
rejected-tally-le stale r = omega arith
rejected-tally-le _ r = omega arith

rejected-receive-le :
    (now : Time) (l : Limits) (batch xs : List Span) (r : AddResult)
    → r.rejected ≤ (receive now l batch xs r).1.rejected
unfolding receive
rejected-receive-le now l [] xs r = omega arith
rejected-receive-le now l (span ∷ rest) xs r =
    let v : Verdict = ruling now l xs span in
    omega
      (arith, rejected-tally-le v r, rejected-receive-le now l rest (keep v span xs) (tally v r))

find_span-append :
    (id : String) (xs ys : List Span) {y : Span}
    → find_span id xs ≡ some y
    → find_span id (xs ++ ys) ≡ some y
unfolding find_span
find_span-append id [] ys h = cc
find_span-append id (x ∷ xs) ys h = elim (Bool-cases (span_identity x == id)) [
  | inl same ↦ rw same (rw same at h)
  | inr other ↦ rw other (find_span-append id xs ys (rw other at h))
]

find_span-append_self :
    (xs : List Span) (x : Span)
    → find_span (span_identity x) xs ≡ none
    → find_span (span_identity x) (xs ++ x ∷ []) ≡ some x
unfolding find_span
find_span-append_self [] x h = rw ((eq_iff (span_identity x) (span_identity x)).1 refl) refl
find_span-append_self (y ∷ ys) x h = elim (Bool-cases (span_identity y == span_identity x)) [
  | inl same ↦ cc (rw same at h)
  | inr other ↦ rw other (find_span-append_self ys x (rw other at h))
]

known-keep :
    (v : Verdict) (span x : Span) (xs : List Span) {y : Span}
    → span_identity x ≢ ""
    → known xs x ≡ some y
    → known (keep v span xs) x ≡ some y
known-keep admitted span x xs n h =
    rw (ne→==_false _ _ n) (find_span-append _ xs (span ∷ []) (rw (ne→==_false _ _ n) at h))
known-keep _ span x xs n h = h

-- A retained span stays retained throughout a batch.
known-receive :
    (now : Time) (l : Limits) (batch xs : List Span) (r : AddResult) (x : Span) {y : Span}
    → span_identity x ≢ ""
    → known xs x ≡ some y
    → known (receive now l batch xs r).0 x ≡ some y
unfolding receive
known-receive now l [] xs r x n h = h
known-receive now l (span ∷ rest) xs r x n h =
    let v = ruling now l xs span in
    known-receive now l rest (keep v span xs) (tally v r) x n (known-keep v span x xs n h)

-- What is retained, unexpired and equal to the span that arrives.
abbrev IsHeld : Time → Limits → List Span → Span → Type 0
IsHeld now l xs x = (known xs x ≡ some x) × (is_expired now l.ttl x ≡ false)

is_admitted : Verdict → Bool
is_admitted admitted = true
is_admitted _ = false

admitted_of : (v : Verdict) → is_admitted v ≡ true → v ≡ admitted
unfolding is_admitted
admitted_of v e = ground arith

room_refused :
    (l : Limits) (xs : List Span) (span : Span) (r : AddResult)
    → is_admitted (room l xs span) ≡ false
    → (tally (room l xs span) r).rejected ≡ r.rejected + 1
unfolding is_admitted
room_refused l xs span r e = ground arith

-- A span that is not rejected is held afterwards.
IsHeld-after_ruling :
    (now : Time) (l : Limits) (xs : List Span) (span : Span) (r : AddResult)
    → span_identity span ≢ ""
    → (tally (ruling now l xs span) r).rejected ≤ r.rejected
    → IsHeld now l (keep (ruling now l xs span) span xs) span
IsHeld-after_ruling now l xs span r n h = elim (Bool-cases (is_expired now l.ttl span)) [
  | inl old ↦ let bad : r.rejected + 1 ≤ r.rejected = rw old at h in absurd (omega arith)
  | inr fresh ↦ elim (Option-cases (find_span (span_identity span) xs)) [
    | inl missing ↦ elim (Bool-cases (is_admitted (room l xs span))) [
      | inl fits ↦
          let a : room l xs span ≡ admitted = admitted_of (room l xs span) fits in
          rw (fresh, ne→==_false _ _ n, missing, a) (find_span-append_self xs span missing, refl)
      | inr full ↦
          let bad : (tally (room l xs span) r).rejected ≤ r.rejected =
            rw (fresh, ne→==_false _ _ n, missing) at h in
          absurd (omega (arith, room_refused l xs span r full))
    ]
    | inr (old, found) ↦ elim (Bool-cases (deep_equal old span)) [
      | inl equal ↦
          let p : old ≡ span = ((deep_equal_iff old span).0 equal).0 in
          rw (fresh, ne→==_false _ _ n, found, equal) (found ∙ ap some p, refl)
      | inr differ ↦
          let bad : r.rejected + 1 ≤ r.rejected =
            rw (fresh, ne→==_false _ _ n, found, differ) at h in
          absurd (omega arith)
    ]
  ]
]

-- Every span of a batch without rejections is held after the batch.
IsHeld-after :
    (now : Time) (l : Limits) (batch xs : List Span) (r : AddResult)
    → All (λ x. span_identity x ≢ "") batch
    → (receive now l batch xs r).1.rejected ≤ r.rejected
    → All (IsHeld now l (receive now l batch xs r).0) batch
unfolding receive
IsHeld-after now l [] xs r n h = tt
IsHeld-after now l (span ∷ rest) xs r n h =
    let v : Verdict = ruling now l xs span in
    let mono : (tally v r).rejected ≤ (receive now l rest (keep v span xs) (tally v r)).1.rejected =
      rejected-receive-le now l rest (keep v span xs) (tally v r) in
    let (held, fresh) = IsHeld-after_ruling now l xs span r n.0 (omega arith) in
    (
      (known-receive now l rest (keep v span xs) (tally v r) span n.0 held, fresh),
      IsHeld-after now l rest (keep v span xs) (tally v r) n.1
          (omega (arith, rejected-tally-le v r)),
    )

-- A batch of held spans is a batch of duplicate exports.
receive_held :
    (now : Time) (l : Limits) (batch xs : List Span) (r : AddResult)
    → All (λ x. span_identity x ≢ "") batch
    → All (λ x. has_nan x ≡ false) batch
    → All (IsHeld now l xs) batch
    → receive now l batch xs r
      ≡ (xs, record r { duplicate_exports = r.duplicate_exports + length batch })
unfolding receive
receive_held now l [] xs r n f h =
    let z : r.duplicate_exports + 0 ≡ r.duplicate_exports = omega arith in rw z refl
receive_held now l (span ∷ rest) xs r n f h =
    let k : find_span (span_identity span) xs ≡ some span = rw (ne→==_false _ _ n.0) at h.0.0 in
    let e : deep_equal span span ≡ true = (deep_equal_iff span span).1 (refl, f.0) in
    let v : ruling now l xs span ≡ duplicate = rw (h.0.1, ne→==_false _ _ n.0, k, e) refl in
    let z : r.duplicate_exports + 1 + length rest ≡ r.duplicate_exports + suc (length rest) =
      omega arith in
    (λ i. receive now l rest (keep (v i) span xs) (tally (v i) r))
    ∙ receive_held now l rest xs (tally duplicate r) n.1 f.1 h.1
    ∙ (λ i. (xs, record r { duplicate_exports = z i }))

abbrev IsLive : Time → ℕ → Span → Type 0
IsLive now ttl x = is_expired now ttl x ≡ false

live-IsLive : (now : Time) (ttl : ℕ) (xs : List Span) → All (IsLive now ttl) (live now ttl xs)
live-IsLive now ttl [] = tt
live-IsLive now ttl (x ∷ xs) = elim (Bool-cases (is_expired now ttl x)) [
  | inl old ↦ rw old (live-IsLive now ttl xs)
  | inr fresh ↦ rw fresh (fresh, live-IsLive now ttl xs)
]

live_of_IsLive :
    (now : Time) (ttl : ℕ) (xs : List Span) → All (IsLive now ttl) xs → live now ttl xs ≡ xs
live_of_IsLive now ttl [] h = refl
live_of_IsLive now ttl (x ∷ xs) h = rw h.0 (ap (◌∷◌ x) (live_of_IsLive now ttl xs h.1))

keep-IsLive :
    (now : Time) (l : Limits) (xs : List Span) (span : Span) (v : Verdict)
    → ruling now l xs span ≡ v
    → All (IsLive now l.ttl) xs
    → All (IsLive now l.ttl) (keep v span xs)
keep-IsLive now l xs span admitted e h =
    All-append _ xs (span ∷ []) h (elim (Bool-cases (is_expired now l.ttl span)) [
      | inl old ↦ cc (rw old at e)
      | inr fresh ↦ (fresh, tt)
    ])
keep-IsLive now l xs span _ e h = h

receive-IsLive :
    (now : Time) (l : Limits) (batch xs : List Span) (r : AddResult)
    → All (IsLive now l.ttl) xs
    → All (IsLive now l.ttl) (receive now l batch xs r).0
unfolding receive
receive-IsLive now l [] xs r h = h
receive-IsLive now l (span ∷ rest) xs r h =
    let v = ruling now l xs span in
    receive-IsLive now l rest (keep v span xs) (tally v r) (keep-IsLive now l xs span v refl h)

-- A batch of identified spans without a NaN in their attributes that was taken without a rejection may be exported again at once: every
-- span then counts as a duplicate export, nothing is accepted or rejected, and the retained spans stay
-- as they are.
pub add_again :
    (now : Time) (batch : List Span) (s : Store) {s' : Store} {r : AddResult}
    → IsSound s
    → add now batch s ≡ some (s', r)
    → r.rejected ≡ 0
    → All (λ x. span_identity x ≢ "") batch
    → All (λ x. has_nan x ≡ false) batch
    → (t : Store) × (add now batch s'
        ≡ some (t, record zero_result { duplicate_exports = length batch }))
      × (t.spans ≡ s'.spans)
add_again now batch s {s'} {r} h e clean named finite =
    let out : List Span × AddResult =
      receive now (limits s) batch (live now s.ttl s.spans) zero_result in
    let (sound, same, lim) = add-receive now batch s h e in
    let (t, q, p, _, again, _) = add-eq-receive now batch s' sound in
    let spans_eq : s'.spans ≡ out.0 = ap (λ (w : List Span × AddResult). w.0) same in
    let counts_eq : r.rejected ≡ out.1.rejected =
      ap (λ (w : List Span × AddResult). w.1.rejected) same in
    let held : All (IsHeld now (limits s) out.0) batch =
      IsHeld-after now (limits s) batch (live now s.ttl s.spans) zero_result named
        (omega (arith, counts_eq, clean)) in
    let all_live : All (IsLive now s.ttl) out.0 =
      receive-IsLive now (limits s) batch (live now s.ttl s.spans) zero_result
        (live-IsLive now s.ttl s.spans) in
    let stays : live now s'.ttl s'.spans ≡ out.0 =
      (λ i. live now (lim i).ttl (spans_eq i)) ∙ live_of_IsLive now s.ttl out.0 all_live in
    let result : (t.spans, q) ≡ (out.0, record zero_result { duplicate_exports = length batch }) =
      again
      ∙ (λ i. receive now (lim i) batch (stays i) zero_result)
      ∙ receive_held now (limits s) batch out.0 zero_result named finite held
      ∙ (λ i. (out.0, record zero_result { duplicate_exports = zero_add (length batch) i })) in
    (
      t,
      p ∙ ap (λ (w : List Span × AddResult). some (t, w.1)) result,
      ap (λ (w : List Span × AddResult). w.0) result ∙ sym spans_eq,
    )
  where
    zero_add : (n : ℕ) → 0 + n ≡ n
    zero_add n = omega arith

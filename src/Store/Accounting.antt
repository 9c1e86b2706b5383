-- ===== src/Store/Accounting.antt =====
-- What the counts of an Add say of its batch, and that a batch exported again changes nothing.
use async_trace_doctor.Common.{
  ℕ, suc, ◌+◌, ◌≤◌, ◌≡◌, sym, ◌∙◌, ap, subst, some, List, [], ◌∷◌, length, length-append, arith,
}
use async_trace_doctor.Model.{Time, Span}
use async_trace_doctor.Store.Defs.{Store, AddResult, Verdict, admitted, zero_result, add}
use async_trace_doctor.Store.Invariant.{IsSound}
use async_trace_doctor.Store.Admission.{
  Limits, limits, ruling, keep, tally, receive, live, add-eq-receive,
}

-- Each span of a batch is counted once, and only the accepted ones are retained.
record Accounts (n : ℕ) (xs : List Span) (r : AddResult) (st : List Span × AddResult) : Type 0 where
  counted :
      st.1.accepted + st.1.rejected + st.1.duplicate_exports
      ≡ r.accepted + r.rejected + r.duplicate_exports + n
  retained : length st.0 + r.accepted ≡ length xs + st.1.accepted
  reasons :
      st.1.conflicting_duplicates + st.1.rejected_memory + r.rejected
      ≤ r.conflicting_duplicates + r.rejected_memory + st.1.rejected

Accounts-tally :
    (v : Verdict) (span : Span) (n : ℕ) (xs : List Span) (r : AddResult)
    (st : List Span × AddResult)
    → Accounts n (keep v span xs) (tally v r) st
    → Accounts (suc n) xs r st
Accounts-tally admitted span n xs r st h = record {
  counted = omega (arith, h.counted);
  retained = omega (arith, h.retained, length-append xs (span ∷ []));
  reasons = omega (arith, h.reasons);
}
Accounts-tally _ span n xs r st h = record {
  counted = omega (arith, h.counted);
  retained = omega (arith, h.retained);
  reasons = omega (arith, h.reasons);
}

receive-Accounts :
    (now : Time) (l : Limits) (batch xs : List Span) (r : AddResult)
    → Accounts (length batch) xs r (receive now l batch xs r)
unfolding receive
receive-Accounts now l [] xs r = record {
  counted = omega arith;
  retained = omega arith;
  reasons = omega arith;
}
receive-Accounts now l (span ∷ rest) xs r =
    let v = ruling now l xs span in
    Accounts-tally v span (length rest) xs r _
      (receive-Accounts now l rest (keep v span xs) (tally v r))

-- What a finished Add is, from its equation.
pub add-receive :
    (now : Time) (batch : List Span) (s : Store) {s' : Store} {r : AddResult}
    → IsSound s
    → add now batch s ≡ some (s', r)
    → IsSound s'
      × ((s'.spans, r) ≡ receive now (limits s) batch (live now s.ttl s.spans) zero_result)
      × (limits s' ≡ limits s)
add-receive now batch s {s'} {r} h e =
    let (t, q, p, sound, same, lim) = add-eq-receive now batch s h in
    let z : (t, q) ≡ (s', r) = cc (p, e) in
    (
      subst (λ (w : Store × AddResult). IsSound w.0) z sound,
      sym (ap (λ (w : Store × AddResult). (w.0.spans, w.1)) z) ∙ same,
      sym (ap (λ (w : Store × AddResult). limits w.0) z) ∙ lim,
    )

-- Every span of a batch is accepted, rejected or a duplicate export, and exactly one of these; the
-- store grows by the accepted ones; conflicts and refusals for memory are among the rejected.
pub add_accounts :
    (now : Time) (batch : List Span) (s : Store) {s' : Store} {r : AddResult}
    → IsSound s
    → add now batch s ≡ some (s', r)
    → (r.accepted + r.rejected + r.duplicate_exports ≡ length batch)
      × (length s'.spans ≡ length (live now s.ttl s.spans) + r.accepted)
      × (r.conflicting_duplicates + r.rejected_memory ≤ r.rejected)
add_accounts now batch s {s'} {r} h e =
    let xs : List Span = live now s.ttl s.spans in
    let (_, same, _) = add-receive now batch s h e in
    let a : Accounts (length batch) xs zero_result (s'.spans, r) =
      subst (Accounts (length batch) xs zero_result) (sym same)
        (receive-Accounts now (limits s) batch xs zero_result) in
    (omega (arith, a.counted), omega (arith, a.retained), omega (arith, a.reasons))

-- ===== src/Service/Violations.antt =====
-- Which findings of a report the counter of violations counts.
use mathlib.Core.List.{append_assoc}
use async_trace_doctor.Common.{
  ◌++◌, subst, ℕ, ◌+◌, ◌≡◌, refl, ap, String, Bool, true, false, not, ◌&&◌, ◌||◌, List, [], ◌∷◌,
  map, length, filter_by, ◌==◌, Bool-cases, inl, inr, eq_iff, arith, any,
}
use async_trace_doctor.Config.{contains}
use async_trace_doctor.Rules.{Finding, fingerprint, Report}
use async_trace_doctor.Service.Observe.{
  Labelled, add_to, ReportMetrics, count_violation, count_violations, observe,
}

-- The sum over all labels.
unfoldable pub sum_of : Labelled → ℕ
sum_of [] = 0
sum_of ((label, n) ∷ rest) = n + sum_of rest

-- The finding's fingerprint is none of some.
unfoldable pub is_new : List String → Finding → Bool
unfolding contains fingerprint
is_new active f = not (contains active (fingerprint f))

sum_of-add_to : (r s : String) (n : ℕ) (v : Labelled) → sum_of (add_to r s n v) ≡ sum_of v + n
unfolding sum_of add_to
sum_of-add_to r s n [] = omega arith
sum_of-add_to r s n (((r', s'), k) ∷ rest) = elim (Bool-cases (r' == r && s' == s)) [
  | inl same ↦ rw (same, add_to) (omega arith)
  | inr other ↦ rw (other, add_to) (omega (arith, sum_of-add_to r s n rest))
]

count_violations-sum :
    (active : List String) (fs : List Finding) (m : ReportMetrics)
    → sum_of (count_violations active fs m).violations
      ≡ sum_of m.violations + length (filter_by (is_new active) fs)
unfolding count_violations count_violation is_new
count_violations-sum active [] m = omega arith
count_violations-sum active (f ∷ fs) m = elim (Bool-cases (contains active (fingerprint f))) [
  | inl seen ↦ rw (seen, count_violations) (count_violations-sum active fs m)
  | inr new ↦
      rw (new, count_violations)
        (omega (
          arith,
          count_violations-sum active fs (count_violation f m),
          sum_of-add_to f.rule_id f.severity 1 m.violations,
        ))
]

-- A report whose findings all have a fingerprint that is active counts none of them.
AllSeen : List String → List Finding → Type 0
AllSeen active [] = Unit
AllSeen active (f ∷ fs) = (contains active (fingerprint f) ≡ true) × AllSeen active fs

count_violations-seen :
    (active : List String) (fs : List Finding) (m : ReportMetrics)
    → AllSeen active fs
    → count_violations active fs m ≡ m
unfolding count_violations AllSeen
count_violations-seen active [] m h = refl
count_violations-seen active (f ∷ fs) m h =
    let seen = h.0 in rw (seen, count_violations) (count_violations-seen active fs m h.1)

own_fingerprints :
    (earlier : List String) (fs : List Finding) → AllSeen (earlier ++ map fingerprint fs) fs
unfolding AllSeen contains
own_fingerprints earlier [] = tt
own_fingerprints earlier (f ∷ fs) = (
  found earlier,
  subst (λ l. AllSeen l fs) (append_assoc earlier (fingerprint f ∷ []) (map fingerprint fs))
      (own_fingerprints (earlier ++ fingerprint f ∷ []) fs),
)
  where
    found :
        (es : List String)
        → any (λ v. v == fingerprint f) (es ++ fingerprint f ∷ map fingerprint fs) ≡ true
    found [] = let e : (fingerprint f == fingerprint f) ≡ true = (eq_iff _ _).1 refl in rw e refl
    found (x ∷ es) = or_true (x == fingerprint f) _ (found es)
      where
        or_true : (a b : Bool) → b ≡ true → (a || b) ≡ true
        or_true true b h = refl
        or_true false b h = h

-- Observing a report adds to the violations, over all labels, the number of its findings whose
-- fingerprint was not in the report observed before; observing it once more adds none, and none to the
-- counters of broken links and orphans.
pub observe-violations :
    (r : Report) (m : ReportMetrics)
    → (sum_of (observe r m).violations
        ≡ sum_of m.violations + length (filter_by (is_new m.active_fingerprints) r.findings))
      × ((observe r (observe r m)).violations ≡ (observe r m).violations)
      × ((observe r (observe r m)).broken ≡ (observe r m).broken)
      × ((observe r (observe r m)).orphan_producers ≡ (observe r m).orphan_producers)
      × ((observe r (observe r m)).orphan_consumers ≡ (observe r m).orphan_consumers)
unfolding observe
observe-violations r m =
    let e : count_violations (map fingerprint r.findings) r.findings (observe r m) ≡ observe r m =
      count_violations-seen (map fingerprint r.findings) r.findings (observe r m)
        (own_fingerprints [] r.findings) in
    (
      count_violations-sum m.active_fingerprints r.findings m,
      ap (λ (x : ReportMetrics). x.violations) e,
      ap (λ (x : ReportMetrics). x.broken) e,
      ap (λ (x : ReportMetrics). x.orphan_producers) e,
      ap (λ (x : ReportMetrics). x.orphan_consumers) e,
    )

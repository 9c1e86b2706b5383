-- ===== src/Service/Observe.antt =====
-- Observe of internal/server/metrics.go: what the metrics take from a report. A vector of counters or
-- gauges is a list of its labels and their values.
use Prim.Native.Char.{code}
use Prim.Native.String.{◌++◌}
use async_trace_doctor.Common.{
  ℕ, suc, ◌+◌, String, not, ◌&&◌, Option, none, some, List, [], ◌∷◌, ◌++◌ as append, map, filter_by,
  nat_eq, ◌==◌, if◌then◌else◌,
}
use async_trace_doctor.Common.Int.{pos, leb_ℤ}
use async_trace_doctor.Common.Dict
use async_trace_doctor.Common.Dict.{Dict}
use async_trace_doctor.Common.Texts.{before}
use async_trace_doctor.Model.{Duration}
use async_trace_doctor.Config.{Rule, contains}
use async_trace_doctor.Rules.{Finding, fingerprint, Report}

abbrev pub Labelled : Type 0
Labelled = List ((String × String) × ℕ)

-- v.WithLabelValues(rule, severity).Add(n)
unfoldable pub add_to : String → String → ℕ → Labelled → Labelled
add_to r s n [] = ((r, s), n) ∷ []
add_to r s n (((r', s'), k) ∷ rest) =
    let later = add_to r s n rest in
    if r' == r && s' == s then ((r', s'), k + n) ∷ rest else ((r', s'), k) ∷ later

-- v.WithLabelValues(rule, severity).Set(n)
unfoldable pub set_to : String → String → ℕ → Labelled → Labelled
set_to r s n [] = ((r, s), n) ∷ []
set_to r s n (((r', s'), k) ∷ rest) =
    let later = set_to r s n rest in
    if r' == r && s' == s then ((r', s'), n) ∷ rest else ((r', s'), k) ∷ later

-- The ratio is a quotient, as in the summary; a sample stands for its seconds.
pub record ReportMetrics : Type 0 where
  pub violations : Labelled
  pub broken : ℕ
  pub orphan_producers : ℕ
  pub orphan_consumers : ℕ
  pub completeness : ℕ × ℕ
  pub queue_latency : List Duration
  pub audit_runs : ℕ
  pub active_findings : Labelled
  pub active_fingerprints : List String

abbrev pub no_metrics : ReportMetrics
no_metrics = record {
  violations = [];
  broken = 0;
  orphan_producers = 0;
  orphan_consumers = 0;
  completeness = (0, 1);
  queue_latency = [];
  audit_runs = 0;
  active_findings = [];
  active_fingerprints = [];
}

-- A violation with a new fingerprint is counted, and those of three rules once more.
unfoldable pub count_violation : Finding → ReportMetrics → ReportMetrics
unfolding add_to
count_violation f m = record m {
  violations = add_to f.rule_id f.severity 1 m.violations;
  broken = if f.rule_id == "ATD-CTX-001" then suc m.broken else m.broken;
  orphan_producers =
      if f.rule_id == "ATD-COR-001" then suc m.orphan_producers else m.orphan_producers;
  orphan_consumers =
      if f.rule_id == "ATD-COR-002" then suc m.orphan_consumers else m.orphan_consumers;
}

-- The loop over the findings, on the counters: the fingerprints that were active do not change in it.
unfoldable pub count_violations : List String → List Finding → ReportMetrics → ReportMetrics
unfolding count_violation fingerprint contains
count_violations active [] m = m
count_violations active (f ∷ fs) m =
    count_violations active fs
      (if not (contains active (fingerprint f)) then count_violation f m else m)

abbrev number_of : Option ℕ → ℕ
number_of none = 0
number_of (some n) = n

-- The loop over the findings, on `active`.
unfoldable pub count_active : List Finding → Dict ℕ → Dict ℕ
unfolding Dict.get Dict.put
count_active [] active = active
count_active (f ∷ fs) active =
    let label_key = f.rule_id ++ ("\0" ++ f.severity) in
    count_active fs (Dict.put label_key (suc (number_of (Dict.get label_key active))) active)

-- What follows the first `stop`.
unfoldable pub behind : ℕ → String → String
behind stop String.[] = String.[]
behind stop (String.◌∷◌ c s) = if nat_eq (code c) stop then s else behind stop s

-- The loop over `active`: strings.Split(key, "\x00"), of which the first two parts are the labels.
unfoldable pub set_active : Dict ℕ → Labelled → Labelled
unfolding before behind set_to
set_active [] v = v
set_active ((key, count) ∷ rest) v =
    set_active rest (set_to (before 0 key) (before 0 (behind 0 key)) count v)

-- m.Observe(r)
unfoldable pub observe : Report → ReportMetrics → ReportMetrics
unfolding count_violations count_active set_active fingerprint
observe r m =
    let counted : ReportMetrics = count_violations m.active_fingerprints r.findings m in
    record counted {
      audit_runs = suc m.audit_runs;
      completeness = r.summary.context_completeness_ratio;
      active_findings = set_active (count_active r.findings []) [];
      active_fingerprints = map fingerprint r.findings;
      queue_latency =
          append m.queue_latency
            (filter_by (λ seconds. leb_ℤ (pos 0) seconds) r.queue_latency_samples);
    }

-- m.Violations.WithLabelValues(rule.ID, rule.Severity).Add(0), for each rule
unfoldable pub announce : List Rule → ReportMetrics → ReportMetrics
unfolding add_to
announce [] m = m
announce (r ∷ rs) m = announce rs (record m { violations = add_to r.id r.severity 0 m.violations })

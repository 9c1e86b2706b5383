-- ===== src/Tests/ServiceTests.antt =====
-- The statements about the receiver, at the sample spans and the sample configuration.
use async_trace_doctor.Common.{
  ◌≡◌, ◌↔◌, refl, sym, subst, true, none, some, Option, List, [], ◌∷◌, All, arith, length, ◌+◌,
  filter_by, ℕ,
}
use async_trace_doctor.Common.Int.{pos}
use async_trace_doctor.Model.{is_consumer}
use async_trace_doctor.Correlation.Total.{IsServed}
use async_trace_doctor.Store.{
  new_store, zero_metrics, snapshot, evict, add, span_identity, estimate_span_bytes,
}
use async_trace_doctor.Config.{Config, validate}
use async_trace_doctor.Rules.{Report}
use async_trace_doctor.Service.{
  Rounds, more, last, ok, decompress_context, Options, Service, new_service, start, handle_ready,
  audit, reload_config, ReloadError, observe, no_metrics, validate_options,
}
use async_trace_doctor.Service.Inflated.{IsContent, decompress_context-IsContent}
use async_trace_doctor.Service.Histories.{
  Reach, here, next, starts, reloads, IsServing, Reach-IsServing,
}
use async_trace_doctor.Service.Readiness.{is_unstopped, audit-ready}
use async_trace_doctor.Service.Reloads.{attempts, IsInForce, Reach-IsInForce}
use async_trace_doctor.Service.Violations.{sum_of, is_new, observe-violations}
use async_trace_doctor.Tests.Samples.{arrival, export}
use async_trace_doctor.Tests.CorrelationTests.{export-IsServed}
use async_trace_doctor.Common.Dict
use async_trace_doctor.Service
use async_trace_doctor.Tests.AuditTests.{
  demanding, demanding_accepted, live_report, live, audit-Returns_live,
}

abbrev reader : List ℕ → Option Rounds
reader body = some (more (7 ∷ []) (last (8 ∷ 9 ∷ [])))

decompress_context-IsContent_example :
    (decompress_context reader (31 ∷ 139 ∷ []) "GZIP" (pos 3) ≡ ok (7 ∷ 8 ∷ 9 ∷ []))
    ↔ IsContent reader (31 ∷ 139 ∷ []) "GZIP" 3 (7 ∷ 8 ∷ 9 ∷ [])
decompress_context-IsContent_example =
    decompress_context-IsContent reader (31 ∷ 139 ∷ []) "GZIP" 3 (7 ∷ 8 ∷ 9 ∷ [])

decompressed : decompress_context reader (31 ∷ 139 ∷ []) "GZIP" (pos 3) ≡ ok (7 ∷ 8 ∷ 9 ∷ [])
unfolding decompress_context
decompressed = refl

abbrev options : Options
options = record {
  max_request_bytes = pos 1000000;
  max_retained_bytes = pos 1000000;
  max_spans = pos 4;
  ttl = pos 120000000000;
  audit_interval = pos 15000000000;
  redact_report = true;
  config_path = "rules.yaml";
  startup_probe_path = "";
}

abbrev fresh : Service
fresh = new_service demanding options

options_accepted : validate_options fresh.opts ≡ none
unfolding validate_options new_service
options_accepted = refl

-- The service after its start and a reload that fails.
abbrev running : Service
running = (reload_config none (start fresh)).0

abbrev running_reached : Reach (λ xs. xs) (λ less fs. fs) fresh running
running_reached = next (next here (starts options_accepted refl)) (reloads none refl)

Reach-IsServing_example :
    IsServing (λ xs. xs) (λ less fs. fs) (new_store 4 120000000000 zero_metrics 1000000) running
Reach-IsServing_example =
    Reach-IsServing (λ xs. xs) (λ less fs. fs) (λ P fs h. h) demanding options running_reached

-- The service after a reload of a configuration that judges more strictly, and one that fails.
abbrev stricter : Config
stricter = record demanding {
  settings = record demanding.settings { fail_on_insufficient_evidence = true };
}

abbrev reloaded : Service
reloaded = (reload_config none (reload_config (some stricter) running).0).0

abbrev reloaded_reached : Reach (λ xs. xs) (λ less fs. fs) fresh reloaded
reloaded_reached = next (next running_reached (reloads (some stricter) refl)) (reloads none refl)

three_attempts :
    attempts (λ xs. xs) (λ less fs. fs) reloaded_reached ≡ none ∷ some stricter ∷ none ∷ []
unfolding attempts
three_attempts = refl

stricter_judges : reloaded.engine ≡ stricter
unfolding reload_config new_service
stricter_judges = refl

Reach-IsInForce_example :
    IsInForce
      (λ xs. xs)
      (λ less fs. fs)
      demanding
      "rules.yaml"
      (attempts (λ xs. xs) (λ less fs. fs) reloaded_reached)
      reloaded
Reach-IsInForce_example =
    Reach-IsInForce (λ xs. xs) (λ less fs. fs) demanding options reloaded_reached

-- The started service after the export of the sample spans.
abbrev holding : Service
holding = elim (Service.export (λ redact. export) arrival (start fresh)) [
  | none ↦ fresh
  | some (s, response) ↦ s
]

both_retained : (snapshot arrival holding.store).1 ≡ export
unfolding Service.export snapshot new_service evict add span_identity estimate_span_bytes Dict.get
    Dict.put
both_retained = refl

holding-IsServed :
    All
      (λ c. is_consumer c ≡ true → IsServed (snapshot arrival holding.store).1 c)
      (snapshot arrival holding.store).1
holding-IsServed =
    subst (λ spans. All (λ c. is_consumer c ≡ true → IsServed spans c) spans) (sym both_retained)
      export-IsServed

holding_ready : holding.ready ≡ true
unfolding Service.export new_service add span_identity estimate_span_bytes Dict.get Dict.put
holding_ready = refl

holding_engine : validate holding.engine ≡ none
unfolding Service.export new_service add span_identity estimate_span_bytes Dict.get Dict.put
holding_engine = demanding_accepted

audit-ready_example :
    (t : Service) × (audit (λ xs. xs) (λ less fs. fs) arrival arrival (pos 5) arrival holding
      ≡ some t)
    × (handle_ready t ≡ 200)
    × ((u : Service) (r : Reach (λ xs. xs) (λ less fs. fs) t u)
        → is_unstopped (λ xs. xs) (λ less fs. fs) r ≡ true
        → handle_ready u ≡ 200)
audit-ready_example =
    audit-ready (λ xs. xs) (λ less fs. fs) arrival arrival (pos 5) arrival holding holding_ready
      holding_engine holding-IsServed (omega arith)

abbrev observed : Report
observed = live_report live audit-Returns_live

observe-violations_example :
    (sum_of (observe observed no_metrics).violations
      ≡ sum_of no_metrics.violations
        + length (filter_by (is_new no_metrics.active_fingerprints) observed.findings))
    × ((observe observed (observe observed no_metrics)).violations
        ≡ (observe observed no_metrics).violations)
    × ((observe observed (observe observed no_metrics)).broken
        ≡ (observe observed no_metrics).broken)
    × ((observe observed (observe observed no_metrics)).orphan_producers
        ≡ (observe observed no_metrics).orphan_producers)
    × ((observe observed (observe observed no_metrics)).orphan_consumers
        ≡ (observe observed no_metrics).orphan_consumers)
observe-violations_example = observe-violations observed no_metrics

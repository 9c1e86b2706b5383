-- ===== src/Service/State.antt =====
-- Options, Service and the operations on it of internal/server/server.go, each with the moment at which
-- it reads the clock. Of the options those are kept that the modelled code reads.
use async_trace_doctor.Common.{
  ℕ, suc, String, Bool, true, false, not, ◌||◌, Option, none, some, List, [], ◌∷◌, ◌++◌, map,
  length, ltb, ◌==◌, ◌>>=◌, if◌then◌else◌,
}
use async_trace_doctor.Common.Int.{ℤ, pos, pos_part, leb_ℤ}
use async_trace_doctor.Common.Texts.{has_prefix}
use Prim.Native.String.{◌++◌ as append}
use async_trace_doctor.Model.{Time, Duration, is_zero, Span}
use async_trace_doctor.Store.{Store, StoreStats, AddResult, zero_metrics, new_store, add, snapshot}
use async_trace_doctor.Config.{Config, contains}
use async_trace_doctor.Rules.{Finding, Coverage, Report, audit_window, degrade_finding}
use async_trace_doctor.Service.Observe.{ReportMetrics, no_metrics, observe, announce}

pub record Options : Type 0 where
  pub max_request_bytes : ℤ
  pub max_retained_bytes : ℤ
  pub max_spans : ℤ
  pub ttl : Duration
  pub audit_interval : Duration
  pub redact_report : Bool
  pub config_path : String
  pub startup_probe_path : String

pub record Service : Type 0 where
  pub cfg : Config
  pub engine : Config  -- the Config of the rules.Engine
  pub store : Store
  pub metrics : ReportMetrics
  pub reloads_failed : ℕ  -- the counter ConfigReloads, by its label
  pub reloads_success : ℕ
  pub opts : Options
  pub last : Report
  pub ready : Bool
  pub startup : Bool
  pub last_audit_at : Time

-- The zero Report.
abbrev pub no_report : Report
no_report = record {
  schema_version = "";
  semantic_convention_version = "";
  generated_at = 0;
  summary = record {
    audited_spans = 0;
    messaging_spans = 0;
    violations = 0;
    broken_links = 0;
    orphan_producers = 0;
    orphan_consumers = 0;
    context_completeness_ratio = (0, 1);
    processing_millis = pos 0;
  };
  coverage = record {
    status = "";
    input_completeness = "";
    retained_spans = 0;
    rejected_spans = 0;
    duplicate_exports = 0;
    conflicting_duplicates = 0;
    ttl_evictions = 0;
    dropped_attributes = 0;
    dropped_links = 0;
    limitations = [];
  };
  findings = [];
  topology = [];
  queue_latency_samples = [];
}

-- New; a limit that is not positive is no limit for the store.
unfoldable pub new_service : Config → Options → Service
unfolding announce new_store
new_service cfg opts = record {
  cfg = cfg;
  engine = cfg;
  store =
      new_store (pos_part opts.max_spans) (pos_part opts.ttl) zero_metrics
        (pos_part opts.max_retained_bytes);
  metrics = announce cfg.rules no_metrics;
  reloads_failed = 0;
  reloads_success = 0;
  opts =
      if opts.startup_probe_path == ""
      then record opts { startup_probe_path = "/startup" }
      else opts;
  last = no_report;
  ready = false;
  startup = false;
  last_audit_at = 0;
}

pub data OptionError : Type 0 where
  not_positive no_leading_slash reserved_path : OptionError

abbrev pub reserved_paths : List String
reserved_paths = "/health" ∷ "/ready" ∷ "/report" ∷ "/metrics" ∷ "/admin/reload" ∷ "/v1/traces" ∷ []

-- validateOptions; `none` is the nil error.
unfoldable pub validate_options : Options → Option OptionError
unfolding contains
validate_options o =
    if leb_ℤ o.max_request_bytes (pos 0)
      || leb_ℤ o.max_spans (pos 0)
      || leb_ℤ o.ttl (pos 0)
      || leb_ℤ o.audit_interval (pos 0)
    then some not_positive
    else if not (has_prefix o.startup_probe_path "/")
    then some no_leading_slash
    else if contains reserved_paths o.startup_probe_path
    then some reserved_path
    else none

-- The PartialSuccess of a response: the number of the rejected spans and the message.
abbrev pub ExportResponse : Type 0
ExportResponse = Option (ℕ × String)

unfoldable pub export_response : AddResult → ExportResponse
export_response result =
    let reason =
      if ltb 0 result.rejected_memory
      then "spans rejected by bounded state admission: retained-state memory limit"
      else "spans rejected by bounded state admission: capacity, stale data, or conflicting trace/span identity" in
    if ltb 0 result.rejected then some (result.rejected, reason) else none

unfoldable pub exported : Service → Store × AddResult → Service × ExportResponse
unfolding export_response
exported s (store, result) = (record s { store = store }, export_response result)

-- Export, and what httpExport does with a decoded request: `convert` is FromProto on its spans.
unfoldable pub export :
    (List String → List Span) → Time → Service → Option (Service × ExportResponse)
unfolding add exported
export convert now s =
    add now (convert s.cfg.redact_attributes) s.store >>= λ out. some (exported s out)

-- stats.RejectedSpans > 0 || stats.ConflictingDuplicates > 0 || stats.TTLEvictions > 0
unfoldable pub may_hide : StoreStats → Bool
may_hide stats =
    ltb 0 stats.rejected_spans || (ltb 0 stats.conflicting_duplicates || ltb 0 stats.ttl_evictions)

-- enrichCoverage
unfoldable pub enrich_coverage : Store → Report → Report
unfolding may_hide degrade_finding
enrich_coverage store report =
    let stats = store.stats in
    let counted : Coverage = record report.coverage {
      retained_spans = length store.spans;
      rejected_spans = stats.rejected_spans;
      duplicate_exports = stats.duplicate_exports;
      conflicting_duplicates = stats.conflicting_duplicates;
      ttl_evictions = stats.ttl_evictions;
    } in
    if may_hide stats
    then record report {
      coverage = record counted {
        status = "degraded";
        limitations =
            counted.limitations
            ++ "receiver rejection or state eviction may hide correlation evidence" ∷ [];
      };
      findings = map degrade_finding report.findings;
    }
    else record report { coverage = counted }

module _ (sort_by_start : List Span → List Span)
    (sort : (Finding → Finding → Bool) → List Finding → List Finding) where
  -- audit, which takes the snapshot at `now`, makes the report at `made` after `elapsed`, and notes the
  -- time `done`
  unfoldable pub audit : Time → Time → Duration → Time → Service → Option Service
  unfolding snapshot audit_window enrich_coverage observe
  audit now made elapsed done s =
      let taken : Store × List Span = snapshot now s.store in
      audit_window sort_by_start sort made elapsed s.engine taken.1 >>= λ report.
      let r : Report = enrich_coverage taken.0 report in
      some (record s {
        store = taken.0;
        metrics = observe r s.metrics;
        last = r;
        last_audit_at = done;
      })

pub data ReloadError : Type 0 where
  reload_disabled load_failed : ReloadError

-- The error paths of ReloadConfig count a failure.
unfoldable pub refuse_reload : ReloadError → Service → Service × Option ReloadError
refuse_reload e s = (record s { reloads_failed = suc s.reloads_failed }, some e)

-- ReloadConfig after config.Load.
unfoldable pub take_loaded : Option Config → Service → Service × Option ReloadError
unfolding refuse_reload announce
take_loaded none s = refuse_reload load_failed s
take_loaded (some cfg) s = (
  record s {
    cfg = cfg;
    engine = cfg;
    metrics = announce cfg.rules s.metrics;
    reloads_success = suc s.reloads_success;
  },
  none,
)

-- ReloadConfig; `loaded` is what config.Load answers.
unfoldable pub reload_config : Option Config → Service → Service × Option ReloadError
unfolding take_loaded refuse_reload
reload_config loaded s =
    if s.opts.config_path == "" then refuse_reload reload_disabled s else take_loaded loaded s

-- What Run sets before its loop and after it.
abbrev pub start : Service → Service
start s = record s { startup = true; ready = true }

abbrev pub stop : Service → Service
stop s = record s { ready = false }

-- The status codes of the handlers.
unfoldable pub handle_startup : Service → ℕ
handle_startup s = if not s.startup then 503 else 200

unfoldable pub handle_ready : Service → ℕ
handle_ready s = if not s.ready || is_zero s.last_audit_at then 503 else 200

unfoldable pub handle_reload : Bool → Option Config → Service → Service × ℕ
unfolding reload_config
handle_reload is_post loaded s = if not is_post then (s, 405) else elim (reload_config loaded s).1 [
  | some e ↦ ((reload_config loaded s).0, 400)
  | none ↦ ((reload_config loaded s).0, 200)
]

-- redactServiceName; `digest` is the text of the first four bytes of the SHA-256 sum, in hexadecimal.
unfoldable pub redact_service_name : (String → String) → String → String
redact_service_name digest name = if name == "" then "" else append "service-" (digest name)

-- The findings that handleReport writes; a redacted report has no topology.
unfoldable pub handle_report : (String → String) → Service → Report
unfolding redact_service_name
handle_report digest s =
    if s.opts.redact_report
    then record s.last {
      findings =
          map
            (λ (f : Finding). record f {
              producer_service = redact_service_name digest f.producer_service;
              consumer_service = redact_service_name digest f.consumer_service;
            })
            s.last.findings;
      topology = [];
    }
    else s.last

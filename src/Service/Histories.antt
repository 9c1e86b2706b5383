-- ===== src/Service/Histories.antt =====
-- The histories of a service: any sequence of a start, exports, audits, reloads and a stop, at any times. An
-- audit is one step: no export comes between its snapshot and its report.
use async_trace_doctor.Common.{
  ◌<◌, ◌≡◌, refl, sym, subst, String, Bool, true, Option, none, some, List, All, ◌==◌, ◌>>=◌,
  Bool-cases, inl, inr,
}
use async_trace_doctor.Common.Int.{pos_part}
use async_trace_doctor.Model.{Time, Duration, Span}
use async_trace_doctor.Store.{Store, AddResult, add, snapshot, new_store, zero_metrics}
use async_trace_doctor.Store.Reachable
use async_trace_doctor.Config.{Config}
use async_trace_doctor.Rules.{Finding, finding_less, Report, audit_window, degrade_finding}
use async_trace_doctor.Rules.Doubt.{IsDoubtful, All-of_map, audit_window-IsDoubtful, unequal}
use async_trace_doctor.Service.Observe.{ReportMetrics, observe}
use async_trace_doctor.Service.State.{
  exported, refuse_reload, take_loaded, Service, Options, ExportResponse, new_service,
  validate_options, export, may_hide, enrich_coverage, audit, reload_config, start, stop,
  ReloadError, reload_disabled, load_failed,
}

degrade-IsDoubtful : (f : Finding) → IsDoubtful f → IsDoubtful (degrade_finding f)
unfolding degrade_finding
degrade-IsDoubtful f h = elim (Bool-cases (f.evidence_state == "insufficient")) [
  | inr other ↦ rw (other, degrade_finding) h
  | inl marked ↦
      rw (marked, degrade_finding) (λ absent. (unequal "degraded" "sufficient" refl, (h absent).1))
]

enrich_coverage-IsDoubtful :
    (store : Store) (r : Report)
    → All IsDoubtful r.findings
    → All IsDoubtful (enrich_coverage store r).findings
unfolding enrich_coverage
enrich_coverage-IsDoubtful store r h = elim (Bool-cases (may_hide store.stats)) [
  | inl hides ↦
      rw (hides, enrich_coverage)
        (All-of_map IsDoubtful IsDoubtful degrade_finding degrade-IsDoubtful r.findings h)
  | inr whole ↦ rw (whole, enrich_coverage) h
]

-- An export changes the store alone.
pub export-store :
    (convert : List String → List Span) (now : Time) (s : Service) {s' : Service}
    {response : ExportResponse}
    → export convert now s ≡ some (s', response)
    → (st : Store) × (s' ≡ record s { store = st })
unfolding export exported
export-store convert now s {s'} {response} e =
    first (add now (convert s.cfg.redact_attributes) s.store) e
  where
    first :
        (o : Option (Store × AddResult))
        → (o >>= λ out. some (exported s out)) ≡ some (s', response)
        → (st : Store) × (s' ≡ record s { store = st })
    first none k = absurd (cc k)
    first (some (st, r)) k = (st, sym (cc k))

module _ (sort_by_start : List Span → List Span)
    (sort : (Finding → Finding → Bool) → List Finding → List Finding) where
  pub data Step (s s' : Service) : Type 0 where
    starts : validate_options s.opts ≡ none → s' ≡ start s → Step s s'
    exports :
        (convert : List String → List Span) (now : Time) (response : ExportResponse)
        → export convert now s ≡ some (s', response)
        → Step s s'
    audits :
        (now made : Time) (elapsed : Duration) (done : Time)
        → 0 < done
        → audit sort_by_start sort now made elapsed done s ≡ some s'
        → Step s s'
    reloads : (loaded : Option Config) → s' ≡ (reload_config loaded s).0 → Step s s'
    stops : s' ≡ stop s → Step s s'

  -- An audit changes the store, the metrics, the report and the time of the audit.
  pub audit-state :
      (now made : Time) (elapsed : Duration) (done : Time) (s : Service) {s' : Service}
      → audit sort_by_start sort now made elapsed done s ≡ some s'
      → (st : Store) × (m : ReportMetrics) × (report : Report) × (s'
          ≡ record s { store = st; metrics = m; last = report; last_audit_at = done })
  unfolding audit
  audit-state now made elapsed done s {s'} e =
      first (audit_window sort_by_start sort made elapsed s.engine (snapshot now s.store).1) e
    where
      first :
          (o : Option Report)
          → (o >>= λ report. some (record s {
            store = (snapshot now s.store).0;
            metrics = observe (enrich_coverage (snapshot now s.store).0 report) s.metrics;
            last = enrich_coverage (snapshot now s.store).0 report;
            last_audit_at = done;
          }))
            ≡ some s'
          → (st : Store) × (m : ReportMetrics) × (report : Report) × (s'
              ≡ record s { store = st; metrics = m; last = report; last_audit_at = done })
      first none k = absurd (cc k)
      first (some report) k =
          let p : record s {
            store = (snapshot now s.store).0;
            metrics = observe (enrich_coverage (snapshot now s.store).0 report) s.metrics;
            last = enrich_coverage (snapshot now s.store).0 report;
            last_audit_at = done;
          }
              ≡ s' =
            cc k in
          (_, _, _, sym p)

  pub data Reach (s : Service) : Service → Type 0 where
    here : Reach s s
    next : {t u : Service} → Reach s t → Step t u → Reach s u

  -- What every state of a service that began with the store `s0` satisfies.
  pub record IsServing (s0 : Store) (s : Service) : Type 0 where
    pub one_config : s.engine ≡ s.cfg
    pub store : Reachable.Reach s0 s.store
    pub cautious : All IsDoubtful s.last.findings
    pub started : s.ready ≡ true → s.startup ≡ true

  module _ {s0 : Store} (s : Service) (h : IsServing s0 s) where
    export-IsServing :
        (convert : List String → List Span) (now : Time) {s' : Service} {response : ExportResponse}
        → export convert now s ≡ some (s', response)
        → IsServing s0 s'
    unfolding export exported
    export-IsServing convert now {s'} {response} e =
        first (add now (convert s.cfg.redact_attributes) s.store) refl e
      where
        first :
            (o : Option (Store × AddResult))
            → add now (convert s.cfg.redact_attributes) s.store ≡ o
            → (o >>= λ out. some (exported s out)) ≡ some (s', response)
            → IsServing s0 s'
        first none a k = absurd (cc k)
        first (some (st, r)) a k =
            let p : record s { store = st } ≡ s' = cc k in
            subst (IsServing s0) p (record {
              one_config = h.one_config;
              store =
                  Reachable.next h.store (Reachable.adds now (convert s.cfg.redact_attributes) r a);
              cautious = h.cautious;
              started = h.started;
            })

    audit-IsServing :
        ((P : Finding → Type 0) (fs : List Finding) → All P fs → All P (sort finding_less fs))
        → (now made : Time) (elapsed : Duration) (done : Time) {s' : Service}
        → audit sort_by_start sort now made elapsed done s ≡ some s'
        → IsServing s0 s'
    unfolding audit
    audit-IsServing keeps now made elapsed done {s'} e =
        first (audit_window sort_by_start sort made elapsed s.engine (snapshot now s.store).1) refl
          e
      where
        first :
            (o : Option Report)
            → audit_window sort_by_start sort made elapsed s.engine (snapshot now s.store).1 ≡ o
            → (o >>= λ report. some (record s {
              store = (snapshot now s.store).0;
              metrics = observe (enrich_coverage (snapshot now s.store).0 report) s.metrics;
              last = enrich_coverage (snapshot now s.store).0 report;
              last_audit_at = done;
            }))
              ≡ some s'
            → IsServing s0 s'
        first none a k = absurd (cc k)
        first (some report) a k =
            let taken : Store × List Span = snapshot now s.store in
            let p : record s {
              store = taken.0;
              metrics = observe (enrich_coverage taken.0 report) s.metrics;
              last = enrich_coverage taken.0 report;
              last_audit_at = done;
            }
                ≡ s' =
              cc k in
            subst (IsServing s0) p (record {
              one_config = h.one_config;
              store = Reachable.next h.store (Reachable.snaps now refl);
              cautious = enrich_coverage-IsDoubtful taken.0 report (
                  audit_window-IsDoubtful sort_by_start sort keeps made elapsed s.engine taken.1 a);
              started = h.started;
            })

    refuse_reload-IsServing : (e : ReloadError) → IsServing s0 (refuse_reload e s).0
    unfolding refuse_reload
    refuse_reload-IsServing e = record {
      one_config = h.one_config;
      store = h.store;
      cautious = h.cautious;
      started = h.started;
    }

    take_loaded-IsServing : (loaded : Option Config) → IsServing s0 (take_loaded loaded s).0
    unfolding take_loaded
    take_loaded-IsServing none = refuse_reload-IsServing load_failed
    take_loaded-IsServing (some cfg) = record {
      one_config = refl;
      store = h.store;
      cautious = h.cautious;
      started = h.started;
    }

    reload_config-IsServing : (loaded : Option Config) → IsServing s0 (reload_config loaded s).0
    unfolding reload_config
    reload_config-IsServing loaded = elim (Bool-cases (s.opts.config_path == "")) [
      | inl off ↦ rw (off, reload_config) (refuse_reload-IsServing reload_disabled)
      | inr on ↦ rw (on, reload_config) (take_loaded-IsServing loaded)
    ]

  Step-IsServing :
      ((P : Finding → Type 0) (fs : List Finding) → All P fs → All P (sort finding_less fs))
      → {s0 : Store} {s s' : Service} → Step s s'
      → IsServing s0 s
      → IsServing s0 s'
  Step-IsServing keeps {s0} {s} (starts valid e) h = subst (IsServing s0) (sym e) (record {
    one_config = h.one_config;
    store = h.store;
    cautious = h.cautious;
    started = λ _. refl;
  })
  Step-IsServing keeps {s0} {s} (exports convert now response e) h =
      export-IsServing s h convert now e
  Step-IsServing keeps {s0} {s} (audits now made elapsed done late e) h =
      audit-IsServing s h keeps now made elapsed done e
  Step-IsServing keeps {s0} {s} (reloads loaded e) h =
      subst (IsServing s0) (sym e) (reload_config-IsServing s h loaded)
  Step-IsServing keeps {s0} {s} (stops e) h = subst (IsServing s0) (sym e) (record {
    one_config = h.one_config;
    store = h.store;
    cautious = h.cautious;
    started = λ r. absurd (cc r);
  })

  -- Whatever a service that began as New makes it goes through: its engine judges by the configuration
  -- that its exports redact by, its store is one that Add and Snapshot lead to from an empty store of
  -- the limits of the options, no finding of its report that concludes from what is not there is of
  -- sufficient evidence, and it is ready only once it has started. The sort of the findings is any that
  -- adds none.
  pub Reach-IsServing :
      ((P : Finding → Type 0) (fs : List Finding) → All P fs → All P (sort finding_less fs))
      → (cfg : Config) (opts : Options) {s : Service} → Reach (new_service cfg opts) s
      → IsServing
          (new_store
            (pos_part opts.max_spans)
            (pos_part opts.ttl)
            zero_metrics
            (pos_part opts.max_retained_bytes))
          s
  unfolding new_service
  Reach-IsServing keeps cfg opts here = record {
    one_config = refl;
    store = Reachable.here;
    cautious = tt;
    started = λ r. absurd (cc r);
  }
  Reach-IsServing keeps cfg opts (next r st) =
      Step-IsServing keeps st (Reach-IsServing keeps cfg opts r)

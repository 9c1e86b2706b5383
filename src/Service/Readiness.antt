-- ===== src/Service/Readiness.antt =====
-- When the receiver answers that it is ready.
use async_trace_doctor.Common.{
  ◌<◌, ◌≡◌, refl, sym, subst, Bool, true, false, Option, none, some, List, All, ◌==◌, if◌then◌else◌,
  arith,
}
use async_trace_doctor.Model.{Time, Duration, Span, is_zero, is_consumer}
use async_trace_doctor.Correlation.Total.{IsServed}
use async_trace_doctor.Store.{Store, snapshot}
use async_trace_doctor.Config.{Config, validate}
use async_trace_doctor.Rules.{Finding}
use async_trace_doctor.Rules.Total.{audit-Returns}
use async_trace_doctor.Service.Observe.{observe}
use async_trace_doctor.Service.State.{
  Service, enrich_coverage, audit, reload_config, refuse_reload, take_loaded, reload_disabled,
  handle_ready,
}
use async_trace_doctor.Service.Histories.{
  starts, exports, audits, reloads, stops, Reach, here, next, export-store, audit-state,
}

audited_at : (s : Service) → is_zero s.last_audit_at ≡ false → s.ready ≡ true → handle_ready s ≡ 200
unfolding handle_ready
audited_at s h r = rw (r, h, handle_ready) refl

not_zero : (t : Time) → 0 < t → is_zero t ≡ false
not_zero t h = ground arith

-- The service has been audited and is not stopped.
abbrev pub IsUp : Service → Type 0
IsUp s = (is_zero s.last_audit_at ≡ false) × (s.ready ≡ true)

module _ (sort_by_start : List Span → List Span)
    (sort : (Finding → Finding → Bool) → List Finding → List Finding) where
  -- No step of a history stops the service.
  unfoldable pub is_unstopped : {s u : Service} → Reach sort_by_start sort s u → Bool
  is_unstopped here = true
  is_unstopped (next r (starts valid e)) = is_unstopped r
  is_unstopped (next r (exports convert now response e)) = is_unstopped r
  is_unstopped (next r (audits now made elapsed done late e)) = is_unstopped r
  is_unstopped (next r (reloads loaded e)) = is_unstopped r
  is_unstopped (next r (stops e)) = false

  reload-IsUp : (loaded : Option Config) (s : Service) → IsUp s → IsUp (reload_config loaded s).0
  unfolding reload_config refuse_reload take_loaded
  reload-IsUp loaded s h = reloaded loaded (s.opts.config_path == "")
    where
      reloaded :
          (o : Option Config) (b : Bool)
          → IsUp (if b then refuse_reload reload_disabled s else take_loaded o s).0
      reloaded o true = h
      reloaded none false = h
      reloaded (some c) false = h

  Reach-IsUp :
      {s u : Service} (r : Reach sort_by_start sort s u) → is_unstopped r ≡ true → IsUp s → IsUp u
  unfolding is_unstopped
  Reach-IsUp here on h = h
  Reach-IsUp (next r (starts valid e)) on h =
      let up = Reach-IsUp r on h in subst IsUp (sym e) (up.0, refl)
  Reach-IsUp (next {t} {u} r (exports convert now response e)) on h =
      let up = Reach-IsUp r on h in
      let (st, p) = export-store convert now t e in subst IsUp (sym p) up
  Reach-IsUp (next {t} {u} r (audits now made elapsed done late e)) on h =
      let up = Reach-IsUp r on h in
      let (st, m, report, p) = audit-state sort_by_start sort now made elapsed done t e in
      subst IsUp (sym p) (not_zero done late, up.1)
  Reach-IsUp (next {t} {u} r (reloads loaded e)) on h =
      subst IsUp (sym e) (reload-IsUp loaded t (Reach-IsUp r on h))
  Reach-IsUp (next r (stops e)) on h = absurd (cc on)

  -- A started receiver that runs on an accepted configuration and on spans that Correlate serves completes
  -- an audit, and then the readiness probe answers 200. It still does after any starts, exports, audits
  -- and reloads that follow, whether they succeed or not.
  pub audit-ready :
      (now made : Time) (elapsed : Duration) (done : Time) (s : Service)
      → s.ready ≡ true
      → validate s.engine ≡ none
      → All
          (λ c. is_consumer c ≡ true → IsServed (snapshot now s.store).1 c)
          (snapshot now s.store).1
      → 0 < done
      → (t : Service) × (audit sort_by_start sort now made elapsed done s ≡ some t)
        × (handle_ready t ≡ 200)
        × ((u : Service) (r : Reach sort_by_start sort t u)
            → is_unstopped r ≡ true
            → handle_ready u ≡ 200)
  unfolding audit
  audit-ready now made elapsed done s r valid served late =
      let taken : Store × List Span = snapshot now s.store in
      let (_, (report, w)) =
        audit-Returns sort_by_start sort made elapsed s.engine taken.1 valid served in
      let t : Service = record s {
        store = taken.0;
        metrics = observe (enrich_coverage taken.0 report) s.metrics;
        last = enrich_coverage taken.0 report;
        last_audit_at = done;
      } in
      let e : audit sort_by_start sort now made elapsed done s ≡ some t = rw (audit, w) refl in
      (
        t,
        e,
        audited_at t (not_zero done late) r,
        λ u reach on.
            let up = Reach-IsUp reach on (not_zero done late, r) in audited_at u up.0 up.1,
      )

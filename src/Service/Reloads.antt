-- ===== src/Service/Reloads.antt =====
-- Which configuration is in force after any history of a service.
use async_trace_doctor.Common.{
  ℕ, suc, ◌+◌, ◌≡◌, refl, sym, ap, ◌∙◌, subst, String, Bool, true, false, Option, none, some, List,
  [], ◌∷◌, length, ◌==◌, Bool-cases, inl, inr, if◌then◌else◌, arith,
}
use async_trace_doctor.Model.{Span}
use async_trace_doctor.Config.{Config}
use async_trace_doctor.Rules.{Finding}
use async_trace_doctor.Service.State.{
  Service, Options, new_service, reload_config, refuse_reload, take_loaded, reload_disabled,
}
use async_trace_doctor.Service.Histories.{
  starts, exports, audits, reloads, stops, Reach, here, next, export-store, audit-state,
}

-- The last configuration that loaded, where the last attempt comes first.
unfoldable pub in_force : Config → List (Option Config) → Config
in_force cfg [] = cfg
in_force cfg (none ∷ rest) = in_force cfg rest
in_force cfg (some c ∷ rest) = c

-- How many attempts loaded.
unfoldable pub count_loaded : List (Option Config) → ℕ
count_loaded [] = 0
count_loaded (none ∷ rest) = count_loaded rest
count_loaded (some c ∷ rest) = suc (count_loaded rest)

-- The attempts that read a file: none where the options name no path.
unfoldable pub read_of : String → List (Option Config) → List (Option Config)
read_of path attempts = if path == "" then [] else attempts

read_of-off :
    (path : String) (xs : List (Option Config)) → (path == "") ≡ true → read_of path xs ≡ []
unfolding read_of
read_of-off path xs off = rw (off, read_of) refl

read_of-on :
    (path : String) (xs : List (Option Config)) → (path == "") ≡ false → read_of path xs ≡ xs
unfolding read_of
read_of-on path xs on = rw (on, read_of) refl

module _ (sort_by_start : List Span → List Span)
    (sort : (Finding → Finding → Bool) → List Finding → List Finding) where
  -- What the reloads of a history found in the file, the last one first.
  unfoldable pub attempts : {s u : Service} → Reach sort_by_start sort s u → List (Option Config)
  attempts here = []
  attempts (next r (starts valid e)) = attempts r
  attempts (next r (exports convert now response e)) = attempts r
  attempts (next r (audits now made elapsed done late e)) = attempts r
  attempts (next r (reloads loaded e)) = loaded ∷ attempts r
  attempts (next r (stops e)) = attempts r

  -- After the attempts `tried` of a service that began with the configuration `cfg`.
  pub record IsInForce (cfg : Config) (path : String) (tried : List (Option Config)) (s : Service)
      : Type 0 where
    pub path_kept : s.opts.config_path ≡ path
    pub judges : s.engine ≡ in_force cfg (read_of path tried)
    pub redacts : s.cfg ≡ in_force cfg (read_of path tried)
    pub loaded : s.reloads_success ≡ count_loaded (read_of path tried)
    pub counted : s.reloads_success + s.reloads_failed ≡ length tried

  new-IsInForce :
      (cfg : Config) (opts : Options) → IsInForce cfg opts.config_path [] (new_service cfg opts)
  unfolding new_service in_force count_loaded read_of
  new-IsInForce cfg opts = record {
    path_kept = same_path (opts.startup_probe_path == "");
    judges = nothing (opts.config_path == "");
    redacts = nothing (opts.config_path == "");
    loaded = none_loaded (opts.config_path == "");
    counted = refl;
  }
    where
      same_path :
          (b : Bool)
          → (if b then record opts { startup_probe_path = "/startup" } else opts).config_path
            ≡ opts.config_path
      same_path true = refl
      same_path false = refl

      nothing : (b : Bool) → cfg ≡ in_force cfg (if b then [] else [])
      nothing true = refl
      nothing false = refl

      none_loaded : (b : Bool) → 0 ≡ count_loaded (if b then [] else [])
      none_loaded true = refl
      none_loaded false = refl

  module _ (cfg : Config) (path : String) (tried : List (Option Config)) (s : Service)
      (h : IsInForce cfg path tried s) where
    one_more : s.reloads_success + suc s.reloads_failed ≡ suc (length tried)
    one_more = omega (arith, h.counted)

    disabled-IsInForce :
        (loaded : Option Config)
        → (path == "") ≡ true
        → IsInForce cfg path (loaded ∷ tried) (refuse_reload reload_disabled s).0
    unfolding refuse_reload
    disabled-IsInForce loaded off =
        let same : read_of path tried ≡ read_of path (loaded ∷ tried) =
          read_of-off path tried off ∙ sym (read_of-off path (loaded ∷ tried) off) in
        record {
          path_kept = h.path_kept;
          judges = h.judges ∙ ap (in_force cfg) same;
          redacts = h.redacts ∙ ap (in_force cfg) same;
          loaded = h.loaded ∙ ap count_loaded same;
          counted = one_more;
        }

    take-IsInForce :
        (loaded : Option Config)
        → (path == "") ≡ false
        → IsInForce cfg path (loaded ∷ tried) (take_loaded loaded s).0
    unfolding take_loaded refuse_reload in_force count_loaded
    take-IsInForce none on =
        let same : read_of path tried ≡ tried = read_of-on path tried on in
        let now : read_of path (none ∷ tried) ≡ none ∷ tried = read_of-on path (none ∷ tried) on in
        record {
          path_kept = h.path_kept;
          judges = h.judges ∙ ap (in_force cfg) same ∙ sym (ap (in_force cfg) now);
          redacts = h.redacts ∙ ap (in_force cfg) same ∙ sym (ap (in_force cfg) now);
          loaded = h.loaded ∙ ap count_loaded same ∙ sym (ap count_loaded now);
          counted = one_more;
        }
    take-IsInForce (some c) on =
        let same : read_of path tried ≡ tried = read_of-on path tried on in
        let now : read_of path (some c ∷ tried) ≡ some c ∷ tried =
          read_of-on path (some c ∷ tried) on in
        record {
          path_kept = h.path_kept;
          judges = sym (ap (in_force cfg) now);
          redacts = sym (ap (in_force cfg) now);
          loaded = ap suc (h.loaded ∙ ap count_loaded same) ∙ sym (ap count_loaded now);
          counted = omega (arith, h.counted);
        }

    reload-IsInForce :
        (loaded : Option Config) → IsInForce cfg path (loaded ∷ tried) (reload_config loaded s).0
    unfolding reload_config
    reload-IsInForce loaded = elim (Bool-cases (path == "")) [
      | inl off ↦
          let here_off : (s.opts.config_path == "") ≡ true = rw h.path_kept off in
          rw (here_off, reload_config) (disabled-IsInForce loaded off)
      | inr on ↦
          let here_on : (s.opts.config_path == "") ≡ false = rw h.path_kept on in
          rw (here_on, reload_config) (take-IsInForce loaded on)
    ]

    -- A step that leaves the configurations, the counts and the options.
    kept-IsInForce :
        (t u : Service)
        → t ≡ u
        → t.opts ≡ s.opts
        → t.engine ≡ s.engine
        → t.cfg ≡ s.cfg
        → t.reloads_success ≡ s.reloads_success
        → t.reloads_failed ≡ s.reloads_failed
        → IsInForce cfg path tried u
    kept-IsInForce t u p o g c a b = subst (IsInForce cfg path tried) p (record {
      path_kept = ap (λ (x : Options). x.config_path) o ∙ h.path_kept;
      judges = g ∙ h.judges;
      redacts = c ∙ h.redacts;
      loaded = a ∙ h.loaded;
      counted = rw (a, b) h.counted;
    })

  -- Whatever a service that began as New makes it goes through, the configuration by which it judges and
  -- that by which it redacts are the last one that a reload loaded, and the first where none did; without
  -- a path in the options no reload does. The two counters tell how many reloads loaded one, and how many
  -- reloads there were.
  pub Reach-IsInForce :
      (cfg : Config) (opts : Options) {s : Service}
      (r : Reach sort_by_start sort (new_service cfg opts) s)
      → IsInForce cfg opts.config_path (attempts r) s
  unfolding attempts
  Reach-IsInForce cfg opts here = new-IsInForce cfg opts
  Reach-IsInForce cfg opts (next {t} {u} r (starts valid e)) =
      kept-IsInForce cfg _ _ t (Reach-IsInForce cfg opts r) _ u (sym e) refl refl refl refl refl
  Reach-IsInForce cfg opts (next {t} {u} r (exports convert now response e)) =
      let (st, p) = export-store convert now t e in
      kept-IsInForce cfg _ _ t (Reach-IsInForce cfg opts r) _ u (sym p) refl refl refl refl refl
  Reach-IsInForce cfg opts (next {t} {u} r (audits now made elapsed done late e)) =
      let (st, m, report, p) = audit-state sort_by_start sort now made elapsed done t e in
      kept-IsInForce cfg _ _ t (Reach-IsInForce cfg opts r) _ u (sym p) refl refl refl refl refl
  Reach-IsInForce cfg opts (next {t} {u} r (reloads loaded e)) =
      subst (IsInForce cfg opts.config_path (loaded ∷ attempts r)) (sym e)
        (reload-IsInForce cfg _ _ t (Reach-IsInForce cfg opts r) loaded)
  Reach-IsInForce cfg opts (next {t} {u} r (stops e)) =
      kept-IsInForce cfg _ _ t (Reach-IsInForce cfg opts r) _ u (sym e) refl refl refl refl refl

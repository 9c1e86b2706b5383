-- ===== src/Config/Validity.antt =====
-- What a configuration that Validate accepts looks like.
use async_trace_doctor.Common.{
  ℕ, suc, ◌≡◌, refl, ◌≢◌, ◌↔◌, String, true, false, not, ◌&&◌, none, List, [], ◌∷◌, All, ◌==◌,
  Bool-cases, Option-cases, inl, inr, ◌⊎◌, eq_iff, arith,
}
use async_trace_doctor.Common.Int.{pos, leb_ℤ, ltb_ℤ}
use async_trace_doctor.Config.Defs.{
  Settings, Rule, ExpectedEdge, Config, valid_checks, contains, severity_rank, is_severity, EdgeSet,
  expected, denied, ignored, is_expected, check_rule, check_rules, check_edge, check_edges,
  check_settings, validate,
}
use async_trace_doctor.Config.Refusals.{
  refuse-none, and_then-none, contains-false, both_false, nonempty, not-false,
}

-- A rule by itself.
pub record RuleIsValid (r : Rule) : Type 0 where
  pub id : r.id ≢ ""
  pub check : contains valid_checks r.check ≡ true
  pub severity : is_severity (severity_rank r.severity) ≡ true
  pub message : r.message ≢ ""
  pub suggested_fix : r.suggested_fix ≢ ""

-- No two rules of a list have one id.
abbrev pub DistinctIds : List Rule → Type 0
DistinctIds [] = Unit
DistinctIds (r ∷ rest) = All (λ (q : Rule). r.id ≢ q.id) rest × DistinctIds rest

-- The rules have none of the ids `seen`.
abbrev Unseen : List String → List Rule → Type 0
Unseen seen = All (λ (r : Rule). All (λ v. v ≢ r.id) seen)

check_rule-none :
    (i : ℕ) (seen : List String) (r : Rule)
    → (check_rule i seen r ≡ none) ↔ (RuleIsValid r × All (λ v. v ≢ r.id) seen)
unfolding check_rule
check_rule-none i seen r = (
  (λ h.
      let (a, h1) = (refuse-none _ _ _).0 h in
      let (b, h2) = (refuse-none _ _ _).0 h1 in
      let (c, h3) = (refuse-none _ _ _).0 h2 in
      let (d, h4) = (refuse-none _ _ _).0 h3 in
      let (named, new) = (both_false _ _).0 a in
      let (worded, fixed) = (both_false _ _).0 d in
      (
        record {
          id = (nonempty _).0 named;
          check = (not-false _).0 b;
          severity = (not-false _).0 c;
          message = (nonempty _).0 worded;
          suggested_fix = (nonempty _).0 fixed;
        },
        (contains-false seen r.id).0 new,
      )),
  (λ (v, new). (refuse-none _ _ _).1 (
    (both_false _ _).1 ((nonempty _).1 v.id, (contains-false seen r.id).1 new),
    (refuse-none _ _ _).1 (
      (not-false _).1 v.check,
      (refuse-none _ _ _).1 (
        (not-false _).1 v.severity,
        (refuse-none _ _ _).1
            ((both_false _ _).1 ((nonempty _).1 v.message, (nonempty _).1 v.suggested_fix), refl),
      ),
    ),
  )),
)

Unseen-head :
    (seen : List String) (x : String) (rest : List Rule)
    → Unseen (x ∷ seen) rest ↔ (Unseen seen rest × All (λ (q : Rule). x ≢ q.id) rest)
Unseen-head seen x [] = (λ h. (tt, tt), λ h. tt)
Unseen-head seen x (r ∷ rest) =
    let (f, g) = Unseen-head seen x rest in
    (λ h. let (a, b) = f h.1 in ((h.0.1, a), (h.0.0, b)), λ h. ((h.1.0, h.0.0), g (h.0.1, h.1.1)))

check_rules-none :
    (i : ℕ) (seen : List String) (rules : List Rule)
    → (check_rules i seen rules ≡ none)
      ↔ (All RuleIsValid rules × Unseen seen rules × DistinctIds rules)
unfolding check_rules
check_rules-none i seen [] = (λ h. (tt, tt, tt), λ h. refl)
check_rules-none i seen (r ∷ rest) =
    let (f, g) = check_rules-none (suc i) (r.id ∷ seen) rest in
    let (one, back) = check_rule-none i seen r in
    let (outward, inward) = Unseen-head seen r.id rest in
    (
      λ h. elim (Option-cases (check_rule i seen r)) [
        | inr (e, bad) ↦ absurd (cc (rw (bad, check_rules) at h))
        | inl good ↦
            let (v, new) = one good in
            let (vs, u, d) = f (rw (good, check_rules) at h) in
            let (older, other) = outward u in ((v, vs), (new, older), (other, d))
      ],
      λ (vs, u, d). rw (back (vs.0, u.0), check_rules) (g (vs.1, inward (u.1, d.0), d.1)),
    )

-- An edge of one of the three lists: only an expected edge may be required for each message.
pub record EdgeIsValid (set : EdgeSet) (edge : ExpectedEdge) : Type 0 where
  pub producer : edge.producer ≢ ""
  pub system : edge.system ≢ ""
  pub destination : edge.destination ≢ ""
  pub consumer : edge.consumer ≢ ""
  pub delivery : (not (is_expected set) && edge.require_per_message) ≡ false

check_edge-none :
    (set : EdgeSet) (i : ℕ) (edge : ExpectedEdge)
    → (check_edge set i edge ≡ none) ↔ EdgeIsValid set edge
unfolding check_edge
check_edge-none set i edge = (
  (λ h.
      let (a, h1) = (refuse-none _ _ _).0 h in
      let (b, h2) = (refuse-none _ _ _).0 h1 in
      let (abc, d) = (both_false _ _).0 a in
      let (ab, c) = (both_false _ _).0 abc in
      let (p, s) = (both_false _ _).0 ab in
      record {
        producer = (nonempty _).0 p;
        system = (nonempty _).0 s;
        destination = (nonempty _).0 c;
        consumer = (nonempty _).0 d;
        delivery = b;
      }),
  (λ v. (refuse-none _ _ _).1 (
    (both_false _ _).1 (
      (both_false _ _).1 (
        (both_false _ _).1 ((nonempty _).1 v.producer, (nonempty _).1 v.system),
        (nonempty _).1 v.destination,
      ),
      (nonempty _).1 v.consumer,
    ),
    (refuse-none _ _ _).1 (v.delivery, refl),
  )),
)

check_edges-none :
    (set : EdgeSet) (i : ℕ) (edges : List ExpectedEdge)
    → (check_edges set i edges ≡ none) ↔ All (EdgeIsValid set) edges
unfolding check_edges
check_edges-none set i [] = (λ h. tt, λ h. refl)
check_edges-none set i (edge ∷ rest) =
    let (f, g) = check_edges-none set (suc i) rest in
    let (one, back) = check_edge-none set i edge in
    (
      λ h. elim (Option-cases (check_edge set i edge)) [
        | inr (e, bad) ↦ absurd (cc (rw (bad, check_edges) at h))
        | inl good ↦ (one good, f (rw (good, check_edges) at h))
      ],
      λ vs. rw (back vs.0, check_edges) (g vs.1),
    )

pub record SettingsAreValid (s : Settings) : Type 0 where
  pub window : leb_ℤ s.correlation_window (pos 0) ≡ false
  pub latency : leb_ℤ s.queue_latency (pos 0) ≡ false
  pub tolerance : ltb_ℤ s.clock_skew_tolerance (pos 0) ≡ false
  pub threshold : ltb_ℤ s.duplicate_threshold (pos 1) ≡ false
  pub severity : is_severity (severity_rank s.fail_on_severity) ≡ true
  pub completeness :
      (s.input_completeness ≡ "")
      ⊎ (s.input_completeness ≡ "complete")
      ⊎ (s.input_completeness ≡ "unknown")

check_settings-none : (s : Settings) → (check_settings s ≡ none) ↔ SettingsAreValid s
unfolding check_settings
check_settings-none s = (
  (λ h.
      let (a, h1) = (refuse-none _ _ _).0 h in
      let (b, h2) = (refuse-none _ _ _).0 h1 in
      let (c, h3) = (refuse-none _ _ _).0 h2 in
      let (d, h4) = (refuse-none _ _ _).0 h3 in
      let (e, h5) = (refuse-none _ _ _).0 h4 in
      let (f, h6) = (refuse-none _ _ _).0 h5 in
      record {
        window = a;
        latency = b;
        tolerance = c;
        threshold = d;
        severity = (not-false _).0 e;
        completeness = (one_of s.input_completeness).0 f;
      }),
  (λ v. (refuse-none _ _ _).1 (
    v.window,
    (refuse-none _ _ _).1 (
      v.latency,
      (refuse-none _ _ _).1 (
        v.tolerance,
        (refuse-none _ _ _).1 (
          v.threshold,
          (refuse-none _ _ _).1 (
            (not-false _).1 v.severity,
            (refuse-none _ _ _).1 ((one_of s.input_completeness).1 v.completeness, refl),
          ),
        ),
      ),
    ),
  )),
)
  where
    one_of :
        (t : String)
        → ((not (t == "") && not (t == "complete") && not (t == "unknown")) ≡ false)
          ↔ ((t ≡ "") ⊎ (t ≡ "complete") ⊎ (t ≡ "unknown"))
    one_of t = (
      (λ h. elim (Bool-cases (t == "")) [
        | inl p ↦ inl ((eq_iff _ _).0 p)
        | inr n ↦ elim (Bool-cases (t == "complete")) [
          | inl p ↦ inr (inl ((eq_iff _ _).0 p))
          | inr m ↦ elim (Bool-cases (t == "unknown")) [
            | inl p ↦ inr (inr ((eq_iff _ _).0 p))
            | inr k ↦ absurd (cc (rw (n, m, k) at h))
          ]
        ]
      ]),
      (λ h. ground (arith, eq_iff t "", eq_iff t "complete", eq_iff t "unknown")),
    )

-- What the receiver relies on.
pub record IsValid (c : Config) : Type 0 where
  pub api_version : c.api_version ≡ "asynctracedoctor.io/v1alpha1"
  pub convention_version : c.semantic_convention_version ≢ ""
  pub settings : SettingsAreValid c.settings
  pub rules : All RuleIsValid c.rules
  pub distinct_ids : DistinctIds c.rules
  pub expected_edges : All (EdgeIsValid expected) c.topology.expected_edges
  pub denied_edges : All (EdgeIsValid denied) c.topology.denied_edges
  pub ignored_edges : All (EdgeIsValid ignored) c.topology.ignored_edges

-- Validate accepts exactly the configurations of the supported version whose settings are in range,
-- whose rules are complete, of known checks and severities and with ids of their own, and whose edges
-- are complete, none but an expected one asking for delivery of each message.
pub validate-IsValid : (c : Config) → (validate c ≡ none) ↔ IsValid c
unfolding validate
validate-IsValid c = (
  (λ h.
      let (a, h1) = (refuse-none _ _ _).0 h in
      let (b, h2) = (refuse-none _ _ _).0 h1 in
      let (s, h3) = (and_then-none _ _).0 h2 in
      let (r, h4) = (and_then-none _ _).0 h3 in
      let (x, h5) = (and_then-none _ _).0 h4 in
      let (y, z) = (and_then-none _ _).0 h5 in
      let (rs, _, ids) = (check_rules-none 0 [] c.rules).0 r in
      record {
        api_version = (eq_iff _ _).0 ((not-false _).0 a);
        convention_version = (nonempty _).0 b;
        settings = (check_settings-none _).0 s;
        rules = rs;
        distinct_ids = ids;
        expected_edges = (check_edges-none _ _ _).0 x;
        denied_edges = (check_edges-none _ _ _).0 y;
        ignored_edges = (check_edges-none _ _ _).0 z;
      }),
  (λ v. (refuse-none _ _ _).1 (
    (not-false _).1 ((eq_iff _ _).1 v.api_version),
    (refuse-none _ _ _).1 (
      (nonempty _).1 v.convention_version,
      (and_then-none _ _).1 (
        (check_settings-none _).1 v.settings,
        (and_then-none _ _).1 (
          (check_rules-none 0 [] c.rules).1 (v.rules, unseen_none c.rules, v.distinct_ids),
          (and_then-none _ _).1 (
            (check_edges-none _ _ _).1 v.expected_edges,
            (and_then-none _ _).1 (
              (check_edges-none _ _ _).1 v.denied_edges,
              (check_edges-none _ _ _).1 v.ignored_edges,
            ),
          ),
        ),
      ),
    ),
  )),
)
  where
    unseen_none : (rules : List Rule) → Unseen [] rules
    unseen_none [] = tt
    unseen_none (r ∷ rest) = (tt, unseen_none rest)

-- ===== src/Config/Defs.antt =====
-- The configuration of internal/config/config.go, Validate and ViolatesPolicy. An error is a value with
-- what its message names.
use async_trace_doctor.Common.{
  ℕ, suc, String, Bool, true, false, not, ◌&&◌, ◌||◌, Option, none, some, List, [], ◌∷◌, leb, any,
  ◌==◌, if◌then◌else◌,
}
use async_trace_doctor.Common.Int.{ℤ, pos, leb_ℤ, ltb_ℤ}
use async_trace_doctor.Model.{Duration}

pub record Settings : Type 0 where
  pub correlation_window : Duration
  pub queue_latency : Duration
  pub clock_skew_tolerance : Duration
  pub duplicate_threshold : ℤ
  pub fail_on_severity : String
  pub input_completeness : String
  pub fail_on_insufficient_evidence : Bool

pub record AppliesTo : Type 0 where
  pub operations : List String
  pub systems : List String
  pub services : List String
  pub destinations : List String
  pub environments : List String

pub record Rule : Type 0 where
  pub id : String
  pub check : String
  pub enabled : Bool
  pub severity : String
  pub message : String
  pub suggested_fix : String
  pub applies_to : AppliesTo

pub record ExpectedEdge : Type 0 where
  pub producer : String
  pub system : String
  pub destination : String
  pub consumer : String
  pub consumer_group : String
  pub subscription : String
  pub environment : String
  pub service_namespace : String
  pub destination_namespace : String
  pub broker_address : String
  pub require_per_message : Bool

pub record Topology : Type 0 where
  pub expected_edges : List ExpectedEdge
  pub denied_edges : List ExpectedEdge
  pub ignored_edges : List ExpectedEdge

pub record Config : Type 0 where
  pub api_version : String
  pub semantic_convention_version : String
  pub settings : Settings
  pub redact_attributes : List String
  pub rules : List Rule
  pub topology : Topology

abbrev pub valid_checks : List String
valid_checks =
    "missing_service_name" ∷ "missing_messaging_system" ∷ "missing_destination"
    ∷ "invalid_operation" ∷ "invalid_span_kind" ∷ "missing_consumer_context"
    ∷ "invalid_span_identity" ∷ "invalid_timestamps" ∷ "invalid_context_reference"
    ∷ "orphan_producer" ∷ "orphan_consumer" ∷ "batch_links_incomplete" ∷ "duplicate_processing"
    ∷ "queue_latency_high" ∷ "clock_skew" ∷ "runtime_topology_mismatch"
    ∷ "unresolved_consumer_context" ∷ []

-- A text stands in a list: `m[x]` of a map to bool.
unfoldable pub contains : List String → String → Bool
contains xs x = any (λ v. v == x) xs

-- rank, ok := severityRank[severity]
unfoldable pub severity_rank : String → Option ℕ
severity_rank s =
    if s == "info"
    then some 0
    else if s == "warning"
    then some 1
    else if s == "error"
    then some 2
    else if s == "critical"
    then some 3
    else none

-- _, ok := severityRank[severity]
abbrev pub is_severity : Option ℕ → Bool
is_severity none = false
is_severity (some n) = true

-- severityRank[severity]: zero for a missing key.
abbrev pub rank_of : Option ℕ → ℕ
rank_of none = 0
rank_of (some n) = n

pub data EdgeSet : Type 0 where
  expected denied ignored : EdgeSet

abbrev pub is_expected : EdgeSet → Bool
is_expected expected = true
is_expected _ = false

pub data ConfigError : Type 0 where
  unsupported_api_version convention_version_required window_not_positive latency_not_positive
        tolerance_negative threshold_too_small invalid_fail_on_severity invalid_completeness :
      ConfigError
  empty_or_duplicate_id : ℕ → String → ConfigError
  unknown_check : String → String → ConfigError
  invalid_severity : String → String → ConfigError
  message_or_fix_missing : String → ConfigError
  incomplete_edge : EdgeSet → ℕ → ConfigError
  per_message_not_expected : EdgeSet → ℕ → ConfigError

-- What Validate answers: `none` is the nil error.
abbrev pub Validation : Type 0
Validation = Option ConfigError

-- if bad { return e }; and on with what follows.
abbrev pub refuse : Bool → ConfigError → Validation → Validation
refuse true e rest = some e
refuse false e rest = rest

-- The tests of the loop over the rules, in their order, at the rule `i`.
unfoldable pub check_rule : ℕ → List String → Rule → Validation
unfolding contains severity_rank
check_rule i seen r = refuse (r.id == "" || contains seen r.id) (empty_or_duplicate_id i r.id) (
    refuse (not (contains valid_checks r.check)) (unknown_check r.id r.check) (
      refuse (not (is_severity (severity_rank r.severity))) (invalid_severity r.id r.severity)
        (refuse (r.message == "" || r.suggested_fix == "") (message_or_fix_missing r.id) none)))

unfoldable pub check_rules : ℕ → List String → List Rule → Validation
unfolding check_rule
check_rules i seen [] = none
check_rules i seen (r ∷ rest) = elim (check_rule i seen r) [
  | some e ↦ some e
  | none ↦ check_rules (suc i) (r.id ∷ seen) rest
]

unfoldable pub check_edge : EdgeSet → ℕ → ExpectedEdge → Validation
check_edge set i edge =
    refuse
      (edge.producer == "" || edge.system == "" || edge.destination == "" || edge.consumer == "")
      (incomplete_edge set i)
      (refuse (not (is_expected set) && edge.require_per_message) (per_message_not_expected set i)
        none)

unfoldable pub check_edges : EdgeSet → ℕ → List ExpectedEdge → Validation
unfolding check_edge
check_edges set i [] = none
check_edges set i (edge ∷ rest) = elim (check_edge set i edge) [
  | some e ↦ some e
  | none ↦ check_edges set (suc i) rest
]

-- One check and then another.
abbrev pub and_then : Validation → Validation → Validation
and_then (some e) next = some e
and_then none next = next

unfoldable pub check_settings : Settings → Validation
unfolding severity_rank
check_settings s = refuse (leb_ℤ s.correlation_window (pos 0)) window_not_positive (
    refuse (leb_ℤ s.queue_latency (pos 0)) latency_not_positive (
      refuse (ltb_ℤ s.clock_skew_tolerance (pos 0)) tolerance_negative (
        refuse (ltb_ℤ s.duplicate_threshold (pos 1)) threshold_too_small (
          refuse (not (is_severity (severity_rank s.fail_on_severity))) invalid_fail_on_severity (
            refuse
              (not (s.input_completeness == "")
                && not (s.input_completeness == "complete")
                && not (s.input_completeness == "unknown"))
              invalid_completeness none)))))

unfoldable pub validate : Config → Validation
unfolding check_settings check_rules check_edges
validate c =
    refuse (not (c.api_version == "asynctracedoctor.io/v1alpha1")) unsupported_api_version (
      refuse (c.semantic_convention_version == "") convention_version_required (
        and_then (check_settings c.settings) (
          and_then (check_rules 0 [] c.rules) (
            and_then (check_edges expected 0 c.topology.expected_edges) (
              and_then (check_edges denied 0 c.topology.denied_edges)
                (check_edges ignored 0 c.topology.ignored_edges))))))

unfoldable pub violates_policy : Config → String → Bool
unfolding severity_rank
violates_policy c severity =
    leb (rank_of (severity_rank c.settings.fail_on_severity)) (rank_of (severity_rank severity))

-- ===== src/Rules/Topology.antt =====
-- Edges of the topology in internal/model/model.go and internal/rules/engine.go, and their match against
-- the edges of the configuration.
use async_trace_doctor.Common.{
  ℕ, suc, String, Bool, ◌&&◌, Option, none, some, List, [], ◌∷◌, if◌then◌else◌,
}
use async_trace_doctor.Config.{ExpectedEdge}
use async_trace_doctor.Rules.Absence.{wildcard_match, optional_match}

pub record Edge : Type 0 where
  pub producer : String
  pub system : String
  pub destination : String
  pub consumer : String
  pub consumer_group : String
  pub subscription : String
  pub environment : String
  pub service_namespace : String
  pub destination_namespace : String
  pub broker_address : String
  pub count : ℕ

unfoldable pub edge_matches : ExpectedEdge → Edge → Bool
unfolding wildcard_match optional_match
edge_matches x o =
    wildcard_match x.producer o.producer
    && wildcard_match x.consumer o.consumer
    && wildcard_match x.system o.system
    && wildcard_match x.destination o.destination
    && optional_match x.consumer_group o.consumer_group
    && optional_match x.subscription o.subscription
    && optional_match x.environment o.environment
    && optional_match x.service_namespace o.service_namespace
    && optional_match x.destination_namespace o.destination_namespace
    && optional_match x.broker_address o.broker_address

unfoldable pub matching_from : ℕ → List ExpectedEdge → Edge → Option ℕ
unfolding edge_matches
matching_from i [] observed = none
matching_from i (edge ∷ rest) observed =
    let later = matching_from (suc i) rest observed in
    if edge_matches edge observed then some i else later

-- matchingEdge: `none` is the answer -1.
unfoldable pub matching_edge : List ExpectedEdge → Edge → Option ℕ
unfolding matching_from
matching_edge edges observed = matching_from 0 edges observed

-- ===== src/Rules/Edges.antt =====
-- buildTopology of internal/rules/engine.go: the edges that the correlations show, with their counts.
use Prim.Native.String.{compare}
use text.Mathlib.Text.{is_lt}
use async_trace_doctor.Common.{
  suc, String, Bool, not, Option, none, some, List, [], ◌∷◌, map, get_elem?, ◌>>=◌, ◌==◌,
  if◌then◌else◌,
}
use async_trace_doctor.Common.Dict
use async_trace_doctor.Common.Dict.{Dict}
use async_trace_doctor.Common.Texts.{join}
use async_trace_doctor.Model.{
  Span, system, destination, consumer_group, subscription, environment, service_namespace,
  destination_namespace, server_address,
}
use async_trace_doctor.Correlation.{Correlation}
use async_trace_doctor.Rules.Topology.{Edge}

-- The edge of a producer and a consumer, before it is counted.
unfoldable pub edge_of : Span → Span → Edge
edge_of p co = record {
  producer = p.service;
  system = system p;
  destination = destination p;
  consumer = co.service;
  consumer_group = consumer_group co;
  subscription = subscription co;
  environment = environment p;
  service_namespace = service_namespace p;
  destination_namespace = destination_namespace p;
  broker_address = server_address p;
  count = 0;
}

unfoldable pub edge_key : Span → Span → String
unfolding join
edge_key p co = join "\0" (
    p.service
    ∷ system p
    ∷ destination p
    ∷ co.service
    ∷ consumer_group co
    ∷ subscription co
    ∷ environment p
    ∷ service_namespace p
    ∷ destination_namespace p
    ∷ server_address p
    ∷ [])

-- if m[k] == nil { m[k] = edge }
unfoldable pub found_or : Option Edge → Edge → Edge
found_or none edge = edge
found_or (some e) edge = e

-- The body of the loop over the correlations, at the two spans.
unfoldable pub count_edge : Span → Span → Dict Edge → Dict Edge
unfolding edge_key edge_of found_or Dict.get Dict.put
count_edge p co m =
    let e : Edge = found_or (Dict.get (edge_key p co) m) (edge_of p co) in
    Dict.put (edge_key p co) (record e { count = suc e.count }) m

unfoldable pub count_edges : List Span → List Correlation → Dict Edge → Option (Dict Edge)
unfolding count_edge
count_edges spans [] m = some m
count_edges spans (x ∷ rest) m = get_elem? spans x.producer_index >>= λ p.
    get_elem? spans x.consumer_index >>= λ co. count_edges spans rest (count_edge p co m)

abbrev text_less : String → String → Bool
text_less a b = is_lt (compare a b)

-- if a != b { return a < b }; and on with what follows.
unfoldable pub ordered_by : String → String → Bool → Bool
ordered_by a b rest = if not (a == b) then text_less a b else rest

unfoldable pub edge_less : Edge → Edge → Bool
unfolding ordered_by
edge_less a b = ordered_by a.producer b.producer (
    ordered_by a.system b.system (
      ordered_by a.destination b.destination (
        ordered_by a.consumer b.consumer (
          ordered_by a.consumer_group b.consumer_group (
            ordered_by a.subscription b.subscription (
              ordered_by a.environment b.environment (
                ordered_by a.service_namespace b.service_namespace (
                  ordered_by a.destination_namespace b.destination_namespace
                    (text_less a.broker_address b.broker_address)))))))))

unfoldable pub insert_edge : Edge → List Edge → List Edge
unfolding edge_less
insert_edge e [] = e ∷ []
insert_edge e (f ∷ fs) =
    let rest = insert_edge e fs in if edge_less e f then e ∷ f ∷ fs else f ∷ rest

-- sort.Slice: no two edges of the map agree in all that edge_less reads, so there is one order.
unfoldable pub sort_edges : List Edge → List Edge
unfolding insert_edge
sort_edges [] = []
sort_edges (e ∷ es) = insert_edge e (sort_edges es)

abbrev pub values : Dict Edge → List Edge
values m = map (λ entry. entry.1) m

unfoldable pub build_topology : List Span → List Correlation → Option (List Edge)
unfolding count_edges sort_edges
build_topology spans correlations =
    count_edges spans correlations [] >>= λ m. some (sort_edges (values m))

-- ===== src/Tests/Samples.antt =====
-- The sample spans and stores.
use async_trace_doctor.Common.{ℕ, ◌+◌, List, [], ◌∷◌}
use async_trace_doctor.Model.{Span, Link, empty_span, unix_epoch, str}
use async_trace_doctor.Store.{Store, zero_metrics, new_store}

abbrev pub sent : Span
sent = record empty_span {
  trace_id = "0af7651916cd43dd8448eb211c80319c";
  span_id = "b7ad6b7169203331";
  name = "send orders";
  kind = "PRODUCER";
  service = "orders";
  start = unix_epoch + 1000000000;
  end = unix_epoch + 2000000000;
  attributes =
      ("messaging.destination.name", str "orders")
      ∷ ("messaging.operation.type", str "send")
      ∷ ("messaging.system", str "kafka")
      ∷ [];
}

abbrev pub link_to_sent : Link
link_to_sent = record {
  trace_id = "0af7651916cd43dd8448eb211c80319c";
  span_id = "b7ad6b7169203331";
  attributes = [];
  flags = 1;
  dropped_attributes_count = 0;
}

abbrev pub processed : Span
processed = record empty_span {
  trace_id = "4bf92f3577b34da6a3ce929d0e0e4736";
  span_id = "00f067aa0ba902b7";
  name = "process orders";
  kind = "CONSUMER";
  service = "billing";
  start = unix_epoch + 4000000000;
  end = unix_epoch + 5000000000;
  attributes =
      ("messaging.destination.name", str "orders")
      ∷ ("messaging.operation.type", str "process")
      ∷ ("messaging.system", str "kafka")
      ∷ [];
  links = link_to_sent ∷ [];
}

-- The moment at which the receiver takes the spans.
abbrev pub arrival : ℕ
arrival = unix_epoch + 6000000000

-- A store for four spans of a million bytes and at most a minute.
abbrev pub small : Store
small = new_store 4 60000000000 zero_metrics 1000000

abbrev pub export : List Span
export = sent ∷ processed ∷ []

-- ===== src/Tests/IngestTests.antt =====
-- The statements about reading files and messages, at the sample spans and sample messages.
use mathlib.Core.List.{flat_map}
use native.Mathlib.Decide.{ℕ_discrete}
use async_trace_doctor.Common.{
  Bool-cases, ◌≡◌, refl, ◌++◌, some, List, [], ◌∷◌, ℕ, ◌<◌, String, All, map, arith,
}
use async_trace_doctor.Common.Int.{pos}
use async_trace_doctor.Model.{Span, Attrs, str}
use async_trace_doctor.Ingest.{
  AnyView, string_value, int_value, bytes_value, Messages, from_proto, Json, normalize_text,
}
use async_trace_doctor.Ingest.Redaction.{IsRedacted, from_proto-IsRedacted}
use async_trace_doctor.Ingest.RoundTrip.{
  identifier_text, normal_text, normalize_text-identifier_text,
}
use async_trace_doctor.Common.Dict
use async_trace_doctor.Common.Texts.{String-discrete}
use async_trace_doctor.Store.{deep_equal}
use async_trace_doctor.Ingest.{
  Deduplicated, distinct, identity, dedup_content_hash, deduplicate_spans,
}
use async_trace_doctor.Ingest.Tracking.{IsRight}
use async_trace_doctor.Ingest.Distinct.{deduplicate_spans-IsRight}
use async_trace_doctor.Tests.Samples.{export}

twice_lem : deduplicate_spans (export ++ export) ≡ some (distinct export)
unfolding deduplicate_spans identity dedup_content_hash deep_equal String-discrete Bool-cases
    Dict.get Dict.put flat_map ℕ_discrete
twice_lem = refl

deduplicate_spans-IsRight_example :
    (d : Deduplicated) × (deduplicate_spans (export ++ export) ≡ some d)
    × IsRight (export ++ export) d
deduplicate_spans-IsRight_example = deduplicate_spans-IsRight (export ++ export)

-- Messages of one kind of attribute each, with the identifiers of the sample producer.
abbrev pub Pair : Type 0
Pair = String × AnyView

abbrev pub sample_messages : Messages
sample_messages = record {
  ResourceSpans = List Pair × List (List (List Pair × List (List Pair)));
  ScopeSpans = List (List Pair × List (List Pair));
  SpanMessage = List Pair × List (List Pair);
  LinkMessage = List Pair;
  KeyValue = Pair;
  key_of = λ kv. kv.0;
  view_of = λ kv. kv.1;
  resource_attributes = λ r. r.0;
  scope_spans = λ r. r.1;
  spans_of = λ s. s;
  trace_id = λ s. 0x0a ∷ 0xf7 ∷ [];
  span_id = λ s. 0xb7 ∷ [];
  parent_span_id = λ s. 0 ∷ 0 ∷ [];
  name = λ s. "send";
  kind_of = λ s. 4;
  start_time_unix_nano = λ s. 1000000000;
  end_time_unix_nano = λ s. 2000000000;
  attributes = λ s. s.0;
  links_of = λ s. s.1;
  status_code_of = λ s. 2;
  flags = λ s. 1;
  dropped_attributes_count = λ s. 0;
  dropped_links_count = λ s. 0;
  link_trace_id = λ l. 0x0a ∷ [];
  link_span_id = λ l. 0xb7 ∷ [];
  link_attributes = λ l. l;
  link_flags = λ l. 1;
  link_dropped_attributes_count = λ l. 0;
}

abbrev pub resource : List Pair × List (List (List Pair × List (List Pair)))
resource = (
  ("service.name", string_value "orders") ∷ [],
  ((
    ("order.Body", string_value "secret") ∷ ("card", int_value (pos 4)) ∷ [],
    (("http.payload.size", bytes_value 9) ∷ []) ∷ [],
  )
        ∷ [])
      ∷ [],
)

abbrev service_and_attributes : Span → String × Attrs
service_and_attributes s = (s.service, s.attributes)

secrets_gone :
    map service_and_attributes (from_proto sample_messages ("card" ∷ []) (resource ∷ []))
    ≡ ("orders", ("card", str "[REDACTED]") ∷ ("order.Body", str "[REDACTED]") ∷ []) ∷ []
unfolding from_proto
secrets_gone = refl

from_proto-IsRedacted_example :
    All
      (IsRedacted sample_messages ("card" ∷ []))
      (from_proto sample_messages ("card" ∷ []) (resource ∷ []))
from_proto-IsRedacted_example = from_proto-IsRedacted sample_messages ("card" ∷ []) (resource ∷ [])

abbrev span_bytes : List ℕ
span_bytes = 0xb7 ∷ 0xad ∷ 0x6b ∷ 0x71 ∷ 0x69 ∷ 0x20 ∷ 0x33 ∷ 0x31 ∷ []

small_bytes : All (λ b. b < 256) span_bytes
small_bytes = (
  omega arith,
  (
    omega arith,
    (omega arith, (omega arith, (omega arith, (omega arith, (omega arith, (omega arith, tt)))))),
  ),
)

normalize_text-identifier_text_example :
    normalize_text "parentSpanId" (identifier_text "parentSpanId" span_bytes)
    ≡ some (Json.text (normal_text "parentSpanId" span_bytes))
normalize_text-identifier_text_example =
    normalize_text-identifier_text "parentSpanId" span_bytes refl small_bytes

no_parent : normal_text "parentSpanId" (0 ∷ 0 ∷ 0 ∷ 0 ∷ 0 ∷ 0 ∷ 0 ∷ 0 ∷ []) ≡ ""
unfolding normal_text
no_parent = refl

-- ===== src/Ingest/Conversion.antt =====
-- FromProto of internal/ingest/otlp.go. The messages are generated code of the OTLP module: their types
-- and getters are a parameter.
use Prim.Native.String.{◌++◌, compare}
use text.Mathlib.Text.{is_lt, starts_with}
use async_trace_doctor.Common.{
  ℕ, String, Bool, ◌||◌, none, some, List, [], ◌∷◌, ◌++◌ as append, map, nat_eq, ◌==◌,
  if◌then◌else◌,
}
use async_trace_doctor.Common.Int.{ℤ, int64_of_bits}
use async_trace_doctor.Common.Dict
use async_trace_doctor.Common.Texts.{to_lower, decimal}
use async_trace_doctor.Model.{
  Time, unix_epoch, add_duration, Span, Link, Attrs, Value, null, str, boolean, integer, float,
  IntType, FloatType, sprint,
}
use async_trace_doctor.Config.{contains}
use async_trace_doctor.Ingest.Encodings.{hex_encode}
use async_trace_doctor.Ingest.Identifiers.{encode_non_zero_hex}

-- Which member of the oneof an AnyValue holds. A double is what the program reads of it, its text and its
-- integer part; of bytes and of nested values only the number is read.
pub data AnyView : Type 0 where
  no_value : AnyView
  string_value : String → AnyView
  bool_value : Bool → AnyView
  int_value : ℤ → AnyView
  double_value : String → ℤ → AnyView
  bytes_value array_value kvlist_value : ℕ → AnyView

-- The generated messages, and what their getters answer. `view_of` is the value of a KeyValue, `no_value` for
-- a nil value and for one without a member.
pub record Messages : Type 1 where
  pub ResourceSpans : Type 0
  pub ScopeSpans : Type 0
  pub SpanMessage : Type 0
  pub LinkMessage : Type 0
  pub KeyValue : Type 0
  pub key_of : KeyValue → String
  pub view_of : KeyValue → AnyView
  pub resource_attributes : ResourceSpans → List KeyValue
  pub scope_spans : ResourceSpans → List ScopeSpans
  pub spans_of : ScopeSpans → List SpanMessage
  pub trace_id : SpanMessage → List ℕ
  pub span_id : SpanMessage → List ℕ
  pub parent_span_id : SpanMessage → List ℕ
  pub name : SpanMessage → String
  pub kind_of : SpanMessage → ℕ
  pub start_time_unix_nano : SpanMessage → ℕ
  pub end_time_unix_nano : SpanMessage → ℕ
  pub attributes : SpanMessage → List KeyValue
  pub links_of : SpanMessage → List LinkMessage
  pub status_code_of : SpanMessage → ℕ
  pub flags : SpanMessage → ℕ
  pub dropped_attributes_count : SpanMessage → ℕ
  pub dropped_links_count : SpanMessage → ℕ
  pub link_trace_id : LinkMessage → List ℕ
  pub link_span_id : LinkMessage → List ℕ
  pub link_attributes : LinkMessage → List KeyValue
  pub link_flags : LinkMessage → ℕ
  pub link_dropped_attributes_count : LinkMessage → ℕ

-- strings.Contains, strings.HasSuffix
unfoldable pub has_infix : String → String → Bool
has_infix String.[] part = part == ""
has_infix (String.◌∷◌ c s) part = starts_with (String.◌∷◌ c s) part || has_infix s part

unfoldable pub has_suffix : String → String → Bool
has_suffix String.[] end = end == ""
has_suffix (String.◌∷◌ c s) end = String.◌∷◌ c s == end || has_suffix s end

unfoldable pub is_payload_attribute : String → Bool
unfolding to_lower has_infix has_suffix
is_payload_attribute key =
    has_infix (to_lower key) "payload"
    || has_suffix (to_lower key) ".body"
    || has_suffix (to_lower key) ".body.content"

unfoldable pub value : AnyView → Value
unfolding decimal
value no_value = null
value (string_value s) = str s
value (bool_value b) = boolean b
value (int_value n) = integer IntType.int64 n
value (double_value s n) = float FloatType.float64 s n
value (bytes_value n) = str ("[" ++ (decimal n ++ " bytes]"))
value (array_value n) = str ("[" ++ (decimal n ++ " values]"))
value (kvlist_value n) = str ("{" ++ (decimal n ++ " attributes}"))

-- out[k] = v, in the order of the keys
unfoldable pub put_sorted : String → Value → Attrs → Attrs
put_sorted k v [] = (k, v) ∷ []
put_sorted k v ((j, w) ∷ m) =
    let rest = put_sorted k v m in
    if j == k
    then (k, v) ∷ m
    else if is_lt (compare k j)
    then (k, v) ∷ (j, w) ∷ m
    else (j, w) ∷ rest

unfoldable pub string_attr : Attrs → String → String
unfolding sprint Dict.get
string_attr m k = elim (Dict.get k m) [ none ↦ "" | some v ↦ sprint v ]

-- The span kinds and the status codes by their numbers in the OTLP schema.
unfoldable pub kind : ℕ → String
kind k =
    if nat_eq k 1
    then "INTERNAL"
    else if nat_eq k 2
    then "SERVER"
    else if nat_eq k 3
    then "CLIENT"
    else if nat_eq k 4
    then "PRODUCER"
    else if nat_eq k 5
    then "CONSUMER"
    else "UNSPECIFIED"

unfoldable pub status_code : ℕ → String
status_code code = if nat_eq code 1 then "OK" else if nat_eq code 2 then "ERROR" else "UNSET"

-- time.Unix(0, int64(n)).UTC()
unfoldable pub unix_nano : ℕ → Time
unfolding add_duration
unix_nano n = add_duration unix_epoch (int64_of_bits n)

-- The key's value is replaced: redacted[k] || isPayloadAttribute(k).
unfoldable pub is_redacted : List String → String → Bool
unfolding contains is_payload_attribute
is_redacted redact k = contains redact k || is_payload_attribute k

module _ (M : Messages) (redact : List String) where
  -- The value that attrs stores for a key.
  unfoldable pub stored : M.KeyValue → Value
  unfolding is_redacted value
  stored kv = if is_redacted redact (M.key_of kv) then str "[REDACTED]" else value (M.view_of kv)

  unfoldable pub add_attrs : List M.KeyValue → Attrs → Attrs
  unfolding stored put_sorted
  add_attrs [] out = out
  add_attrs (kv ∷ kvs) out = add_attrs kvs (put_sorted (M.key_of kv) (stored kv) out)

  unfoldable pub attrs : List M.KeyValue → Attrs
  unfolding add_attrs
  attrs kvs = add_attrs kvs []

  unfoldable pub link_from : M.LinkMessage → Link
  unfolding attrs hex_encode
  link_from l = record {
    trace_id = hex_encode (M.link_trace_id l);
    span_id = hex_encode (M.link_span_id l);
    attributes = attrs (M.link_attributes l);
    flags = M.link_flags l;
    dropped_attributes_count = M.link_dropped_attributes_count l;
  }

  unfoldable pub span_from : Attrs → M.SpanMessage → Span
  unfolding attrs hex_encode encode_non_zero_hex kind status_code unix_nano link_from string_attr
  span_from resource_attrs s = record {
    trace_id = hex_encode (M.trace_id s);
    span_id = hex_encode (M.span_id s);
    parent_span_id = encode_non_zero_hex (M.parent_span_id s);
    name = M.name s;
    kind = kind (M.kind_of s);
    service = string_attr resource_attrs "service.name";
    start = unix_nano (M.start_time_unix_nano s);
    end = unix_nano (M.end_time_unix_nano s);
    attributes = attrs (M.attributes s);
    resource_attributes = resource_attrs;
    links = map link_from (M.links_of s);
    status_code = status_code (M.status_code_of s);
    flags = M.flags s;
    dropped_attributes_count = M.dropped_attributes_count s;
    dropped_links_count = M.dropped_links_count s;
  }

  unfoldable pub spans_of_scopes : Attrs → List M.ScopeSpans → List Span
  unfolding span_from
  spans_of_scopes resource_attrs [] = []
  spans_of_scopes resource_attrs (ss ∷ rest) =
      append (map (span_from resource_attrs) (M.spans_of ss)) (spans_of_scopes resource_attrs rest)

  unfoldable pub from_proto : List M.ResourceSpans → List Span
  unfolding attrs spans_of_scopes
  from_proto [] = []
  from_proto (rs ∷ rest) =
      append (spans_of_scopes (attrs (M.resource_attributes rs)) (M.scope_spans rs))
        (from_proto rest)

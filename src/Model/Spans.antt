-- ===== src/Model/Spans.antt =====
-- Link, Span and their accessors.
use Prim.Native.Char.{code}
use Prim.Native.String.{◌++◌, len}
use native.Mathlib.Decide.{ℕ_discrete}
use async_trace_doctor.Common.{
  ℕ, String, Bool, true, ◌&&◌, ◌||◌, not, List, [], leb, nat_eq, ◌==◌, if◌then◌else◌,
}
use async_trace_doctor.Common.Texts.{to_lower, equal_fold, trim_zeros, String-discrete}
use async_trace_doctor.Common.Int.{ℤ-discrete}
use async_trace_doctor.Model.Clock.{Time}
use async_trace_doctor.Model.Attributes.{Attrs, attr_string}

pub record Link : Type 0 where
  pub trace_id : String
  pub span_id : String
  pub attributes : Attrs
  pub flags : ℕ  -- uint32
  pub dropped_attributes_count : ℕ  -- uint32

pub record Span : Type 0 where
  pub trace_id : String
  pub span_id : String
  pub parent_span_id : String
  pub name : String
  pub kind : String
  pub service : String
  pub start : Time
  pub end : Time
  pub attributes : Attrs
  pub resource_attributes : Attrs
  pub links : List Link
  pub status_code : String
  pub flags : ℕ  -- uint32
  pub dropped_attributes_count : ℕ  -- uint32
  pub dropped_links_count : ℕ  -- uint32

-- The zero Span of Go.
abbrev pub empty_span : Span
empty_span = record {
  trace_id = "";
  span_id = "";
  parent_span_id = "";
  name = "";
  kind = "";
  service = "";
  start = 0;
  end = 0;
  attributes = [];
  resource_attributes = [];
  links = [];
  status_code = "";
  flags = 0;
  dropped_attributes_count = 0;
  dropped_links_count = 0;
}

is_hex_code : ℕ → Bool
is_hex_code c =
    (leb b'0' c && leb c b'9') || (leb b'a' c && leb c b'f') || (leb b'A' c && leb c b'F')

-- A byte of a character outside ASCII is no hexadecimal digit, and neither is the character.
unfoldable pub is_hex : String → Bool
unfolding is_hex_code
is_hex String.[] = true
is_hex (String.◌∷◌ c s) = is_hex_code (code c) && is_hex s

unfoldable pub has_valid_trace_id : String → Bool
unfolding is_hex trim_zeros
has_valid_trace_id s = nat_eq (len s) 32 && not (trim_zeros s == "") && is_hex s

unfoldable pub has_valid_span_id : String → Bool
unfolding is_hex trim_zeros
has_valid_span_id s = nat_eq (len s) 16 && not (trim_zeros s == "") && is_hex s

-- l.HasValidContext()
unfoldable pub link_has_valid_context : Link → Bool
unfolding has_valid_trace_id has_valid_span_id
link_has_valid_context l = has_valid_trace_id l.trace_id && has_valid_span_id l.span_id

-- s.HasValidContext(), s.HasValidParentContext()
unfoldable pub has_valid_context : Span → Bool
unfolding has_valid_trace_id has_valid_span_id
has_valid_context s = has_valid_trace_id s.trace_id && has_valid_span_id s.span_id

unfoldable pub has_valid_parent_context : Span → Bool
unfolding has_valid_trace_id has_valid_span_id
has_valid_parent_context s = has_valid_trace_id s.trace_id && has_valid_span_id s.parent_span_id

unfoldable pub operation : Span → String
unfolding to_lower attr_string
operation s = to_lower (attr_string s.attributes "messaging.operation.type")

unfoldable pub system : Span → String
unfolding attr_string
system s = attr_string s.attributes "messaging.system"

unfoldable pub destination : Span → String
unfolding attr_string
destination s = attr_string s.attributes "messaging.destination.name"

unfoldable pub message_id : Span → String
unfolding attr_string
message_id s = attr_string s.attributes "messaging.message.id"

unfoldable pub consumer_group : Span → String
unfolding attr_string
consumer_group s = attr_string s.attributes "messaging.consumer.group.name"

unfoldable pub subscription : Span → String
unfolding attr_string
subscription s = attr_string s.attributes "messaging.destination.subscription.name"

unfoldable pub environment : Span → String
unfolding attr_string
environment s =
    let v = attr_string s.resource_attributes "deployment.environment.name" in
    if not (v == "") then v else attr_string s.resource_attributes "deployment.environment"

unfoldable pub service_namespace : Span → String
unfolding attr_string
service_namespace s = attr_string s.resource_attributes "service.namespace"

unfoldable pub destination_namespace : Span → String
unfolding attr_string
destination_namespace s = attr_string s.attributes "messaging.destination.namespace"

unfoldable pub server_address : Span → String
unfolding attr_string
server_address s = attr_string s.attributes "server.address"

unfoldable pub partition : Span → String
unfolding attr_string
partition s = attr_string s.attributes "messaging.destination.partition.id"

unfoldable pub kafka_offset : Span → String
unfolding attr_string
kafka_offset s = attr_string s.attributes "messaging.kafka.offset"

-- s.MessageIdentity(): the kind of the identity and the identity; a pair of empty texts is none.
unfoldable pub message_identity : Span → String × String
unfolding message_id system partition kafka_offset equal_fold
message_identity s =
    if not (message_id s == "")
    then ("message_id", message_id s)
    else if equal_fold (system s) "kafka" && not (partition s == "") && not (kafka_offset s == "")
    then ("kafka_partition_offset", partition s ++ ("/" ++ kafka_offset s))
    else ("", "")

unfoldable pub failed : Span → Bool
unfolding equal_fold attr_string
failed s = equal_fold s.status_code "ERROR" || not (attr_string s.attributes "error.type" == "")

unfoldable pub is_producer : Span → Bool
unfolding operation
is_producer s = operation s == "create" || operation s == "send"

unfoldable pub is_consumer : Span → Bool
unfolding operation
is_consumer s = operation s == "process" || operation s == "receive"

-- Equality of all fields: reflect.DeepEqual on two spans.
unfoldable pub Span-discrete : Discrete Span
Span-discrete = hlevel (ℕ_discrete, String-discrete, ℤ-discrete)

-- ===== src/Store/Digest.antt =====
-- What internal/server/store.go computes of one span: its identity, its content hash, and the
-- estimate of the bytes that it takes.
use Prim.Native.String.{◌++◌, len}
use mathlib.Core.List.{flat_map}
use async_trace_doctor.Common.{
  ℕ, ◌+◌, ◌-◌, ◌*◌, ◌%◌, ◌^◌, String, Bool, false, not, ◌||◌, any, none, some, List, [], ◌∷◌,
  ◌++◌ as append, map, length, ◌==◌, if◌then◌else◌,
}
use async_trace_doctor.Common.Dict
use async_trace_doctor.Common.Fnv.{fnv64a, text_bytes, word_bytes, sort_texts}
use async_trace_doctor.Model.{
  Time, unix_epoch, Value, null, str, boolean, integer, float, bytes, json_number, other, IntType,
  Attrs, sprint, Link, Span, Span-discrete,
}

unfoldable pub span_identity : Span → String
span_identity span =
    if span.trace_id == "" || span.span_id == "" then "" else span.trace_id ++ ("/" ++ span.span_id)

-- The text and a zero byte, as the hash is fed.
unfoldable pub field_bytes : String → List ℕ
unfolding text_bytes
field_bytes s = append (text_bytes s) (0 ∷ [])

-- uint64(t.UnixNano()): the nanoseconds since the Unix epoch, on 64 bits.
unfoldable pub unix_nano_bits : Time → ℕ
unix_nano_bits t = (t + 4 * 2 ^ 64 - unix_epoch) % 2 ^ 64

unfoldable pub entry_bytes : Attrs → String → List ℕ
unfolding field_bytes sprint Dict.get
entry_bytes m k = elim (Dict.get k m) [
  | none ↦ []
  | some v ↦ append (field_bytes k) (field_bytes (sprint v))
]

unfoldable pub map_bytes : Attrs → List ℕ
unfolding entry_bytes sort_texts
map_bytes m = flat_map (entry_bytes m) (sort_texts (map (λ e. e.0) m))

unfoldable pub span_content_hash : Span → ℕ
unfolding field_bytes unix_nano_bits map_bytes fnv64a word_bytes
span_content_hash span = fnv64a (
    append
      (flat_map field_bytes (
        span.trace_id ∷ span.span_id ∷ span.parent_span_id ∷ span.name ∷ span.kind ∷ span.service
        ∷ span.status_code ∷ []))
      (append (word_bytes (unix_nano_bits span.start)) (
        append (word_bytes (unix_nano_bits span.end))
          (append (map_bytes span.attributes) (map_bytes span.resource_attributes)))))

-- A NaN, which is not equal to itself.
is_nan : Value → Bool
is_nan (float t text n) = text == "NaN"
is_nan _ = false

holds_nan : Attrs → Bool
unfolding is_nan
holds_nan m = any (λ e. is_nan e.1) m

unfoldable pub has_nan : Span → Bool
unfolding holds_nan
has_nan s =
    holds_nan s.attributes
    || (holds_nan s.resource_attributes || any (λ (l : Link). holds_nan l.attributes) s.links)

-- reflect.DeepEqual on two spans that share no map: the comparison goes through the values.
unfoldable pub deep_equal : Span → Span → Bool
unfolding Span-discrete has_nan
deep_equal a b = elim (Span-discrete a b) [ yes _ ↦ not (has_nan a) | no _ ↦ false ]

integer_bytes : IntType → Value → ℕ
unfolding sprint
integer_bytes IntType.int v = 10
integer_bytes IntType.int32 v = 10
integer_bytes IntType.uint32 v = 10
integer_bytes IntType.int64 v = 12
integer_bytes IntType.uint64 v = 12
integer_bytes _ v = len (sprint v)

value_bytes : Value → ℕ
unfolding integer_bytes sprint
value_bytes null = 0
value_bytes (str s) = len s
value_bytes (boolean b) = 5
value_bytes (integer t n) = integer_bytes t (integer t n)
value_bytes (float t text n) = 12
value_bytes (bytes bs) = length bs
value_bytes (json_number s) = len s
value_bytes (other s) = len s

unfoldable pub estimate_map_bytes : Attrs → ℕ
unfolding value_bytes
estimate_map_bytes [] = 0
estimate_map_bytes ((key, value) ∷ rest) =
    64 + len key + value_bytes value + estimate_map_bytes rest

estimate_links_bytes : List Link → ℕ
unfolding estimate_map_bytes
estimate_links_bytes [] = 0
estimate_links_bytes (l ∷ rest) =
    64
    + len l.trace_id
    + len l.span_id
    + estimate_map_bytes l.attributes
    + estimate_links_bytes rest

-- An int64 in Go, which no span in memory is large enough to overflow.
unfoldable pub estimate_span_bytes : Span → ℕ
unfolding estimate_links_bytes estimate_map_bytes
estimate_span_bytes span =
    192
    + len span.trace_id
    + len span.span_id
    + len span.parent_span_id
    + len span.name
    + len span.kind
    + len span.service
    + len span.status_code
    + (estimate_map_bytes span.attributes + estimate_map_bytes span.resource_attributes)
    + estimate_links_bytes span.links

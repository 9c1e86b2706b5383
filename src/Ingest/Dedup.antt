-- ===== src/Ingest/Dedup.antt =====
-- deduplicateSpans of internal/ingest/otlp.go. `none` stands for a panic: the read of an element that
-- the slice of retained spans does not have.
use Prim.Native.String.{◌++◌}
use mathlib.Core.List.{flat_map}
use async_trace_doctor.Common.{
  ℕ, String, Bool, true, false, ◌||◌, Option, none, some, List, [], ◌∷◌, ◌++◌ as append, length,
  get_elem?, nat_eq, ◌==◌, if◌then◌else◌,
}
use async_trace_doctor.Common.Dict
use async_trace_doctor.Common.Dict.{Dict}
use async_trace_doctor.Common.Fnv.{fnv64a, word_bytes}
use async_trace_doctor.Model.{Span}
use async_trace_doctor.Store.{field_bytes, unix_nano_bits, map_bytes, deep_equal}

-- The `entry` of deduplicateSpans.
pub record Seen : Type 0 where
  pub index : ℕ
  pub hash : ℕ

-- The two results of deduplicateSpans: the error that names an identity, or the spans.
pub data Deduplicated : Type 0 where
  conflicting : String → Deduplicated
  distinct : List Span → Deduplicated

unfoldable pub dedup_content_hash : Span → ℕ
unfolding field_bytes unix_nano_bits map_bytes fnv64a word_bytes
dedup_content_hash span = fnv64a (
    append
      (flat_map field_bytes (
        span.trace_id ∷ span.span_id ∷ span.parent_span_id ∷ span.name ∷ span.kind ∷ span.service
        ∷ span.status_code ∷ []))
      (append (word_bytes (unix_nano_bits span.start)) (
        append (word_bytes (unix_nano_bits span.end))
          (append (map_bytes span.attributes) (map_bytes span.resource_attributes)))))

-- span.TraceID == "" || span.SpanID == ""
abbrev pub is_nameless : Span → Bool
is_nameless span = span.trace_id == "" || span.span_id == ""

unfoldable pub identity : Span → String
identity span = span.trace_id ++ ("/" ++ span.span_id)

-- What the loop's body finds a span to be.
pub data Occurrence : Type 0 where
  nameless first repeated differing : Occurrence

abbrev pub same_or_not : Bool → Occurrence
same_or_not true = repeated
same_or_not false = differing

-- existing.hash != hash || !reflect.DeepEqual(out[existing.index], span)
unfoldable pub compare_seen : List Span → Seen → Span → Option Occurrence
compare_seen out e span =
    if nat_eq e.hash (dedup_content_hash span)
    then (elim (get_elem? out e.index) [
      | none ↦ none
      | some old ↦ some (same_or_not (deep_equal old span))
    ])
    else some differing

unfoldable pub occurrence : Dict Seen → List Span → Span → Option Occurrence
unfolding compare_seen
occurrence seen out span =
    if is_nameless span then some nameless else (elim (Dict.get (identity span) seen) [
      | none ↦ some first
      | some e ↦ compare_seen out e span
    ])

unfoldable pub deduplicate_loop : List Span → Dict Seen → List Span → Option Deduplicated
unfolding occurrence
deduplicate_loop [] seen out = some (distinct out)
deduplicate_loop (span ∷ rest) seen out = elim (occurrence seen out span) [
  | none ↦ none
  | some o ↦ elim o [
    | nameless ↦ deduplicate_loop rest seen (append out (span ∷ []))
    | repeated ↦ deduplicate_loop rest seen out
    | differing ↦ some (conflicting (identity span))
    | first ↦
        deduplicate_loop rest
          (Dict.put (identity span) (record { index = length out; hash = dedup_content_hash span })
            seen)
          (append out (span ∷ []))
  ]
]

unfoldable pub deduplicate_spans : List Span → Option Deduplicated
unfolding deduplicate_loop
deduplicate_spans spans = deduplicate_loop spans [] []

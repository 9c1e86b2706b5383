-- ===== src/Rules/Cases.antt =====
-- The findings of run in internal/rules/engine.go about single spans and single correlations. `none`
-- stands for a panic.
use Prim.Native.String.{◌++◌}
use async_trace_doctor.Common.{
  ℕ, String, Bool, true, false, not, ◌&&◌, ◌||◌, Option, none, some, List, [], ◌∷◌, ◌++◌ as append,
  length, filter_by, get_elem?, ◌>>=◌, ◌==◌, if◌then◌else◌,
}
use async_trace_doctor.Common.Int.{ltb_ℤ}
use async_trace_doctor.Common.Dict
use async_trace_doctor.Common.Dict.{Dict}
use async_trace_doctor.Common.Fnv.{text_bytes}
use async_trace_doctor.Model.{
  Duration, is_before, neg_duration, Span, Link, empty_span, link_has_valid_context,
  has_valid_trace_id, has_valid_span_id, operation, message_identity, attr_int,
}
use async_trace_doctor.Common.Int.{ℤ}
use async_trace_doctor.Correlation.{
  Confidence, high, medium, low, Method, time_window_heuristic, Correlation, Result,
}
use async_trace_doctor.Config.{Rule, Settings}
use async_trace_doctor.Rules.Scope.{expected_kinds}
use async_trace_doctor.Rules.Semantic.{is_flagged}
use async_trace_doctor.Rules.Windows.{AuditContext}
use async_trace_doctor.Rules.Batch.{BatchCoverage, batch_link_coverage, is_incomplete_batch}
use async_trace_doctor.Rules.Absence.{
  is_orphan_producer, is_orphan_consumer, correlation_for_consumer,
}
use async_trace_doctor.Rules.Findings.{
  Fact, word, words, number, count, flag, duration, instant, Finding, finding, method_text,
  confidence_text, confidence_for, append_unique, mark_absence_evidence,
}

-- invalidParent
unfoldable pub has_invalid_parent : Span → Bool
unfolding has_valid_trace_id has_valid_span_id
has_invalid_parent s =
    not (s.parent_span_id == "")
    && (not (has_valid_trace_id s.trace_id) || not (has_valid_span_id s.parent_span_id))

abbrev has_parent : Span → (String × Fact)
has_parent s = ("parent_span_id_present", flag (not (s.parent_span_id == "")))

-- `ev` for the check, at the span of position `i`.
unfoldable pub semantic_evidence : String → Result → ℕ → Span → Dict Fact
unfolding expected_kinds has_invalid_parent link_has_valid_context operation text_bytes
    has_valid_trace_id has_valid_span_id
semantic_evidence check corr i s =
    if check == "missing_service_name"
    then ("attribute", word "service.name") ∷ []
    else if check == "missing_messaging_system"
    then ("attribute", word "messaging.system") ∷ []
    else if check == "missing_destination"
    then ("attribute", word "messaging.destination.name") ∷ ("operation", word (operation s)) ∷ []
    else if check == "invalid_operation"
    then ("value", word (operation s))
      ∷ ("allowed", words ("create" ∷ "send" ∷ "receive" ∷ "process" ∷ "settle" ∷ []))
      ∷ []
    else if check == "invalid_span_kind"
    then ("operation", word (operation s))
      ∷ ("actual_kind", word s.kind)
      ∷ ("expected_kinds", words (expected_kinds (operation s)))
      ∷ []
    else if check == "invalid_span_identity"
    then ("trace_id_length", count (length (text_bytes s.trace_id)))
      ∷ ("span_id_length", count (length (text_bytes s.span_id)))
      ∷ ("trace_id_valid", flag (has_valid_trace_id s.trace_id))
      ∷ ("span_id_valid", flag (has_valid_span_id s.span_id))
      ∷ []
    else if check == "invalid_timestamps"
    then ("start_time", instant s.start)
      ∷ ("end_time", instant s.end)
      ∷ ("end_before_start", flag (is_before s.end s.start))
      ∷ []
    else if check == "invalid_context_reference"
    then (
      "invalid_link_count",
      count (length (filter_by (λ link. not (link_has_valid_context link)) s.links)),
    )
      ∷ ("invalid_parent_context", flag (has_invalid_parent s))
      ∷ []
    else if check == "missing_consumer_context"
    then ("context_references", count (corr.context_references i))
      ∷ ("links", count (length s.links))
      ∷ has_parent s
      ∷ []
    else ("context_references", count (corr.context_references i))
      ∷ ("unresolved_references", count (corr.unresolved_references i))
      ∷ ("links", count (length s.links))
      ∷ has_parent s
      ∷ []

abbrev pub candidate_method : Method → String
candidate_method time_window_heuristic = "time_candidate"
candidate_method _ = "identity_candidate"

-- What missing_consumer_context makes of the finding `f`, whose evidence the new finding goes on with,
-- when there is a candidate.
unfoldable pub candidate_finding :
    Rule → List Span → Span → Finding → Option Correlation → Option Finding
unfolding finding method_text confidence_text Dict.put
candidate_finding r spans s f none = some f
candidate_finding r spans s f (some candidate) =
    get_elem? spans candidate.producer_index >>= λ producer. some (
      finding r producer (some s) (candidate_method candidate.method) high (
        Dict.put "candidate_queue_latency" (duration candidate.queue_latency) (
          Dict.put "candidate_confidence" (word (confidence_text candidate.confidence)) (
            Dict.put "candidate_correlation_method" (word (method_text candidate.method))
              f.evidence))))

-- The loop over the links of unresolved_consumer_context.
unfoldable pub add_unresolved : List Link → List String × Finding → List String × Finding
unfolding append_unique
add_unresolved [] st = st
add_unresolved (l ∷ rest) (unresolved, f) =
    let named : Finding = record f {
      trace_ids = append_unique f.trace_ids l.trace_id;
      span_ids = append_unique f.span_ids l.span_id;
    } in
    add_unresolved rest (
      if not (l.trace_id == "") && not (l.span_id == "")
      then (append unresolved ((l.trace_id ++ ("/" ++ l.span_id)) ∷ []), named)
      else (unresolved, f))

unfoldable pub add_unresolved_parent : Span → List String × Finding → List String × Finding
unfolding append_unique
add_unresolved_parent s (unresolved, f) = if s.parent_span_id == "" then (unresolved, f) else (
  append unresolved ((s.trace_id ++ ("/" ++ s.parent_span_id)) ∷ []),
  record f { span_ids = append_unique f.span_ids s.parent_span_id },
)

unfoldable pub unresolved_finding : Span → Finding → Finding
unfolding add_unresolved add_unresolved_parent Dict.put
unresolved_finding s f =
    let marked : Finding = record f {
      correlation_method = "unresolved_context_reference";
      confidence = low;
      evidence_state = "insufficient";
    } in
    let (unresolved, g) = add_unresolved_parent s (add_unresolved s.links ([], marked)) in
    record g { evidence = Dict.put "unresolved_contexts" (words unresolved) g.evidence }

-- The finding of a semantic check about the span of position `i`.
unfoldable pub semantic_finding : Rule → List Span → Result → ℕ → Span → Option Finding
unfolding finding confidence_for semantic_evidence candidate_finding correlation_for_consumer
    unresolved_finding
semantic_finding r spans corr i s =
    let f =
      finding r s none "semantic_validation" (confidence_for r.check)
        (semantic_evidence r.check corr i s) in
    if r.check == "unresolved_consumer_context"
    then some (unresolved_finding s f)
    else if not (r.check == "missing_consumer_context")
    then some f
    else correlation_for_consumer i corr >>= λ candidate. candidate_finding r spans s f candidate

-- append(out, f)
abbrev pub only : Option Finding → Option (List Finding)
only o = o >>= λ f. some (f ∷ [])

unfoldable pub semantic_step : Rule → List Span → Result → ℕ → Span → Option (List Finding)
unfolding is_flagged semantic_finding
semantic_step r spans corr i s =
    if is_flagged r corr i s then only (semantic_finding r spans corr i s) else some []

-- The finding about a span that nothing is correlated with, its confidence and its evidence.
unfoldable pub orphan_confidence : AuditContext → Span → Confidence
unfolding message_identity
orphan_confidence audit s =
    if audit.coverage_complete && not ((message_identity s).1 == "") then medium else low

unfoldable pub orphan_evidence : Duration → AuditContext → Span → Dict Fact
unfolding message_identity
orphan_evidence window audit s =
    ("correlation_window", duration window)
    ∷ ("identity_kind", word (message_identity s).0)
    ∷ ("identity_present", flag (not ((message_identity s).1 == "")))
    ∷ ("coverage_complete", flag audit.coverage_complete)
    ∷ []

unfoldable pub orphan_finding : Rule → Duration → AuditContext → Span → Option Span → Span → Finding
unfolding finding mark_absence_evidence orphan_confidence orphan_evidence
orphan_finding r window audit p c s =
    mark_absence_evidence audit
      (finding r p c "none" (orphan_confidence audit s) (orphan_evidence window audit s))

unfoldable pub orphan_producer_step :
    Rule → Duration → AuditContext → Result → ℕ → Span → Option (List Finding)
unfolding is_orphan_producer orphan_finding
orphan_producer_step r window audit corr i s = some (
    if is_orphan_producer r corr window audit i s
    then orphan_finding r window audit s none s ∷ []
    else [])

unfoldable pub orphan_consumer_step :
    Rule → Duration → AuditContext → Result → ℕ → Span → Option (List Finding)
unfolding is_orphan_consumer orphan_finding
orphan_consumer_step r window audit corr i s = some (
    if is_orphan_consumer r corr window audit i s
    then orphan_finding r window audit empty_span (some s) s ∷ []
    else [])

-- The count that the consumer of an incomplete batch declares.
abbrev declared : Option ℤ → List (String × Fact)
declared none = []
declared (some n) = ("batch_message_count", number n) ∷ []

unfoldable pub batch_evidence : List Span → Span → Dict Fact
unfolding batch_link_coverage attr_int
batch_evidence spans s =
    let c : BatchCoverage = batch_link_coverage s spans in
    append (declared (attr_int s.attributes "messaging.batch.message_count")) (
      ("covered_message_count", count c.coverage)
      ∷ ("valid_link_count", count c.valid_links)
      ∷ ("unique_context_count", count c.unique_contexts)
      ∷ [])

unfoldable pub batch_finding : Rule → List Span → Span → Finding
unfolding batch_evidence finding
batch_finding r spans s = finding r empty_span (some s) "span_link" high (batch_evidence spans s)

unfoldable pub batch_step : Rule → List Span → ℕ → Span → Option (List Finding)
unfolding is_incomplete_batch batch_finding
batch_step r spans i s =
    some (if is_incomplete_batch r spans s then batch_finding r spans s ∷ [] else [])

-- p, co := spans[c.ProducerIndex], spans[c.ConsumerIndex], and the finding about them.
unfoldable pub pair_finding : Rule → List Span → Dict Fact → Correlation → Option (List Finding)
unfolding finding method_text
pair_finding r spans evidence x = get_elem? spans x.producer_index >>= λ p.
    get_elem? spans x.consumer_index >>= λ co.
    some (finding r p (some co) (method_text x.method) x.confidence evidence ∷ [])

abbrev pub is_slow : Settings → Correlation → Bool
is_slow settings x = ltb_ℤ settings.queue_latency x.queue_latency

abbrev pub latency_evidence : Settings → Correlation → Dict Fact
latency_evidence settings x =
    ("queue_latency", duration x.queue_latency)
    ∷ ("threshold", duration settings.queue_latency)
    ∷ []

unfoldable pub latency_step : Rule → Settings → List Span → ℕ → Correlation → Option (List Finding)
unfolding pair_finding
latency_step r settings spans i x =
    if not (is_slow settings x)
    then some []
    else pair_finding r spans (latency_evidence settings x) x

-- c.Confidence == model.ConfidenceHigh
abbrev pub is_high : Confidence → Bool
is_high high = true
is_high _ = false

unfoldable pub is_skewed : Settings → Correlation → Bool
unfolding neg_duration
is_skewed settings x =
    is_high x.confidence && ltb_ℤ x.queue_latency (neg_duration settings.clock_skew_tolerance)

abbrev pub skew_evidence : Settings → Correlation → Dict Fact
skew_evidence settings x =
    ("observed_latency", duration x.queue_latency)
    ∷ ("clock_skew_tolerance", duration settings.clock_skew_tolerance)
    ∷ []

unfoldable pub skew_step : Rule → Settings → List Span → ℕ → Correlation → Option (List Finding)
unfolding pair_finding is_skewed
skew_step r settings spans i x =
    if not (is_skewed settings x)
    then some []
    else pair_finding r spans (skew_evidence settings x) x

-- ===== src/Correlation/Defs.antt =====
-- Correlate of internal/correlation/correlation.go. `none` stands for a panic of the Go program.
use async_trace_doctor.Common.{
  ℕ, ◌+◌, String, Bool, true, false, ◌&&◌, not, Option, none, some, List, [], ◌∷◌, ◌++◌, length,
  filter_by, ltb, nat_eq, ◌==◌, if◌then◌else◌,
}
use async_trace_doctor.Common.Int.{ℤ, pos, pos_part, leb_ℤ, ltb_ℤ}
use async_trace_doctor.Model.{
  Duration, sub_time, Span, Link, link_has_valid_context, has_valid_parent_context,
  message_identity, attr_int,
}
use async_trace_doctor.Correlation.Compatible.{
  strong_scope_compatible, compatible, route_lookup_key, context_key, message_key, delta,
}
use async_trace_doctor.Correlation.Indexes.{span_at, positions, Indexes, build_indexes}
use async_trace_doctor.Correlation.Nearest.{Candidate, sort_candidates, nearest_route_candidates}

pub data Confidence : Type 0 where
  high medium low : Confidence

-- The method constants of internal/model/constants.go that a correlation carries.
pub data Method : Type 0 where
  span_link parent_context messaging_attributes kafka_partition_offset time_window_heuristic :
      Method

pub record SpanRef : Type 0 where
  pub trace_id : String
  pub span_id : String
  pub service : String

-- model.Ref
unfoldable pub ref : Span → SpanRef
ref s = record { trace_id = s.trace_id; span_id = s.span_id; service = s.service }

pub record Correlation : Type 0 where
  pub producer_index : ℕ
  pub consumer_index : ℕ
  pub producer : SpanRef
  pub consumer : SpanRef
  pub method : Method
  pub confidence : Confidence
  pub queue_latency : Duration

-- A Go map from positions is the function that answers the zero value for a missing key.
pub record Result : Type 0 where
  pub correlations : List Correlation
  pub correlation_by_consumer : ℕ → List ℕ
  pub producer_matched : ℕ → Bool
  pub consumer_matched : ℕ → Bool
  pub context_references : ℕ → ℕ
  pub unresolved_references : ℕ → ℕ

abbrev pub no_result : Result
no_result = record {
  correlations = [];
  correlation_by_consumer = λ i. [];
  producer_matched = λ i. false;
  consumer_matched = λ i. false;
  context_references = λ i. 0;
  unresolved_references = λ i. 0;
}

-- m[k] = v
abbrev pub assign {ℓ} : {A : Type ℓ} → (ℕ → A) → ℕ → A → ℕ → A
assign m k v i = if nat_eq i k then v else m i

-- The correlation of a producer and a consumer.
unfoldable pub correlation_of : List Span → ℕ → ℕ → Method → Confidence → Correlation
unfolding span_at ref sub_time
correlation_of spans pi ci method confidence = record {
  producer_index = pi;
  consumer_index = ci;
  producer = ref (span_at spans pi);
  consumer = ref (span_at spans ci);
  method = method;
  confidence = confidence;
  queue_latency = sub_time (span_at spans ci).start (span_at spans pi).end;
}

unfoldable pub add_correlation : List Span → ℕ → Method → Confidence → Result → ℕ → Result
unfolding correlation_of
add_correlation spans ci method confidence r pi = record r {
  correlations = r.correlations ++ correlation_of spans pi ci method confidence ∷ [];
  correlation_by_consumer =
      assign r.correlation_by_consumer ci
        (r.correlation_by_consumer ci ++ length r.correlations ∷ []);
  producer_matched = assign r.producer_matched pi true;
  consumer_matched = assign r.consumer_matched ci true;
}

-- add for each of several producers.
unfoldable pub add_all : List Span → ℕ → Method → Confidence → Result → List ℕ → Result
unfolding add_correlation
add_all spans ci method confidence r [] = r
add_all spans ci method confidence r (pi ∷ rest) =
    add_all spans ci method confidence (add_correlation spans ci method confidence r pi) rest

unfoldable pub count_reference : ℕ → Result → Result
count_reference ci r = record r {
  context_references = assign r.context_references ci (r.context_references ci + 1);
}

unfoldable pub count_unresolved : ℕ → Result → Result
count_unresolved ci r = record r {
  unresolved_references = assign r.unresolved_references ci (r.unresolved_references ci + 1);
}

-- linked[pi] = true, where the set is kept as sortedKeys lists it.
unfoldable pub insert_key : ℕ → List ℕ → List ℕ
insert_key k [] = k ∷ []
insert_key k (j ∷ js) =
    if ltb k j then k ∷ j ∷ js else if nat_eq k j then j ∷ js else j ∷ insert_key k js

unfoldable pub insert_keys : List ℕ → List ℕ → List ℕ
unfolding insert_key
insert_keys [] linked = linked
insert_keys (k ∷ ks) linked = insert_keys ks (insert_key k linked)

-- The producers that a context names and whose scope does not exclude the consumer.
unfoldable pub resolve : List Span → Indexes → Span → String → String → List ℕ
unfolding positions context_key span_at strong_scope_compatible
resolve spans m c trace_id span_id =
    filter_by (λ pi. strong_scope_compatible (span_at spans pi) c)
      (positions (context_key trace_id span_id) m.by_context)

-- What one valid link adds to the counts and to the set of linked producers.
unfoldable pub link_found : ℕ → List ℕ → List ℕ × Result → List ℕ × Result
unfolding count_unresolved
link_found ci [] (linked, r) = (linked, count_unresolved ci r)
link_found ci (pi ∷ rest) (linked, r) = (insert_keys (pi ∷ rest) linked, r)

-- The loop over the links of a consumer.
unfoldable pub scan_links :
    List Span → Indexes → Span → ℕ → List Link → List ℕ × Result → List ℕ × Result
unfolding resolve link_found count_reference link_has_valid_context insert_keys
scan_links spans m c ci [] st = st
scan_links spans m c ci (l ∷ rest) (linked, r) = scan_links spans m c ci rest (
    if not (link_has_valid_context l)
    then (linked, r)
    else link_found ci (resolve spans m c l.trace_id l.span_id) (linked, count_reference ci r))

-- A producer with the consumer's message identity, in its route, within the window.
unfoldable pub identity_candidates : List Span → Span → String → Duration → List ℕ → List Candidate
unfolding span_at message_identity compatible delta
identity_candidates spans c identity window [] = []
identity_candidates spans c identity window (pi ∷ rest) =
    let more = identity_candidates spans c identity window rest in
    let p = span_at spans pi in
    if (message_identity p).1 == identity && compatible p c && leb_ℤ (delta p c) window
    then record { index = pi; distance = delta p c } ∷ more
    else more

-- The candidates by identity, the nearest first; none where the consumer has no identity.
unfoldable pub by_identity : List Span → Indexes → Span → Duration → List Candidate
unfolding identity_candidates sort_candidates positions message_key route_lookup_key
    message_identity
by_identity spans m c window =
    let identity = (message_identity c).1 in
    if not (identity == "")
    then sort_candidates (
        identity_candidates spans c identity window
          (positions (message_key (route_lookup_key c) identity) m.by_message))
    else []

abbrev pub identity_method : String → Method
identity_method kind =
    if kind == "kafka_partition_offset" then kafka_partition_offset else messaging_attributes

-- limit := 1; if count, ok := …; ok && count > limit { limit = count }
abbrev pub batch_limit : Option ℤ → ℕ
batch_limit none = 1
batch_limit (some count) = if ltb_ℤ (pos 1) count then pos_part count else 1

unfoldable pub by_time : List Span → Indexes → Span → Duration → Option (List Candidate)
unfolding nearest_route_candidates positions route_lookup_key attr_int
by_time spans m c window =
    nearest_route_candidates (positions (route_lookup_key c) m.by_route) spans c window
      (batch_limit (attr_int c.attributes "messaging.batch.message_count"))

abbrev pub candidate_indices : List Candidate → List ℕ
candidate_indices [] = []
candidate_indices (a ∷ rest) = a.index ∷ candidate_indices rest

-- The fallback by nearness in time.
unfoldable pub correlate_by_time :
    List Span → Indexes → Duration → ℕ → Span → Result → Option Result
unfolding by_time add_all
correlate_by_time spans m window ci c r = elim (by_time spans m c window) [
  | none ↦ none
  | some found ↦ some (add_all spans ci time_window_heuristic low r (candidate_indices found))
]

-- The fallback by message identity, and then by time.
unfoldable pub correlate_by_identity :
    List Span → Indexes → Duration → ℕ → Span → Result → Option Result
unfolding by_identity add_correlation correlate_by_time
correlate_by_identity spans m window ci c r = elim (by_identity spans m c window) [
  | [] ↦ correlate_by_time spans m window ci c r
  | a ∷ rest ↦
      some (add_correlation spans ci (identity_method (message_identity c).0) medium r a.index)
]

-- The direct parent, where the parent context is valid.
unfoldable pub correlate_by_parent :
    List Span → Indexes → Duration → ℕ → Span → Result → Option Result
unfolding resolve add_correlation count_reference count_unresolved correlate_by_identity
    has_valid_parent_context
correlate_by_parent spans m window ci c r =
    if has_valid_parent_context c
    then (elim (resolve spans m c c.trace_id c.parent_span_id) [
      | [] ↦ correlate_by_identity spans m window ci c (count_unresolved ci (count_reference ci r))
      | pi ∷ rest ↦ some (add_correlation spans ci parent_context high (count_reference ci r) pi)
    ])
    else correlate_by_identity spans m window ci c r

-- The linked producers, if there are any.
unfoldable pub correlate_by_links :
    List Span → Indexes → Duration → ℕ → Span → List ℕ × Result → Option Result
unfolding add_all correlate_by_parent
correlate_by_links spans m window ci c ([], r) = correlate_by_parent spans m window ci c r
correlate_by_links spans m window ci c (pi ∷ rest, r) =
    some (add_all spans ci span_link high r (pi ∷ rest))

-- The body of the loop over the consumers.
unfoldable pub correlate_consumer : List Span → Indexes → Duration → Result → ℕ → Option Result
unfolding span_at scan_links correlate_by_links
correlate_consumer spans m window r ci =
    let c = span_at spans ci in
    correlate_by_links spans m window ci c (scan_links spans m c ci c.links ([], r))

unfoldable pub correlate_loop : List Span → Indexes → Duration → List ℕ → Result → Option Result
unfolding correlate_consumer
correlate_loop spans m window [] r = some r
correlate_loop spans m window (ci ∷ rest) r = elim (correlate_consumer spans m window r ci) [
  | none ↦ none
  | some r' ↦ correlate_loop spans m window rest r'
]

unfoldable pub correlate : List Span → Duration → Option Result
unfolding build_indexes correlate_loop
correlate spans window =
    let m = build_indexes spans in correlate_loop spans m window m.consumers no_result

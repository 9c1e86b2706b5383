-- ===== src/Correlation/Evidence.antt =====
-- Every correlation that Correlate reports rests on evidence of the kind that its method names, and
-- carries the confidence of that kind.
use async_trace_doctor.Common.{
  ℕ, ◌≡◌, refl, ◌≢◌, ◌⊎◌, true, List, [], ◌∷◌, All, All-append, &&-left, &&-right,
}
use async_trace_doctor.Common.Int.{leb_ℤ}
use async_trace_doctor.Model.{
  Duration, Span, Link, link_has_valid_context, has_valid_parent_context, is_producer, is_consumer,
  message_identity,
}
use async_trace_doctor.Correlation.Compatible.{
  strong_scope_compatible, scope_compatible, compatible, context_key, delta,
}
use async_trace_doctor.Correlation.Indexes.{span_at}
use async_trace_doctor.Correlation.Defs.{
  Confidence, high, medium, low, Method, span_link, parent_context, messaging_attributes,
  kafka_partition_offset, time_window_heuristic, Correlation, Result, correlation_of,
  add_correlation, add_all,
}

scope-strong_scope : (p c : Span) → scope_compatible p c ≡ true → strong_scope_compatible p c ≡ true
unfolding scope_compatible strong_scope_compatible
scope-strong_scope p c h = &&-left _ _ (&&-left _ _ h)

-- Scope compatibility of the fallbacks implies that of the exact references.
pub compatible-strong_scope :
    (p c : Span) → compatible p c ≡ true → strong_scope_compatible p c ≡ true
unfolding compatible
compatible-strong_scope p c h = scope-strong_scope p c (&&-right _ _ h)

abbrev pub confidence_of : Method → Confidence
confidence_of span_link = high
confidence_of parent_context = high
confidence_of messaging_attributes = medium
confidence_of kafka_partition_offset = medium
confidence_of time_window_heuristic = low

-- One of the links has a valid context, the producer's.
abbrev pub Links : List Link → Span → Type 0
Links [] p = ⊥
Links (l ∷ rest) p =
    ((link_has_valid_context l ≡ true)
      × (context_key l.trace_id l.span_id ≡ context_key p.trace_id p.span_id))
    ⊎ Links rest p

-- A fallback stays within the window and needs compatible system, destination and scopes.
abbrev pub IsNear : Duration → Span → Span → Type 0
IsNear window p c = (compatible p c ≡ true) × (leb_ℤ (delta p c) window ≡ true)

-- The two spans carry one message identity.
abbrev pub SharesIdentity : Span → Span → Type 0
SharesIdentity p c =
    ((message_identity p).1 ≡ (message_identity c).1) × ((message_identity c).1 ≢ "")

abbrev pub Evidence : Duration → Method → Span → Span → Type 0
Evidence window span_link p c = Links c.links p
Evidence window parent_context p c =
    (has_valid_parent_context c ≡ true)
    × (context_key c.trace_id c.parent_span_id ≡ context_key p.trace_id p.span_id)
Evidence window messaging_attributes p c = SharesIdentity p c × IsNear window p c
Evidence window kafka_partition_offset p c = SharesIdentity p c × IsNear window p c
Evidence window time_window_heuristic p c = IsNear window p c

module _ (spans : List Span) (window : Duration) where
  -- What a pair of positions must satisfy to be correlated by a method.
  pub record IsWarranted (ci : ℕ) (method : Method) (pi : ℕ) : Type 0 where
    pub produces : is_producer (span_at spans pi) ≡ true
    pub consumes : is_consumer (span_at spans ci) ≡ true
    pub one_scope : strong_scope_compatible (span_at spans pi) (span_at spans ci) ≡ true
    pub evidence : Evidence window method (span_at spans pi) (span_at spans ci)

  -- A reported correlation is the record of a warranted pair.
  abbrev pub IsReported : Correlation → Type 0
  IsReported x =
      IsWarranted x.consumer_index x.method x.producer_index
      × (x
          ≡ correlation_of spans x.producer_index x.consumer_index x.method
              (confidence_of x.method))

  pub add_correlation-IsReported :
      (ci : ℕ) (method : Method) (r : Result) (pi : ℕ)
      → IsWarranted ci method pi
      → All IsReported r.correlations
      → All IsReported (add_correlation spans ci method (confidence_of method) r pi).correlations
  unfolding add_correlation
  add_correlation-IsReported ci method r pi w h =
      All-append IsReported r.correlations _ h (((w, refl), tt))

  pub add_all-IsReported :
      (ci : ℕ) (method : Method) (r : Result) (pis : List ℕ)
      → All (IsWarranted ci method) pis
      → All IsReported r.correlations
      → All IsReported (add_all spans ci method (confidence_of method) r pis).correlations
  unfolding add_all
  add_all-IsReported ci method r [] w h = h
  add_all-IsReported ci method r (pi ∷ rest) w h =
      add_all-IsReported ci method (add_correlation spans ci method (confidence_of method) r pi)
        rest w.1 (add_correlation-IsReported ci method r pi w.0 h)

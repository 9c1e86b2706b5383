-- ===== src/Ingest/Redaction.antt =====
-- What FromProto keeps out of the spans.
use text.Mathlib.Text.{is_lt}
use Prim.Native.String.{compare}
use async_trace_doctor.Common.{
  ◌≡◌, refl, String, true, List, [], ◌∷◌, All, All-append, map, ◌==◌, Bool-cases, inl, inr,
}
use async_trace_doctor.Model.{Span, Link, Attrs, Value, str}
use async_trace_doctor.Ingest.Conversion.{
  Messages, put_sorted, is_redacted, stored, add_attrs, attrs, link_from, span_from,
  spans_of_scopes, from_proto,
}

module _ {A B : Type 0} (P : B → Type 0) (f : A → B) (h : (a : A) → P (f a)) where
  All-map_all : (xs : List A) → All P (map f xs)
  All-map_all [] = tt
  All-map_all (x ∷ xs) = (h x, All-map_all xs)

module _ (M : Messages) (redact : List String) where
  -- The attribute is not one to redact, or its value is replaced.
  abbrev pub IsClean : String × Value → Type 0
  IsClean (k, v) = is_redacted redact k ≡ true → v ≡ str "[REDACTED]"

  -- All attributes of a span, of its resource and of its links.
  pub record IsRedacted (s : Span) : Type 0 where
    pub attributes : All IsClean s.attributes
    pub resource_attributes : All IsClean s.resource_attributes
    pub links : All (λ (l : Link). All IsClean l.attributes) s.links

  put_sorted-IsClean :
      (k : String) (v : Value) (m : Attrs)
      → IsClean (k, v)
      → All IsClean m
      → All IsClean (put_sorted k v m)
  unfolding put_sorted
  put_sorted-IsClean k v [] p h = (p, tt)
  put_sorted-IsClean k v ((j, w) ∷ m) p h = elim (Bool-cases (j == k)) [
    | inl same ↦ rw (same, put_sorted) (p, h.1)
    | inr other ↦ elim (Bool-cases (is_lt (compare k j))) [
      | inl before ↦ rw (other, before, put_sorted) (p, h)
      | inr after ↦ rw (other, after, put_sorted) (h.0, put_sorted-IsClean k v m p h.1)
    ]
  ]

  stored-IsClean : (kv : M.KeyValue) → IsClean (M.key_of kv, stored M redact kv)
  unfolding stored
  stored-IsClean kv h = rw (h, stored) refl

  add_attrs-IsClean :
      (kvs : List M.KeyValue) (m : Attrs) → All IsClean m → All IsClean (add_attrs M redact kvs m)
  unfolding add_attrs
  add_attrs-IsClean [] m h = h
  add_attrs-IsClean (kv ∷ kvs) m h =
      add_attrs-IsClean kvs _
        (put_sorted-IsClean (M.key_of kv) (stored M redact kv) m (stored-IsClean kv) h)

  attrs-IsClean : (kvs : List M.KeyValue) → All IsClean (attrs M redact kvs)
  unfolding attrs
  attrs-IsClean kvs = add_attrs-IsClean kvs [] tt

  link_from-IsClean : (l : M.LinkMessage) → All IsClean (link_from M redact l).attributes
  unfolding link_from
  link_from-IsClean l = attrs-IsClean (M.link_attributes l)

  span_from-IsRedacted :
      (resource : Attrs)
      → All IsClean resource
      → (s : M.SpanMessage) → IsRedacted (span_from M redact resource s)
  unfolding span_from
  span_from-IsRedacted resource h s = record {
    attributes = attrs-IsClean (M.attributes s);
    resource_attributes = h;
    links =
        All-map_all (λ (l : Link). All IsClean l.attributes) (link_from M redact) link_from-IsClean
          (M.links_of s);
  }

  spans_of_scopes-IsRedacted :
      (resource : Attrs)
      → All IsClean resource
      → (ss : List M.ScopeSpans) → All IsRedacted (spans_of_scopes M redact resource ss)
  unfolding spans_of_scopes
  spans_of_scopes-IsRedacted resource h [] = tt
  spans_of_scopes-IsRedacted resource h (s ∷ ss) =
      All-append IsRedacted _ _
        (All-map_all IsRedacted (span_from M redact resource) (span_from-IsRedacted resource h)
          (M.spans_of s))
        (spans_of_scopes-IsRedacted resource h ss)

  -- In every span that FromProto makes, whatever the messages hold, each attribute of the span, of its
  -- resource and of its links whose key is configured for redaction, or reads as that of a payload or a
  -- body, has the value "[REDACTED]".
  pub from_proto-IsRedacted :
      (resources : List M.ResourceSpans) → All IsRedacted (from_proto M redact resources)
  unfolding from_proto
  from_proto-IsRedacted [] = tt
  from_proto-IsRedacted (r ∷ rest) =
      All-append IsRedacted _ _
        (spans_of_scopes-IsRedacted (attrs M redact (M.resource_attributes r))
          (attrs-IsClean (M.resource_attributes r)) (M.scope_spans r))
        (from_proto-IsRedacted rest)

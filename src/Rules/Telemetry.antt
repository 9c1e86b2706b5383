-- ===== src/Rules/Telemetry.antt =====
-- baseCoverage of internal/rules/engine.go: what an audit says of the completeness of its input.
use async_trace_doctor.Common.{
  ℕ, ◌+◌, String, ◌||◌, List, [], ◌∷◌, ◌++◌, length, ltb, if◌then◌else◌,
}
use async_trace_doctor.Common.Int.{u64}
use async_trace_doctor.Model.{Span, Link}
use async_trace_doctor.Rules.Windows.{AuditContext}

pub record Coverage : Type 0 where
  pub status : String
  pub input_completeness : String
  pub retained_spans : ℕ
  pub rejected_spans : ℕ
  pub duplicate_exports : ℕ
  pub conflicting_duplicates : ℕ
  pub ttl_evictions : ℕ
  pub dropped_attributes : ℕ
  pub dropped_links : ℕ
  pub limitations : List String

-- Before the loop over the spans.
unfoldable pub initial_coverage : List Span → AuditContext → Coverage
initial_coverage spans audit =
    let unknown : Coverage = record {
      status = "unknown";
      input_completeness = "unknown";
      retained_spans = length spans;
      rejected_spans = 0;
      duplicate_exports = 0;
      conflicting_duplicates = 0;
      ttl_evictions = 0;
      dropped_attributes = 0;
      dropped_links = 0;
      limitations = [];
    } in
    if audit.coverage_complete
    then record unknown { status = "complete"; input_completeness = "complete" }
    else record unknown {
      limitations =
          "absence-based conclusions are unsafe without telemetry completeness evidence" ∷ [];
    }

-- The loop over the links of a span.
unfoldable pub add_dropped_of_links : List Link → ℕ → ℕ
add_dropped_of_links [] n = n
add_dropped_of_links (l ∷ rest) n = add_dropped_of_links rest (u64 (n + l.dropped_attributes_count))

-- The loop over the spans, on the two counts.
unfoldable pub add_dropped : List Span → ℕ × ℕ → ℕ × ℕ
unfolding add_dropped_of_links
add_dropped [] counts = counts
add_dropped (s ∷ rest) (attributes, links) = add_dropped rest (
  add_dropped_of_links s.links (u64 (attributes + s.dropped_attributes_count)),
  u64 (links + s.dropped_links_count),
)

-- After the loop.
unfoldable pub degrade : Coverage → Coverage
degrade c =
    if ltb 0 c.dropped_attributes || ltb 0 c.dropped_links
    then record c {
      status = "degraded";
      limitations = c.limitations ++ "OTLP reported dropped attributes or links" ∷ [];
    }
    else c

unfoldable pub base_coverage : List Span → AuditContext → Coverage
unfolding initial_coverage add_dropped degrade
base_coverage spans audit =
    let (attributes, links) = add_dropped spans (0, 0) in
    degrade (record (initial_coverage spans audit) {
      dropped_attributes = attributes;
      dropped_links = links;
    })

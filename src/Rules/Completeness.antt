-- ===== src/Rules/Completeness.antt =====
-- When an audit calls its input complete.
use async_trace_doctor.Common.{
  ℕ, ◌+◌, ◌<◌, ◌^◌, ◌≡◌, refl, ◌↔◌, inl, inr, String, Bool, true, false, ◌||◌, List, [], ◌∷◌, ltb,
  ◌==◌, ◌≢◌, eq_iff, Bool-cases, arith,
}
use async_trace_doctor.Common.Int.{u64}
use async_trace_doctor.Model.{Span, Link}
use async_trace_doctor.Rules.Windows.{AuditContext}
use async_trace_doctor.Rules.Telemetry.{
  initial_coverage, add_dropped_of_links, add_dropped, degrade, base_coverage,
}

-- The attributes that the links, and the attributes and links that the spans, have lost in all.
unfoldable pub lost_by_links : List Link → ℕ
lost_by_links [] = 0
lost_by_links (l ∷ rest) = l.dropped_attributes_count + lost_by_links rest

unfoldable pub lost_attributes : List Span → ℕ
unfolding lost_by_links
lost_attributes [] = 0
lost_attributes (s ∷ rest) =
    s.dropped_attributes_count + lost_by_links s.links + lost_attributes rest

unfoldable pub lost_links : List Span → ℕ
lost_links [] = 0
lost_links (s ∷ rest) = s.dropped_links_count + lost_links rest

add_dropped_of_links-sum :
    (ls : List Link) (n : ℕ)
    → n + lost_by_links ls < 2 ^ 64
    → add_dropped_of_links ls n ≡ n + lost_by_links ls
unfolding add_dropped_of_links lost_by_links
add_dropped_of_links-sum [] n h = omega arith
add_dropped_of_links-sum (l ∷ rest) n h =
    let e : u64 (n + l.dropped_attributes_count) ≡ n + l.dropped_attributes_count = omega arith in
    let k = add_dropped_of_links-sum rest (n + l.dropped_attributes_count) (omega arith) in
    rw e (omega (arith, k))

add_dropped-sum :
    (spans : List Span) (a b : ℕ)
    → a + lost_attributes spans < 2 ^ 64
    → b + lost_links spans < 2 ^ 64
    → add_dropped spans (a, b) ≡ (a + lost_attributes spans, b + lost_links spans)
unfolding add_dropped lost_attributes lost_links
add_dropped-sum [] a b h k =
    let e : a + 0 ≡ a = omega arith in let f : b + 0 ≡ b = omega arith in rw (e, f) refl
add_dropped-sum (s ∷ rest) a b h k =
    let e : u64 (a + s.dropped_attributes_count) ≡ a + s.dropped_attributes_count = omega arith in
    let f : u64 (b + s.dropped_links_count) ≡ b + s.dropped_links_count = omega arith in
    let l = add_dropped_of_links-sum s.links (a + s.dropped_attributes_count) (omega arith) in
    let p : a + (s.dropped_attributes_count + lost_by_links s.links + lost_attributes rest)
        ≡ a + s.dropped_attributes_count + lost_by_links s.links + lost_attributes rest =
      omega arith in
    let q : b + (s.dropped_links_count + lost_links rest)
        ≡ b + s.dropped_links_count + lost_links rest =
      omega arith in
    rw (e, f, l, p, q)
      (add_dropped-sum rest (a + s.dropped_attributes_count + lost_by_links s.links)
        (b + s.dropped_links_count) (omega arith) (omega arith))

unequal : (s t : String) → (s == t) ≡ false → s ≢ t
unequal s t n p = cc (n, (eq_iff s t).1 p)

-- Where the lost attributes and the lost links are each fewer than 2^64, an audit calls its input
-- complete exactly when it is told so and no span has lost an attribute or a link and no link an
-- attribute.
pub base_coverage_complete :
    (spans : List Span) (audit : AuditContext)
    → lost_attributes spans < 2 ^ 64
    → lost_links spans < 2 ^ 64
    → ((base_coverage spans audit).status ≡ "complete")
      ↔ ((audit.coverage_complete ≡ true) × (lost_attributes spans + lost_links spans ≡ 0))
unfolding base_coverage degrade initial_coverage
base_coverage_complete spans audit h k =
    let e : 0 + lost_attributes spans ≡ lost_attributes spans = omega arith in
    let f : 0 + lost_links spans ≡ lost_links spans = omega arith in
    let p : add_dropped spans (0, 0) ≡ (lost_attributes spans, lost_links spans) =
      rw (e, f) at (add_dropped-sum spans 0 0 (omega arith) (omega arith)) in
    rw (p, base_coverage)
      (status (lost_attributes spans) (lost_links spans) audit.coverage_complete)
  where
    status :
        (a l : ℕ) (b : Bool)
        → ((degrade (record (initial_coverage spans (record audit { coverage_complete = b })) {
          dropped_attributes = a;
          dropped_links = l;
        })).status
            ≡ "complete")
          ↔ ((b ≡ true) × (a + l ≡ 0))
    status a l true = elim (Bool-cases (ltb 0 a || ltb 0 l)) [
      | inl lost ↦ (
        λ s. absurd (unequal "degraded" "complete" refl (rw lost at s)),
        λ t. absurd (ground (arith, lost, t.1)),
      )
      | inr whole ↦ (λ s. (refl, ground (arith, whole)), λ t. rw whole refl)
    ]
    status a l false = elim (Bool-cases (ltb 0 a || ltb 0 l)) [
      | inl lost ↦
          (λ s. absurd (unequal "degraded" "complete" refl (rw lost at s)), λ t. absurd (cc t.0))
      | inr whole ↦
          (λ s. absurd (unequal "unknown" "complete" refl (rw whole at s)), λ t. absurd (cc t.0))
    ]

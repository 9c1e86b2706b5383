-- ===== src/Ingest/Extent.antt =====
-- ReadPath answers, and keeps to the limit on spans.
use async_trace_doctor.Common.{
  ℕ, ◌+◌, ◌≤◌, ◌≡◌, refl, Bool, false, ◌&&◌, Option, none, some, List, [], ◌∷◌, ◌++◌, length,
  length-append, ltb, nat_eq, Bool-cases, Option-cases, inl, inr, ◌⊎◌, filter_by, Holds, Holds-some,
  String, arith,
}
use async_trace_doctor.Common.Dict.{Dict}
use async_trace_doctor.Model.{Span}
use async_trace_doctor.Ingest.Dedup.{
  Seen, Deduplicated, conflicting, distinct, nameless, first, repeated, differing, occurrence,
  deduplicate_loop, deduplicate_spans,
}
use async_trace_doctor.Ingest.Identifiers.{Json}
use async_trace_doctor.Ingest.Conversion.{Messages}
use async_trace_doctor.Ingest.Tracking.{OnePerIdentity, IsRight}
use async_trace_doctor.Ingest.Distinct.{deduplicate_spans-IsRight}
use async_trace_doctor.Ingest.Reading.{
  Limits, File, Input, file, directory, missing, Read, refused, accepted, ReadError, no_input,
  no_files, walk_failed, read_file, read_files, read_of, read_all, read_path, sort_files,
  is_trace_file,
}

abbrev AtMost : ℕ → Deduplicated → Type 0
AtMost n (distinct out) = length out ≤ n
AtMost n (conflicting id) = Unit

deduplicate_loop-AtMost :
    (rest : List Span) (seen : Dict Seen) (out : List Span) (n : ℕ)
    → length out + length rest ≤ n
    → Holds (AtMost n) (deduplicate_loop rest seen out)
unfolding deduplicate_loop
deduplicate_loop-AtMost [] seen out n h = omega arith
deduplicate_loop-AtMost (span ∷ rest) seen out n h =
    let longer : length (out ++ span ∷ []) + length rest ≤ n =
      rw (length-append out (span ∷ [])) (omega arith) in
    let same : length out + length rest ≤ n = omega arith in
    let tail = deduplicate_loop-AtMost rest in
    elim (Option-cases (occurrence seen out span)) [
      | inl broken ↦ rw (broken, deduplicate_loop) tt
      | inr (nameless, e) ↦ rw (e, deduplicate_loop) (tail seen (out ++ span ∷ []) n longer)
      | inr (repeated, e) ↦ rw (e, deduplicate_loop) (tail seen out n same)
      | inr (differing, e) ↦ rw (e, deduplicate_loop) tt
      | inr (first, e) ↦ rw (e, deduplicate_loop) (tail _ (out ++ span ∷ []) n longer)
    ]

-- The test of ReadPath on the number of spans, which refuses where it answers true.
abbrev pub is_over : Limits → List Span → Bool
is_over limits spans = ltb 0 limits.max_spans && ltb limits.max_spans (length spans)

-- What ReadPath accepts.
abbrev pub IsWithin : Limits → Read → Type 0
IsWithin limits (accepted spans) = (is_over limits spans ≡ false) × OnePerIdentity spans
IsWithin limits (refused e) = Unit

abbrev IsInLimit : Limits → Read → Type 0
IsInLimit limits (accepted spans) = is_over limits spans ≡ false
IsInLimit limits (refused e) = Unit

fewer : (m a b : ℕ) → a ≤ b → (ltb 0 m && ltb m b) ≡ false → (ltb 0 m && ltb m a) ≡ false
fewer m a b le h = ground arith

pub Read-cases :
    (r : Read) → ((e : ReadError) × (r ≡ refused e)) ⊎ ((spans : List Span) × (r ≡ accepted spans))
Read-cases (refused e) = inl (e, refl)
Read-cases (accepted spans) = inr (spans, refl)

settle :
    (limits : Limits) (spans : List Span) (d : Deduplicated)
    → is_over limits spans ≡ false
    → AtMost (length spans) d
    → IsRight spans d
    → IsWithin limits (read_of d)
settle limits spans (distinct out) within small right =
    (fewer limits.max_spans (length out) (length spans) small within, right.2)
settle limits spans (conflicting id) within small right = tt

module _ (M : Messages) (parse : List ℕ → Option Json)
    (unmarshal : Json → Option (List M.ResourceSpans)) (redact : List String) where
  read_files-IsInLimit :
      (limits : Limits) (files : List File) (consumed : ℕ) (spans : List Span)
      → is_over limits spans ≡ false
      → IsInLimit limits (read_files M parse unmarshal redact limits files consumed spans)
  unfolding read_files
  read_files-IsInLimit limits [] consumed spans h = h
  read_files-IsInLimit limits (f ∷ fs) consumed spans h = elim (Option-cases f.size) [
    | inl unknown ↦ rw (unknown, read_files) tt
    | inr (size, known) ↦
        elim (Bool-cases (ltb 0 limits.max_bytes && ltb limits.max_bytes (consumed + size))) [
          | inl large ↦ rw (known, large, read_files) tt
          | inr small ↦ elim (Read-cases (read_file M parse unmarshal redact f limits.max_bytes)) [
            | inl (e, fails) ↦ rw (known, small, fails, read_files) tt
            | inr (parsed, reads) ↦ elim (Bool-cases (is_over limits (spans ++ parsed))) [
              | inl over ↦ rw (known, small, reads, over, read_files) tt
              | inr within ↦
                  rw (known, small, reads, within, read_files)
                    (read_files-IsInLimit limits fs (consumed + size) (spans ++ parsed) within)
            ]
          ]
        ]
  ]

  Answers : Limits → Option Read → Type 0
  Answers limits o = (r : Read) × (o ≡ some r) × IsWithin limits r

  read_all-Answers :
      (limits : Limits) (files : List File)
      → Answers limits (read_all M parse unmarshal redact limits files)
  unfolding Answers read_all deduplicate_spans
  read_all-Answers limits files = elim (Bool-cases (nat_eq (length files) 0)) [
    | inl none_found ↦ rw (none_found, read_all) (refused no_files, refl, tt)
    | inr found ↦
        let kept =
          read_files-IsInLimit limits files 0 []
            (fewer limits.max_spans 0 0 (omega arith) (nothing limits.max_spans)) in
        elim (Read-cases (read_files M parse unmarshal redact limits files 0 [])) [
          | inl (e, fails) ↦ rw (found, fails, read_all) (refused e, refl, tt)
          | inr (spans, reads) ↦
              let (d, answers, right) = deduplicate_spans-IsRight spans in
              let small : AtMost (length spans) d =
                Holds-some (AtMost (length spans))
                  (deduplicate_loop-AtMost spans [] [] (length spans) (omega arith)) answers in
              rw (found, reads, answers, read_all)
                (read_of d, refl, settle limits spans d (rw reads at kept) small right)
        ]
  ]
    where
      nothing : (m : ℕ) → (ltb 0 m && ltb m 0) ≡ false
      nothing m = ground arith

  -- ReadPath answers whatever the file system has. Either it refuses, or it accepts spans that are no more
  -- than a limit on their number allows, no two of them with one identity.
  pub read_path-IsWithin :
      (limits : Limits) (input : Input)
      → (r : Read) × (read_path M parse unmarshal redact limits input ≡ some r) × IsWithin limits r
  unfolding read_path Answers
  read_path-IsWithin limits missing = (refused no_input, refl, tt)
  read_path-IsWithin limits (file f) = read_all-Answers limits (f ∷ [])
  read_path-IsWithin limits (directory none) = (refused walk_failed, refl, tt)
  read_path-IsWithin limits (directory (some met)) =
      read_all-Answers limits (sort_files (filter_by is_trace_file met))

-- ===== src/Ingest/FirstDocument.antt =====
-- What readFile makes of a file of several lines.
use async_trace_doctor.Common.{
  ℕ, ◌≡◌, refl, String, Option, some, List, [], ◌∷◌, ◌++◌, length, nat_eq, false, Option-cases, inl,
  inr, arith,
}
use async_trace_doctor.Model.{Span}
use async_trace_doctor.Ingest.Identifiers.{Json}
use async_trace_doctor.Ingest.Conversion.{Messages}
use async_trace_doctor.Ingest.Reading.{accepted, decode_request_json, decode_json, read_bytes}

-- A Decoder reads the next document of its input and leaves what comes after the end of the line.
abbrev pub ReadsNext : (List ℕ → Option Json) → Type 0
ReadsNext parse =
    (line rest : List ℕ) (document : Json)
    → parse line ≡ some document
    → parse (line ++ 10 ∷ rest) ≡ some document

module _ (M : Messages) (parse : List ℕ → Option Json)
    (unmarshal : Json → Option (List M.ResourceSpans)) (redact : List String)
    (next : ReadsNext parse) where
  decode_json-line :
      (line rest : List ℕ) (spans : List Span)
      → decode_json M parse unmarshal redact line ≡ some spans
      → decode_json M parse unmarshal redact (line ++ 10 ∷ rest) ≡ some spans
  unfolding decode_json decode_request_json
  decode_json-line line rest spans h = elim (Option-cases (parse line)) [
    | inl unread ↦ absurd (cc (rw unread at h))
    | inr (document, read) ↦ let same = next line rest document read in rw same (rw read at h)
  ]

  -- Where the first line of a file is a request by itself, readFile answers the spans of that line alone,
  -- whatever lines come after it, if the JSON decoder reads the next document of its input and leaves the
  -- rest.
  pub read_bytes-first_line :
      (line rest : List ℕ) (spans : List Span)
      → decode_json M parse unmarshal redact line ≡ some spans
      → read_bytes M parse unmarshal redact (line ++ 10 ∷ rest) ≡ accepted spans
  unfolding read_bytes
  read_bytes-first_line line rest spans h =
      rw (not_empty line rest, decode_json-line line rest spans h) refl
    where
      not_empty : (line rest : List ℕ) → nat_eq (length (line ++ 10 ∷ rest)) 0 ≡ false
      not_empty [] rest = ground arith
      not_empty (c ∷ line) rest = ground arith

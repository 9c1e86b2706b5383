-- ===== src/Tests/ReadingTests.antt =====
-- The statements about the reading of files, with a decoder of documents of one byte.
use async_trace_doctor.Common.{
  ◌≡◌, refl, String, Option, none, some, ℕ, List, [], ◌∷◌, nat_eq, if◌then◌else◌, false,
}
use async_trace_doctor.Ingest.{
  Json, Limits, File, Input, directory, Read, accepted, refused, too_many_spans, read_bytes,
  read_path, decode_json, from_proto,
}
use async_trace_doctor.Ingest.FirstDocument.{ReadsNext, read_bytes-first_line}
use async_trace_doctor.Ingest.Extent.{IsWithin, read_path-IsWithin}
use async_trace_doctor.Tests.IngestTests.{sample_messages, resource, Pair}

-- The byte `0` is a document, whatever comes after it.
abbrev pub parse_zero : List ℕ → Option Json
parse_zero [] = none
parse_zero (c ∷ cs) = if nat_eq c 48 then some (Json.number "0") else none

parse_zero-ReadsNext : ReadsNext parse_zero
parse_zero-ReadsNext [] rest document h = absurd (cc h)
parse_zero-ReadsNext (c ∷ line) rest document h = h

abbrev pub one_request :
    Json → Option (List (List Pair × List (List (List Pair × List (List Pair)))))
one_request document = some (resource ∷ [])

zero_decoded :
    decode_json sample_messages parse_zero one_request [] (48 ∷ [])
    ≡ some (from_proto sample_messages [] (resource ∷ []))
unfolding decode_json
zero_decoded = refl

-- Two requests in two lines, of which the second is not read.
read_bytes-first_line_example :
    read_bytes sample_messages parse_zero one_request [] (48 ∷ 10 ∷ 48 ∷ [])
    ≡ accepted (from_proto sample_messages [] (resource ∷ []))
read_bytes-first_line_example =
    read_bytes-first_line sample_messages parse_zero one_request [] parse_zero-ReadsNext (48 ∷ [])
      (48 ∷ []) (from_proto sample_messages [] (resource ∷ [])) zero_decoded

abbrev trace_file : String → File
trace_file path = record { path = path; is_dir = false; size = some 1; content = some (48 ∷ []) }

abbrev pub two_files : Input
two_files = directory (some (trace_file "b.json" ∷ trace_file "a.JSONL" ∷ trace_file "c.txt" ∷ []))

abbrev pub limits : ℕ → Limits
limits n = record { max_bytes = 64; max_spans = n }

refused_lem :
    read_path sample_messages parse_zero one_request [] (limits 1) two_files
    ≡ some (refused too_many_spans)
unfolding read_path
refused_lem = refl

read_path-IsWithin_example :
    (r : Read) × (read_path sample_messages parse_zero one_request [] (limits 2) two_files ≡ some r)
    × IsWithin (limits 2) r
read_path-IsWithin_example =
    read_path-IsWithin sample_messages parse_zero one_request [] (limits 2) two_files

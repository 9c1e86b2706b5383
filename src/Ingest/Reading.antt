-- ===== src/Ingest/Reading.antt =====
-- ReadPath, readFile, DecodeJSON and DecodeRequestJSON of internal/ingest/otlp.go. The file system is an
-- argument: what os.Stat, the walk and the reading of each file answer. encoding/json and protojson are
-- parameters. A space is one of ASCII; a limit of 0 or less is 0, and means none.
use Prim.Native.String.{compare}
use text.Mathlib.Text.{is_lt}
use async_trace_doctor.Common.{
  ℕ, zero, suc, ◌+◌, String, Bool, not, ◌&&◌, ◌||◌, Option, none, some, List, [], ◌∷◌,
  ◌++◌ as append, length, leb, ltb, nat_eq, ◌>>=◌, if◌then◌else◌, filter_by,
}
use async_trace_doctor.Common.Texts.{to_lower}
use async_trace_doctor.Model.{Span}
use async_trace_doctor.Ingest.Dedup.{conflicting, distinct, Deduplicated, deduplicate_spans}
use async_trace_doctor.Ingest.Identifiers.{Json, normalize_ids}
use async_trace_doctor.Ingest.Conversion.{Messages, has_suffix, from_proto}

-- max_bytes is at most 2^63 - 1.
pub record Limits : Type 0 where
  pub max_bytes : ℕ
  pub max_spans : ℕ

-- What the file system has for a path: its size, `none` where os.Stat fails, and its bytes, `none` where
-- it cannot be opened or read.
pub record File : Type 0 where
  pub path : String
  pub is_dir : Bool
  pub size : Option ℕ
  pub content : Option (List ℕ)

-- What the path of ReadPath is. A directory has all that the walk meets, `none` where the walk fails.
pub data Input : Type 0 where
  missing : Input
  file : File → Input
  directory : Option (List File) → Input

pub data ReadError : Type 0 where
  no_input walk_failed no_files stat_failed too_many_bytes unreadable empty_input malformed
        line_too_long too_many_spans :
      ReadError
  conflict : String → ReadError

pub data Read : Type 0 where
  refused : ReadError → Read
  accepted : List Span → Read

abbrev pub then_read : Read → (List Span → Read) → Read
then_read (refused e) k = refused e
then_read (accepted spans) k = k spans

abbrev pub read_of : Deduplicated → Read
read_of (distinct spans) = accepted spans
read_of (conflicting id) = refused (conflict id)

unfoldable pub insert_file : File → List File → List File
insert_file f [] = f ∷ []
insert_file f (g ∷ gs) = if is_lt (compare g.path f.path) then g ∷ insert_file f gs else f ∷ g ∷ gs

-- sort.Strings; a walk meets no path twice.
unfoldable pub sort_files : List File → List File
unfolding insert_file
sort_files [] = []
sort_files (f ∷ fs) = insert_file f (sort_files fs)

unfoldable pub is_trace_file : File → Bool
unfolding has_suffix to_lower
is_trace_file f =
    not f.is_dir && (has_suffix (to_lower f.path) ".json" || has_suffix (to_lower f.path) ".jsonl")

unfoldable pub is_space : ℕ → Bool
is_space c = nat_eq c 32 || leb 9 c && leb c 13

unfoldable pub trim_left : List ℕ → List ℕ
unfolding is_space
trim_left [] = []
trim_left (c ∷ cs) = if is_space c then trim_left cs else c ∷ cs

unfoldable pub trim_right : List ℕ → List ℕ
unfolding is_space
trim_right [] = []
trim_right (c ∷ cs) =
    let rest = trim_right cs in if is_space c && nat_eq (length rest) 0 then [] else c ∷ rest

-- bytes.TrimSpace
unfoldable pub trim_space : List ℕ → List ℕ
unfolding trim_left trim_right
trim_space cs = trim_right (trim_left cs)

unfoldable pub take_bytes : ℕ → List ℕ → List ℕ
take_bytes zero cs = []
take_bytes (suc n) [] = []
take_bytes (suc n) (c ∷ cs) = c ∷ take_bytes n cs

-- io.LimitReader(f, maxBytes+1), where the sum overflows to a negative limit at the largest int64.
unfoldable pub limit_read : ℕ → List ℕ → List ℕ
unfolding take_bytes
limit_read max_bytes cs =
    if nat_eq max_bytes 0
    then cs
    else if ltb max_bytes 9223372036854775807
    then take_bytes (suc max_bytes) cs
    else []

abbrev with_byte : ℕ → List (List ℕ) → List (List ℕ)
with_byte c [] = (c ∷ []) ∷ []
with_byte c (line ∷ lines) = (c ∷ line) ∷ lines

-- The lines of bufio.ScanLines with their carriage returns, which TrimSpace removes.
unfoldable pub split_lines : List ℕ → List (List ℕ)
split_lines [] = []
split_lines (c ∷ cs) =
    let rest = split_lines cs in if nat_eq c 10 then [] ∷ rest else with_byte c rest

module _ (M : Messages) (parse : List ℕ → Option Json)
    (unmarshal : Json → Option (List M.ResourceSpans)) (redact : List String) where
  unfoldable pub decode_request_json : List ℕ → Option (List M.ResourceSpans)
  unfolding normalize_ids
  decode_request_json bytes =
      parse bytes >>= λ document. normalize_ids document >>= λ normalized. unmarshal normalized

  unfoldable pub decode_json : List ℕ → Option (List Span)
  unfolding decode_request_json from_proto
  decode_json bytes = decode_request_json bytes >>= λ request. some (from_proto M redact request)

  -- The loop of readFile over the lines. A line that does not fit the scanner's buffer of 16 MiB ends it.
  unfoldable pub scan_lines : List (List ℕ) → List Span → Read
  unfolding decode_json trim_space
  scan_lines [] all = accepted all
  scan_lines (line ∷ rest) all =
      if leb 16777216 (length line)
      then refused line_too_long
      else if nat_eq (length (trim_space line)) 0
      then scan_lines rest all
      else (elim (decode_json (trim_space line)) [
        | none ↦ refused malformed
        | some spans ↦ scan_lines rest (append all spans)
      ])

  unfoldable pub read_bytes : List ℕ → Read
  unfolding decode_json scan_lines split_lines
  read_bytes trim =
      if nat_eq (length trim) 0 then refused empty_input else (elim (decode_json trim) [
        | some spans ↦ accepted spans
        | none ↦ scan_lines (split_lines trim) []
      ])

  unfoldable pub read_file : File → ℕ → Read
  unfolding read_bytes limit_read trim_space
  read_file f max_bytes = elim f.content [
    | none ↦ refused unreadable
    | some bytes ↦ read_bytes (trim_space (limit_read max_bytes bytes))
  ]

  -- The loop of ReadPath, whose sum of the sizes stays below 2^63.
  unfoldable pub read_files : Limits → List File → ℕ → List Span → Read
  unfolding read_file
  read_files limits [] consumed spans = accepted spans
  read_files limits (f ∷ fs) consumed spans = elim f.size [
    | none ↦ refused stat_failed
    | some size ↦
        if ltb 0 limits.max_bytes && ltb limits.max_bytes (consumed + size)
        then refused too_many_bytes
        else then_read (read_file f limits.max_bytes) (λ parsed.
          if ltb 0 limits.max_spans && ltb limits.max_spans (length (append spans parsed))
          then refused too_many_spans
          else read_files limits fs (consumed + size) (append spans parsed))
  ]

  unfoldable pub read_all : Limits → List File → Option Read
  unfolding read_files deduplicate_spans
  read_all limits files =
      if nat_eq (length files) 0
      then some (refused no_files)
      else (elim (read_files limits files 0 []) [
        | refused e ↦ some (refused e)
        | accepted spans ↦ deduplicate_spans spans >>= λ d. some (read_of d)
      ])

  -- `none` stands for a panic, as in deduplicate_spans.
  unfoldable pub read_path : Limits → Input → Option Read
  unfolding read_all sort_files is_trace_file
  read_path limits missing = some (refused no_input)
  read_path limits (file f) = read_all limits (f ∷ [])
  read_path limits (directory none) = some (refused walk_failed)
  read_path limits (directory (some met)) =
      read_all limits (sort_files (filter_by is_trace_file met))

-- ===== src/Service/Decompress.antt =====
-- decompressContext of internal/server/server.go. The gzip reader of Go is given by what each round of the
-- loop meets: the context or the deadline is over, or a read answers some bytes and how it ended. The
-- deadline of five seconds ends every sequence of rounds.
use async_trace_doctor.Common.{
  ℕ, ◌+◌, ◌*◌, String, Bool, not, ◌&&◌, ◌||◌, Option, none, some, List, [], ◌++◌, length, ltb, ◌==◌,
  if◌then◌else◌,
}
use async_trace_doctor.Common.Int.{ℤ, pos, ltb_ℤ, leb_ℤ}
use async_trace_doctor.Common.Texts.{equal_fold}

pub data Rounds : Type 0 where
  canceled timed_out : Rounds
  last failed : List ℕ → Rounds
  more : List ℕ → Rounds → Rounds

pub data DecodeError : Type 0 where
  unsupported_encoding invalid_header context_canceled deadline_passed too_large suspicious_ratio
        read_failed :
      DecodeError

pub data Decoded : Type 0 where
  ok : List ℕ → Decoded
  err : DecodeError → Decoded

-- minInt64
unfoldable pub smaller_capacity : ℤ → ℕ → ℤ
smaller_capacity a b = if leb_ℤ a (pos 0) || ltb_ℤ (pos b) a then pos b else a

abbrev pub exceeds : ℕ → ℤ → Bool
exceeds n max_bytes = ltb_ℤ max_bytes (pos n)

-- len(body) > 0 && n > len(body)*100
abbrev pub is_suspicious : List ℕ → ℕ → Bool
is_suspicious body n = ltb 0 (length body) && ltb (length body * 100) n

-- What is decoded after a chunk, under if n > 0.
unfoldable pub take_chunk : List ℕ → ℤ → List ℕ → List ℕ → Decoded
take_chunk body max_bytes decoded chunk =
    if not (ltb 0 (length chunk))
    then ok decoded
    else if exceeds (length decoded + length chunk) max_bytes
    then err too_large
    else if is_suspicious body (length decoded + length chunk)
    then err suspicious_ratio
    else ok (decoded ++ chunk)

-- The loop, at the bytes decoded so far.
unfoldable pub inflate : List ℕ → ℤ → List ℕ → Rounds → Decoded
unfolding take_chunk
inflate body max_bytes decoded canceled = err context_canceled
inflate body max_bytes decoded timed_out = err deadline_passed
inflate body max_bytes decoded (last chunk) = take_chunk body max_bytes decoded chunk
inflate body max_bytes decoded (failed chunk) = elim (take_chunk body max_bytes decoded chunk) [
  | err e ↦ err e
  | ok d ↦ err read_failed
]
inflate body max_bytes decoded (more chunk rest) = elim (take_chunk body max_bytes decoded chunk) [
  | err e ↦ err e
  | ok d ↦ inflate body max_bytes d rest
]

-- `open_reader` is gzip.NewReader together with the rounds that follow; `none` is an error.
unfoldable pub decompress_context : (List ℕ → Option Rounds) → List ℕ → String → ℤ → Decoded
unfolding equal_fold inflate
decompress_context open_reader body encoding max_bytes =
    if encoding == "" || equal_fold encoding "identity"
    then ok body
    else if not (equal_fold encoding "gzip")
    then err unsupported_encoding
    else elim (open_reader body) [
      | none ↦ err invalid_header
      | some rounds ↦ inflate body max_bytes [] rounds
    ]

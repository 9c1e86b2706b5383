-- ===== src/Ingest/RoundTrip.antt =====
-- The identifiers of a file in OTLP/JSON, on their way to the bytes of a message and back.
use Prim.Native.String.{len}
use async_trace_doctor.Common.{
  ℕ, ◌<◌, ◌*◌, ◌≡◌, refl, String, Bool, true, false, not, any, ◌&&◌, some, List, All, length,
  nat_eq, ◌==◌, if◌then◌else◌, Bool-cases, inl, inr, eq_iff, arith, subst,
}
use async_trace_doctor.Ingest.Encodings.{
  hex_encode, base64_encode, hex_decode-hex_encode, len-hex_encode,
}
use async_trace_doctor.Ingest.Identifiers.{Json, normalize_text, encode_non_zero_hex}

-- The bytes of an identifier.
abbrev pub width : String → ℕ
width k = if k == "traceId" then 16 else 8

-- The text that FromProto gives the bytes under a key.
unfoldable pub identifier_text : String → List ℕ → String
unfolding encode_non_zero_hex
identifier_text k bs = if k == "parentSpanId" then encode_non_zero_hex bs else hex_encode bs

is_set : List ℕ → Bool
is_set bs = any (λ v. not (nat_eq v 0)) bs

-- The text that normalizeIDs is to hand on: an empty one for a parent that is all zero, as for a span
-- that has no parent, and else the base64 of the bytes.
unfoldable pub normal_text : String → List ℕ → String
unfolding is_set
normal_text k bs = if k == "parentSpanId" && not (is_set bs) then "" else base64_encode bs

hex_encode-normal :
    (k : String) (bs : List ℕ)
    → length bs ≡ width k
    → All (λ b. b < 256) bs
    → normalize_text k (hex_encode bs) ≡ some (Json.text (base64_encode bs))
unfolding normalize_text
hex_encode-normal k bs w h =
    let l = len-hex_encode bs h in
    let d = hex_decode-hex_encode bs h in
    let e : (hex_encode bs == "") ≡ false = nonempty (hex_encode bs) l in
    let f : nat_eq (len (hex_encode bs)) (if k == "traceId" then 32 else 16) ≡ true =
      fits (k == "traceId") (len (hex_encode bs)) (length bs) l w in
    rw (e, f, d, normalize_text) refl
  where
    fits :
        (b : Bool) (n m : ℕ)
        → n ≡ m * 2
        → m ≡ (if b then 16 else 8)
        → nat_eq n (if b then 32 else 16) ≡ true
    fits true n m p q = ground arith
    fits false n m p q = ground arith

    long : (b : Bool) (m : ℕ) → 0 ≡ m * 2 → m ≡ (if b then 16 else 8) → ⊥
    long true m p q = omega arith
    long false m p q = omega arith

    nonempty : (s : String) → len s ≡ length bs * 2 → (s == "") ≡ false
    nonempty s l = elim (Bool-cases (s == "")) [
      | inr other ↦ other
      | inl same ↦
          let e : s ≡ "" = (eq_iff s "").0 same in
          absurd (long (k == "traceId") (length bs) (subst (λ t. len t ≡ length bs * 2) e l) w)
    ]

normalize_text-no_parent :
    (k : String) → (k == "parentSpanId") ≡ true → normalize_text k "" ≡ some (Json.text "")
unfolding normalize_text
normalize_text-no_parent k parent = rw (parent, normalize_text) refl

-- For the bytes of an identifier, as many as its key wants, the text that FromProto gives them is one
-- that normalizeIDs accepts under the key. It hands on the base64 of the same bytes, and the empty text
-- for a parent of zero bytes alone, which FromProto writes as no parent.
pub normalize_text-identifier_text :
    (k : String) (bs : List ℕ)
    → length bs ≡ width k
    → All (λ b. b < 256) bs
    → normalize_text k (identifier_text k bs) ≡ some (Json.text (normal_text k bs))
unfolding identifier_text normal_text encode_non_zero_hex is_set
normalize_text-identifier_text k bs w h = elim (Bool-cases (k == "parentSpanId")) [
  | inr other ↦ rw (other, identifier_text, normal_text) (hex_encode-normal k bs w h)
  | inl parent ↦ elim (Bool-cases (is_set bs)) [
    | inl set ↦ rw (parent, set, identifier_text, normal_text) (hex_encode-normal k bs w h)
    | inr zeros ↦
        rw (parent, zeros, identifier_text, normal_text) (normalize_text-no_parent k parent)
  ]
]

-- ===== src/Ingest/Identifiers.antt =====
-- normalizeIDs of internal/ingest/otlp.go on a JSON document, and encodeNonZeroHex. `none` stands for an
-- error; which of several errors is met first depends on the order in which Go visits a map.
use Prim.Native.String.{len}
use async_trace_doctor.Common.{
  ℕ, String, Bool, not, ◌&&◌, ◌||◌, Option, none, some, List, any, nat_eq, ◌==◌, ◌>>=◌,
  if◌then◌else◌,
}
use async_trace_doctor.Ingest.Encodings.{hex_encode, hex_decode, base64_encode}

-- A document as encoding/json decodes it.
mutual
  pub data Json : Type 0 where
    null : Json
    flag : Bool → Json
    number : String → Json
    text : String → Json
    array : Items → Json
    object : Fields → Json

  pub data Items : Type 0 where
    end : Items
    item : Json → Items → Items

  pub data Fields : Type 0 where
    done : Fields
    field : String → Json → Fields → Fields

abbrev pub is_id_key : String → Bool
is_id_key k = k == "traceId" || k == "spanId" || k == "parentSpanId"

-- The value of an identifier's key: hexadecimal in the file, base64 for protojson.
unfoldable pub normalize_text : String → String → Option Json
unfolding hex_decode base64_encode
normalize_text k s =
    if s == "" && k == "parentSpanId"
    then some (Json.text s)
    else if not (nat_eq (len s) (if k == "traceId" then 32 else 16))
    then none
    else hex_decode s >>= λ decoded. some (Json.text (base64_encode decoded))

unfoldable pub normalize_id : String → Json → Option Json
unfolding normalize_text
normalize_id k (Json.text s) = normalize_text k s
normalize_id k _ = none

unfoldable mutual
  unfolding normalize_id

  pub normalize_ids : Json → Option Json
  normalize_ids (Json.array xs) = normalize_items xs >>= λ ys. some (Json.array ys)
  normalize_ids (Json.object fs) = normalize_fields fs >>= λ gs. some (Json.object gs)
  normalize_ids v = some v

  normalize_items : Items → Option Items
  normalize_items Items.end = some Items.end
  normalize_items (Items.item x xs) =
      normalize_ids x >>= λ y. normalize_items xs >>= λ ys. some (Items.item y ys)

  normalize_fields : Fields → Option Fields
  normalize_fields Fields.done = some Fields.done
  normalize_fields (Fields.field k child fs) =
      let id = normalize_id k child in
      let inner = normalize_ids child in
      (if is_id_key k then id else inner) >>= λ y.
      normalize_fields fs >>= λ gs. some (Fields.field k y gs)

unfoldable pub encode_non_zero_hex : List ℕ → String
unfolding hex_encode
encode_non_zero_hex b = if any (λ v. not (nat_eq v 0)) b then hex_encode b else ""

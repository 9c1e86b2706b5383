-- ===== src/Common/Fnv.antt =====
-- What the program uses of hash/fnv, encoding/binary and sort to digest a span: the 64-bit FNV-1a hash
-- of a sequence of bytes, the bytes of a text, the eight little-endian bytes of a word, sorted texts.
use Prim.Native.Nat.{ℕ, zero, suc, ◌+◌, ◌*◌, ◌/◌, ◌%◌, ◌^◌, bit_xor}
use Prim.Native.Char.{code}
use Prim.Native.String.{String, compare}
use mathlib.Core.Path.{◌≡◌, refl}
use mathlib.Core.List.{List, [], ◌∷◌, ◌++◌}
use text.Mathlib.Text.{is_le}
use async_trace_doctor.Common.Tests.{ltb, if◌then◌else◌}

fnv_from : ℕ → List ℕ → ℕ
fnv_from h [] = h
fnv_from h (b ∷ bs) = fnv_from (bit_xor h b * 1099511628211 % 2 ^ 64) bs

-- h := fnv.New64a(); h.Write(bytes); h.Sum64()
unfoldable pub fnv64a : List ℕ → ℕ
unfolding fnv_from
fnv64a = fnv_from 14695981039346656037

char_bytes : ℕ → List ℕ
char_bytes n =
    if ltb n 0x80
    then n ∷ []
    else if ltb n 0x800
    then (0xc0 + n / 64) ∷ (0x80 + n % 64) ∷ []
    else if ltb n 0x10000
    then (0xe0 + n / 4096) ∷ (0x80 + n / 64 % 64) ∷ (0x80 + n % 64) ∷ []
    else (0xf0 + n / 262144) ∷ (0x80 + n / 4096 % 64) ∷ (0x80 + n / 64 % 64) ∷ (0x80 + n % 64) ∷ []

-- []byte(s)
unfoldable pub text_bytes : String → List ℕ
unfolding char_bytes
text_bytes String.[] = []
text_bytes (String.◌∷◌ c s) = char_bytes (code c) ++ text_bytes s

little_endian : ℕ → ℕ → List ℕ
little_endian zero w = []
little_endian (suc n) w = w % 256 ∷ little_endian n (w / 256)

-- binary.LittleEndian.PutUint64
unfoldable pub word_bytes : ℕ → List ℕ
unfolding little_endian
word_bytes = little_endian 8

insert_text : String → List String → List String
insert_text s [] = s ∷ []
insert_text s (t ∷ ts) = if is_le (compare s t) then s ∷ t ∷ ts else t ∷ insert_text s ts

-- sort.Strings
unfoldable pub sort_texts : List String → List String
unfolding insert_text
sort_texts [] = []
sort_texts (s ∷ ts) = insert_text s (sort_texts ts)

fnv64a_lem : fnv64a (text_bytes "foobar") ≡ 0x85944171f73967e8
unfolding fnv64a text_bytes
fnv64a_lem = refl

text_bytes_lem : text_bytes "é€" ≡ 0xc3 ∷ 0xa9 ∷ 0xe2 ∷ 0x82 ∷ 0xac ∷ []
unfolding text_bytes
text_bytes_lem = refl

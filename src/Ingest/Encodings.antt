-- ===== src/Ingest/Encodings.antt =====
-- What internal/ingest/otlp.go uses of encoding/hex and encoding/base64: texts for sequences of bytes.
use Prim.Native.Char.{Char, code, nul, len_utf8}
use Prim.Native.String.{len}
use Prim.Native.String.len.{cons}
use async_trace_doctor.Common.{
  ℕ, zero, suc, ◌+◌, ◌*◌, ◌/◌, ◌%◌, ◌<◌, ◌≡◌, refl, subst, String, Bool, true, false, ◌&&◌, &&-left,
  &&-right, Option, none, some, List, [], ◌∷◌, All, length, ltb, nat_eq, nat_eq→eq, ◌>>=◌,
  if◌then◌else◌, Bool-cases, inl, inr, arith,
}
use async_trace_doctor.Model.Scan.{digit_value}

-- The character of a position in an alphabet.
abbrev nth_char : String → ℕ → Char
nth_char String.[] i = nul
nth_char (String.◌∷◌ c s) zero = c
nth_char (String.◌∷◌ c s) (suc i) = nth_char s i

abbrev hex_char : ℕ → Char
hex_char = nth_char "0123456789abcdef"

-- hex.EncodeToString
unfoldable pub hex_encode : List ℕ → String
hex_encode [] = String.[]
hex_encode (b ∷ bs) =
    String.◌∷◌ (hex_char (b / 16)) (String.◌∷◌ (hex_char (b % 16)) (hex_encode bs))

-- hex.DecodeString; `none` is an error.
unfoldable pub hex_decode : String → Option (List ℕ)
unfolding digit_value
hex_decode String.[] = some []
hex_decode (String.◌∷◌ c String.[]) = none
hex_decode (String.◌∷◌ c (String.◌∷◌ d s)) =
    let rest = hex_decode s in
    if ltb (digit_value (code c)) 16 && ltb (digit_value (code d)) 16
    then rest >>= (λ bs. some ((digit_value (code c) * 16 + digit_value (code d)) ∷ bs))
    else none

abbrev base64_char : ℕ → Char
base64_char = nth_char "ABCDEFGHIJKLMNOPQRSTUVWXYZabcdefghijklmnopqrstuvwxyz0123456789+/"

-- base64.StdEncoding.EncodeToString
unfoldable pub base64_encode : List ℕ → String
base64_encode [] = String.[]
base64_encode (a ∷ []) =
    String.◌∷◌ (base64_char (a / 4)) (String.◌∷◌ (base64_char (a % 4 * 16)) "==")
base64_encode (a ∷ b ∷ []) =
    String.◌∷◌ (base64_char (a / 4))
      (String.◌∷◌ (base64_char (a % 4 * 16 + b / 16)) (String.◌∷◌ (base64_char (b % 16 * 4)) "="))
base64_encode (a ∷ b ∷ c ∷ rest) = String.◌∷◌ (base64_char (a / 4)) (
    String.◌∷◌ (base64_char (a % 4 * 16 + b / 16)) (
      String.◌∷◌ (base64_char (b % 16 * 4 + c / 64))
        (String.◌∷◌ (base64_char (c % 64)) (base64_encode rest))))

base64_lem : base64_encode (0x4d ∷ 0x61 ∷ 0x6e ∷ 0x4d ∷ []) ≡ "TWFuTQ=="
unfolding base64_encode
base64_lem = refl

hex_lem : hex_decode "0aF7" ≡ some (0x0a ∷ 0xf7 ∷ [])
unfolding hex_decode
hex_lem = refl

-- A test passes at each number below a bound.
abbrev all_below : (ℕ → Bool) → ℕ → Bool
all_below test zero = true
all_below test (suc k) = test k && all_below test k

below : (test : ℕ → Bool) (k n : ℕ) → all_below test k ≡ true → n < k → test n ≡ true
below test zero n h l = absurd (omega arith)
below test (suc k) n h l = elim (Bool-cases (nat_eq n k)) [
  | inl same ↦ subst (λ m. test m ≡ true) (back n k same) (&&-left (test k) (all_below test k) h)
  | inr other ↦ below test k n (&&-right (test k) (all_below test k) h) (fewer n k l other)
]
  where
    back : (n k : ℕ) → nat_eq n k ≡ true → k ≡ n
    back n k e = ground arith

    fewer : (n k : ℕ) → n < suc k → nat_eq n k ≡ false → n < k
    fewer n k l e = ground arith

digit_value-hex_char : (n : ℕ) → n < 16 → digit_value (code (hex_char n)) ≡ n
unfolding digit_value
digit_value-hex_char n h =
    nat_eq→eq _ _ (below (λ n. nat_eq (digit_value (code (hex_char n))) n) 16 n refl h)

hex_char-len : (n : ℕ) → n < 16 → len_utf8 (hex_char n) ≡ 1
hex_char-len n h = nat_eq→eq _ _ (below (λ n. nat_eq (len_utf8 (hex_char n)) 1) 16 n refl h)

ltb-lt : (m n : ℕ) → m < n → ltb m n ≡ true
ltb-lt m n h = ground arith

-- What is encoded is decoded again.
pub hex_decode-hex_encode :
    (bs : List ℕ) → All (λ b. b < 256) bs → hex_decode (hex_encode bs) ≡ some bs
unfolding hex_decode hex_encode
hex_decode-hex_encode [] h = refl
hex_decode-hex_encode (b ∷ bs) (small, h) =
    let p : digit_value (code (hex_char (b / 16))) ≡ b / 16 =
      digit_value-hex_char (b / 16) (omega arith) in
    let q : digit_value (code (hex_char (b % 16))) ≡ b % 16 =
      digit_value-hex_char (b % 16) (omega arith) in
    let s : ltb (b / 16) 16 ≡ true = ltb-lt (b / 16) 16 (omega arith) in
    let t : ltb (b % 16) 16 ≡ true = ltb-lt (b % 16) 16 (omega arith) in
    let e : b / 16 * 16 + b % 16 ≡ b = omega arith in
    rw (p, q, s, t, e, hex_decode-hex_encode bs h, hex_decode, hex_encode) refl

len-cons : (c : Char) (s : String) → len (String.◌∷◌ c s) ≡ len_utf8 c + len s
len-cons c s = λ i. cons c s i

pub len-hex_encode : (bs : List ℕ) → All (λ b. b < 256) bs → len (hex_encode bs) ≡ length bs * 2
unfolding hex_encode
len-hex_encode [] h = refl
len-hex_encode (b ∷ bs) (small, h) =
    let p : len_utf8 (hex_char (b / 16)) ≡ 1 = hex_char-len (b / 16) (omega arith) in
    let q : len_utf8 (hex_char (b % 16)) ≡ 1 = hex_char-len (b % 16) (omega arith) in
    let k = len-hex_encode bs h in
    let e = len-cons (hex_char (b / 16)) (String.◌∷◌ (hex_char (b % 16)) (hex_encode bs)) in
    let f = len-cons (hex_char (b % 16)) (hex_encode bs) in omega (arith, e, f, p, q, k)

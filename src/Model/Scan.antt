-- ===== src/Model/Scan.antt =====
-- What model.go uses of strconv and fmt to read a number from a text: json.Number.Int64, which is
-- strconv.ParseInt in base 10, and fmt.Sscan into an int, which reads an optional sign, an optional
-- base prefix and digits, and leaves what follows them.
use async_trace_doctor.Common.{
  ℕ, ◌+◌, ◌-◌, ◌*◌, ◌≡◌, refl, String, Bool, true, false, ◌&&◌, ◌||◌, Option, none, some, List, [],
  ◌∷◌, ltb, leb, nat_eq, not, if◌then◌else◌,
}
use async_trace_doctor.Common.Int.{ℤ, pos, negsuc, sub_ℕ, ltb_ℤ, max_int64, min_int64}
use async_trace_doctor.Common.Texts.{codes}

-- The value of a digit character; 36 for a character that is no digit.
unfoldable pub digit_value : ℕ → ℕ
digit_value c =
    if leb b'0' c && leb c b'9'
    then c - b'0'
    else if leb b'a' c && leb c b'z'
    then c - b'a' + 10
    else if leb b'A' c && leb c b'Z'
    then c - b'A' + 10
    else 36

abbrev underscore : ℕ
underscore = b'_'

-- A signed value in the range of an int64.
in_range : Bool → ℕ → Option ℤ
in_range negative n =
    let v = if negative then sub_ℕ 0 n else pos n in
    if ltb_ℤ max_int64 v || ltb_ℤ v min_int64 then none else some v

-- The sign in front of a number: whether it is negative, and the rest.
split_sign : List ℕ → Bool × List ℕ
split_sign [] = (false, [])
split_sign (c ∷ cs) =
    if nat_eq c b'-' then (true, cs) else if nat_eq c b'+' then (false, cs) else (false, c ∷ cs)

-- All of a text as digits in base 10, after at least one.
all_digits : ℕ → List ℕ → Option ℕ
all_digits acc [] = some acc
all_digits acc (c ∷ cs) =
    let rest = all_digits (acc * 10 + digit_value c) cs in
    if ltb (digit_value c) 10 then rest else none

unsigned_decimal : List ℕ → Option ℕ
unsigned_decimal [] = none
unsigned_decimal (c ∷ cs) = all_digits 0 (c ∷ cs)

-- strconv.ParseInt(s, 10, 64); `none` is an error.
unfoldable pub parse_int : String → Option ℤ
unfolding codes split_sign unsigned_decimal all_digits digit_value in_range
parse_int s =
    let (negative, cs) = split_sign (codes s) in
    elim (unsigned_decimal cs) [ none ↦ none | some n ↦ in_range negative n ]

is_space : ℕ → Bool
is_space c = nat_eq c 32 || (leb 9 c && leb c 13) || nat_eq c 133 || nat_eq c 160

skip_space : List ℕ → List ℕ
skip_space [] = []
skip_space (c ∷ cs) = if is_space c then skip_space cs else c ∷ cs

-- The digits of a base and the underscores that begin a text.
take_digits : ℕ → List ℕ → List ℕ
take_digits base [] = []
take_digits base (c ∷ cs) =
    if ltb (digit_value c) base || nat_eq c underscore then c ∷ take_digits base cs else []

-- An underscore stands between digits only (a base prefix counts as one).
underscores_ok : Bool → List ℕ → Bool
underscores_ok digit_before [] = digit_before
underscores_ok digit_before (c ∷ cs) =
    (not (nat_eq c underscore) || digit_before) && underscores_ok (not (nat_eq c underscore)) cs

digits_value : ℕ → ℕ → List ℕ → ℕ
digits_value base acc [] = acc
digits_value base acc (c ∷ cs) =
    digits_value base (if nat_eq c underscore then acc else acc * base + digit_value c) cs

-- The number that a token stands for; `prefixed` says that a 0 was read before the token.
token_value : ℕ → Bool → List ℕ → Option ℕ
token_value base prefixed token =
    if underscores_ok prefixed token then some (digits_value base 0 token) else none

-- A number after 0b, 0o or 0x, which wants a digit.
prefixed_value : ℕ → List ℕ → Option ℕ
prefixed_value base cs = elim (take_digits base cs) [
  | [] ↦ none
  | c ∷ token ↦ token_value base true (c ∷ token)
]

-- A number after a leading 0.
after_zero : List ℕ → Option ℕ
after_zero [] = some 0
after_zero (c ∷ cs) =
    if nat_eq c b'b' || nat_eq c b'B'
    then prefixed_value 2 cs
    else if nat_eq c b'o' || nat_eq c b'O'
    then prefixed_value 8 cs
    else if nat_eq c b'x' || nat_eq c b'X'
    then prefixed_value 16 cs
    else token_value 8 true (take_digits 8 (c ∷ cs))

unsigned_prefixed : List ℕ → Option ℕ
unsigned_prefixed [] = none
unsigned_prefixed (c ∷ cs) =
    if nat_eq c b'0' then after_zero cs else token_value 10 false (take_digits 10 (c ∷ cs))

-- fmt.Sscan(s, &i) into a 64-bit integer; `none` is an error.
unfoldable pub scan_int : String → Option ℤ
unfolding codes is_space skip_space split_sign unsigned_prefixed after_zero prefixed_value
    token_value take_digits underscores_ok digits_value digit_value in_range
scan_int s =
    let (negative, cs) = split_sign (skip_space (codes s)) in
    elim (unsigned_prefixed cs) [ none ↦ none | some n ↦ in_range negative n ]

scan_int_lem : scan_int " -12 messages" ≡ some (negsuc 11)
unfolding scan_int
scan_int_lem = refl

scan_int_hex : scan_int "0x1_f" ≡ some (pos 31)
unfolding scan_int
scan_int_hex = refl

scan_int_bad : scan_int "x" ≡ none
unfolding scan_int
scan_int_bad = refl

parse_int_lem : parse_int "9223372036854775808" ≡ none
unfolding parse_int
parse_int_lem = refl

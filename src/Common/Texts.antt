-- ===== src/Common/Texts.antt =====
-- What the program uses of Go's strings package, over the native texts. Case is folded for the
-- ASCII letters alone: every name that the program folds is a protocol word in ASCII.
use Prim.Native.Nat.{ℕ, zero, suc, ◌/◌, ◌%◌}
use Prim.Native.Char.{Char, code}
use Prim.Native.String.{String, ◌++◌}
use mathlib.Core.Path.{◌≡◌, refl, sym, ◌∙◌}
use mathlib.Core.Logic.{inl, inr}
use mathlib.Core.Bool.{Bool, true, ◌&&◌, false≢true}
use mathlib.Core.List.{List, [], ◌∷◌}
use text.Mathlib.Text.{starts_with}
use text.Mathlib.TextEquality.{eq_iff}
use async_trace_doctor.Common.Tests.{Bool-cases, nat_eq, ltb, ◌==◌, if◌then◌else◌}

-- The character of `to` that stands where `c` stands in `from`, and `c` itself if it does not.
translate : String → String → Char → Char
translate (String.◌∷◌ u from) (String.◌∷◌ l to) c =
    if nat_eq (code c) (code u) then l else translate from to c
translate String.[] to c = c
translate from String.[] c = c

abbrev uppers : String
uppers = "ABCDEFGHIJKLMNOPQRSTUVWXYZ"

abbrev lowers : String
lowers = "abcdefghijklmnopqrstuvwxyz"

map_chars : (Char → Char) → String → String
map_chars f String.[] = String.[]
map_chars f (String.◌∷◌ c s) = String.◌∷◌ (f c) (map_chars f s)

-- strings.ToLower, strings.ToUpper
unfoldable pub to_lower : String → String
unfolding translate map_chars
to_lower = map_chars (translate uppers lowers)

unfoldable pub to_upper : String → String
unfolding translate map_chars
to_upper = map_chars (translate lowers uppers)

-- strings.EqualFold
unfoldable pub equal_fold : String → String → Bool
unfolding to_lower
equal_fold s t = to_lower s == to_lower t

-- strings.HasPrefix
abbrev pub has_prefix : String → String → Bool
has_prefix s p = starts_with s p

-- strings.Trim(s, "0")
unfoldable pub trim_left_zeros : String → String
trim_left_zeros String.[] = String.[]
trim_left_zeros (String.◌∷◌ c s) =
    if nat_eq (code c) b'0' then trim_left_zeros s else String.◌∷◌ c s

unfoldable pub trim_right_zeros : String → String
trim_right_zeros String.[] = String.[]
trim_right_zeros (String.◌∷◌ c s) =
    let rest = trim_right_zeros s in
    if nat_eq (code c) b'0' && rest == "" then String.[] else String.◌∷◌ c rest

unfoldable pub trim_zeros : String → String
unfolding trim_left_zeros trim_right_zeros
trim_zeros s = trim_right_zeros (trim_left_zeros s)

-- The part of a text before the first `stop`, and the whole text if there is none:
-- `if idx := strings.IndexByte(s, stop); idx != -1 { s = s[:idx] }`.
unfoldable pub before : ℕ → String → String
before stop String.[] = String.[]
before stop (String.◌∷◌ c s) =
    if nat_eq (code c) stop then String.[] else String.◌∷◌ c (before stop s)

-- strings.Join
unfoldable pub join : String → List String → String
join sep [] = ""
join sep (s ∷ []) = s
join sep (s ∷ rest) = s ++ (sep ++ join sep rest)

unfoldable pub String-discrete : Discrete String
String-discrete s t = elim (Bool-cases (s == t)) [
  | inl same ↦ yes ((eq_iff s t).0 same)
  | inr other ↦ no (λ p. false≢true (sym other ∙ (eq_iff s t).1 p))
]

-- The code points of a text.
unfoldable pub codes : String → List ℕ
codes String.[] = []
codes (String.◌∷◌ c s) = code c ∷ codes s

digit : ℕ → String
digit zero = "0"
digit (suc zero) = "1"
digit (suc (suc zero)) = "2"
digit (suc (suc (suc zero))) = "3"
digit (suc (suc (suc (suc zero)))) = "4"
digit (suc (suc (suc (suc (suc zero))))) = "5"
digit (suc (suc (suc (suc (suc (suc zero)))))) = "6"
digit (suc (suc (suc (suc (suc (suc (suc zero))))))) = "7"
digit (suc (suc (suc (suc (suc (suc (suc (suc zero)))))))) = "8"
digit _ = "9"

-- The decimal digits of a number, in front of `rest`; there are never more than `fuel` digits
-- where the number is below the fuel.
decimal_fuel : ℕ → ℕ → String → String
decimal_fuel zero n rest = rest
decimal_fuel (suc fuel) n rest =
    let more = decimal_fuel fuel (n / 10) (digit (n % 10) ++ rest) in
    if ltb n 10 then digit n ++ rest else more

unfoldable pub decimal : ℕ → String
unfolding digit decimal_fuel
decimal n = decimal_fuel (suc n) n ""

lower_lem : to_lower "RabbitMQ-9" ≡ "rabbitmq-9"
unfolding to_lower
lower_lem = refl

fold_lem : equal_fold "KAFKA" "Kafka" ≡ true
unfolding equal_fold
fold_lem = refl

trim_zeros_lem : trim_zeros "00102000" ≡ "102"
unfolding trim_zeros
trim_zeros_lem = refl

before_lem : before b':' "orders:billing" ≡ "orders"
unfolding before
before_lem = refl

decimal_lem : decimal 9223372036854775807 ≡ "9223372036854775807"
unfolding decimal
decimal_lem = refl

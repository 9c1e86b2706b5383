-- ===== src/Model/Attributes.antt =====
-- The values of an attribute map (`any` in Go), their text, and the integers that they stand for.
-- A floating-point number is given by the two things that the program reads of it: its text under
-- fmt.Sprint and its conversion to a 64-bit integer.
use Prim.Native.String.{◌++◌}
use async_trace_doctor.Common.{ℕ, suc, String, Bool, true, false, Option, none, some, List, map}
use async_trace_doctor.Common.Int.{ℤ, pos, negsuc, int64_of_bits}
use async_trace_doctor.Common.Dict
use async_trace_doctor.Common.Dict.{Dict}
use async_trace_doctor.Common.Texts.{decimal, join}
use async_trace_doctor.Model.Scan.{parse_int, scan_int}

pub data IntType : Type 0 where
  int int64 int32 int16 int8 uint uint64 uint32 uint16 uint8 : IntType

pub data FloatType : Type 0 where
  float64 float32 : FloatType

-- `other` is a value of a type that the program does not name, as fmt.Sprint prints it.
pub data Value : Type 0 where
  null : Value
  str : String → Value
  boolean : Bool → Value
  integer : IntType → ℤ → Value
  float : FloatType → String → ℤ → Value
  bytes : List ℕ → Value
  json_number : String → Value
  other : String → Value

-- map[string]any, with its keys in the order of the map's canonical print, so that two maps are
-- equal when their lists are.
abbrev pub Attrs : Type 0
Attrs = Dict Value

unfoldable pub sprint_int : ℤ → String
unfolding decimal
sprint_int (pos n) = decimal n
sprint_int (negsuc n) = "-" ++ decimal (suc n)

abbrev sprint_bool : Bool → String
sprint_bool true = "true"
sprint_bool false = "false"

-- fmt.Sprint(v)
unfoldable pub sprint : Value → String
unfolding sprint_int join
sprint null = "<nil>"
sprint (str s) = s
sprint (boolean b) = sprint_bool b
sprint (integer t n) = sprint_int n
sprint (float t text n) = text
sprint (bytes bs) = "[" ++ (join " " (map decimal bs) ++ "]")
sprint (json_number s) = s
sprint (other s) = s

-- n in 64 bits: a uint64 above the signed range wraps.
abbrev pub wrap_int64 : ℤ → ℤ
wrap_int64 (pos n) = int64_of_bits n
wrap_int64 (negsuc n) = negsuc n

-- toInt and toInt64; the value that Go returns beside false is not read by any caller.
unfoldable pub to_int : Value → Option ℤ
unfolding sprint parse_int scan_int
to_int (integer t n) = some (wrap_int64 n)
to_int (float t text n) = some n
to_int (json_number s) = parse_int s
to_int v = scan_int (sprint v)

-- l.AttrString(key), s.AttrString(key), s.ResourceAttrString(key) on the map they read
text_of : Option Value → String
unfolding sprint
text_of none = ""
text_of (some null) = ""
text_of (some v) = sprint v

unfoldable pub attr_string : Attrs → String → String
unfolding text_of Dict.get
attr_string m key = text_of (Dict.get key m)

-- l.AttrInt(key), s.AttrInt(key)
unfoldable pub attr_int : Attrs → String → Option ℤ
unfolding to_int Dict.get
attr_int m key = elim (Dict.get key m) [ none ↦ none | some v ↦ to_int v ]

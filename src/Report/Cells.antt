-- ===== src/Report/Cells.antt =====
-- trim and escapeMarkdownCell of internal/report/report.go, and what they use of Go's strings and runes.
use Prim.Native.Char.{code}
use async_trace_doctor.Common.{ℕ, zero, suc, ◌-◌, String, ◌&&◌, leb, ltb, nat_eq, if◌then◌else◌}

-- s + t, by the characters of s
unfoldable pub prepend : String → String → String
prepend String.[] t = t
prepend (String.◌∷◌ c s) t = String.◌∷◌ c (prepend s t)

-- strings.ReplaceAll of a text of one character, and of the two of a line break
unfoldable pub replace_char : ℕ → String → String → String
unfolding prepend
replace_char old new String.[] = String.[]
replace_char old new (String.◌∷◌ c s) =
    let rest = replace_char old new s in
    if nat_eq (code c) old then prepend new rest else String.◌∷◌ c rest

unfoldable pub replace_crlf : String → String → String
unfolding prepend
replace_crlf new String.[] = String.[]
replace_crlf new (String.◌∷◌ c String.[]) = String.◌∷◌ c String.[]
replace_crlf new (String.◌∷◌ c (String.◌∷◌ d s)) =
    let after = replace_crlf new s in
    let rest = replace_crlf new (String.◌∷◌ d s) in
    if nat_eq (code c) 13 && nat_eq (code d) 10 then prepend new after else String.◌∷◌ c rest

unfoldable pub escape_markdown_cell : String → String
unfolding replace_char replace_crlf
escape_markdown_cell s =
    replace_char 13 "<br/>"
      (replace_char 10 "<br/>" (replace_crlf "<br/>" (replace_char b'|' "\\|" s)))

-- len([]rune(s)), string([]rune(s)[:n])
unfoldable pub runes : String → ℕ
runes String.[] = 0
runes (String.◌∷◌ c s) = suc (runes s)

unfoldable pub take_runes : ℕ → String → String
take_runes zero s = String.[]
take_runes (suc n) String.[] = String.[]
take_runes (suc n) (String.◌∷◌ c s) = String.◌∷◌ c (take_runes n s)

-- trim, for a length that is not negative
unfoldable pub trim : String → ℕ → String
unfolding runes take_runes prepend
trim s n =
    if leb (runes s) n
    then s
    else if leb n 0
    then ""
    else if ltb n 2
    then take_runes n s
    else prepend (take_runes (n - 1) s) "…"

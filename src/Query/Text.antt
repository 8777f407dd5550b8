-- ===== src/Query/Text.antt =====
-- internal/query/sql_builder.go: the texts that the SQL builder puts together, and what it tests of names.
use Prim.Native.Char.{code}
use Prim.Native.String.{◌++◌ as str_append}
use blazelog.Base.{
  ℕ, suc, ◌-◌, ◌/◌, String, Bool, true, false, Option, none, some, List, [], ◌∷◌, leb, ◌==◌, ◌&&◌,
  ◌||◌, not, if◌then◌else◌,
}
use blazelog.Base.Int.{ℤ, pos, negsuc}
use blazelog.Base.Dict.{str_eq}

-- `fmt.Sprintf` of texts: one after the other.
unfoldable pub concat : List String → String
concat [] = ""
concat (s ∷ rest) = str_append s (concat rest)

-- `strings.Join(parts, ", ")`
unfoldable pub join : List String → String
unfolding concat
join [] = ""
join (s ∷ []) = s
join (s ∷ t ∷ rest) = concat (s ∷ ", " ∷ join (t ∷ rest) ∷ [])

-- `mapOperator`
abbrev pub map_operator : String → Option String
map_operator op =
    if str_eq op "=="
    then some "="
    else if str_eq op "!="
    then some "!="
    else if str_eq op "and" || str_eq op "&&"
    then some "AND"
    else if str_eq op "or" || str_eq op "||"
    then some "OR"
    else if str_eq op ">="
    then some ">="
    else if str_eq op "<="
    then some "<="
    else if str_eq op ">"
    then some ">"
    else if str_eq op "<"
    then some "<"
    else if str_eq op "-"
    then some "-"
    else if str_eq op "+"
    then some "+"
    else if str_eq op "*"
    then some "*"
    else if str_eq op "/"
    then some "/"
    else if str_eq op "%"
    then some "%"
    else if str_eq op "not" || str_eq op "!"
    then some "NOT"
    else none

-- The letters, digits, underscores and hyphens.
abbrev pub property_char : ℕ → Bool
property_char c =
    (leb b'a' c && leb c b'z')
    || (leb b'A' c && leb c b'Z')
    || (leb b'0' c && leb c b'9')
    || c == b'_'
    || c == b'-'

abbrev pub property_chars : String → Bool
property_chars String.[] = true
property_chars (String.◌∷◌ c s) = property_char (code c) && property_chars s

abbrev pub is_valid_json_property_name : String → Bool
is_valid_json_property_name name = not (str_eq name "") && property_chars name

abbrev pub is_string_method : String → Bool
is_string_method op =
    str_eq op "contains" || str_eq op "startsWith" || str_eq op "endsWith" || str_eq op "matches"

-- A duration has a billion nanoseconds in a second; the quotient is taken towards 0.
abbrev pub truncated : ℤ → ℕ → ℤ
truncated (pos n) d = pos (n / d)
truncated (negsuc n) d = if suc n / d == 0 then pos 0 else negsuc (suc n / d - 1)

abbrev pub at_least : ℤ → ℕ → Bool
at_least (pos n) d = leb d n
at_least (negsuc n) d = false

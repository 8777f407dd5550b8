-- ===== src/Alerting/Rule.antt =====
-- internal/alerting/rule.go: alert rules and what `Validate` makes of them; the parts of
-- internal/models/log.go that they read. Durations are natural numbers of nanoseconds.
pub mod Validate
pub mod Ready
use blazelog.Base.{
  ℕ, String, Bool, true, false, Option, none, some, List, [], ◌∷◌, ltb, ◌&&◌, ◌||◌, not,
  if◌then◌else◌, map,
}
use blazelog.Base.Int.{ℤ, pos, negsuc}
use blazelog.Base.Dict.{lookup, str_eq}

-- `interface{}` as the code tells its values apart.
pub data Value (Float Opaque : Type 0) : Type 0 where
  nil : Value Float Opaque
  text : String → Value Float Opaque
  boolean : Bool → Value Float Opaque
  integer : ℤ → Value Float Opaque
  float : Float → Value Float Opaque
  other : Opaque → Value Float Opaque

-- What `buildEnvFromEntry` of expr_matcher.go hands to an expression.
pub record ExprEnv (Float Opaque : Type 0) : Type 0 where
  pub level : String
  pub message : String
  pub source : String
  pub type : String
  pub file_path : String
  pub http_status : ℤ
  pub http_method : String
  pub uri : String
  pub fields : List (String × Value Float Opaque)
  pub labels : List (String × String)

-- The libraries that the engine calls: regexp, expr-lang, time, fmt (`print` is `Sprintf("%v")`),
-- strconv, strings and float64.
pub record Platform : Type 1 where
  pub Regex : Type 0
  pub Program : Type 0
  pub Float : Type 0
  pub Opaque : Type 0
  pub compile_regex : String → Option Regex
  pub match_string : Regex → String → Bool
  pub compile_expr : String → Option Program
  pub run_program : Program → ExprEnv Float Opaque → Option (Value Float Opaque)
  pub parse_duration : String → Option ℕ
  pub of_int : ℤ → Float
  pub to_int : Float → ℤ
  pub minutes : ℕ → Float
  pub divide : Float → Float → Float
  pub subtract : Float → Float → Float
  pub negate : Float → Float
  pub less : Float → Float → Bool
  pub less_equal : Float → Float → Bool
  pub equal : Float → Float → Bool
  pub epsilon : Float
  pub parse_float : String → Option Float
  pub parse_int : String → Option ℤ
  pub string_less : String → String → Bool
  pub to_lower : String → String
  pub print : Value Float Opaque → String

-- The condition's operators.
pub data Operator : Type 0 where
  eq ne gt ge lt le : Operator

abbrev pub operator : String → Option Operator
operator s =
    if str_eq s "=="
    then some eq
    else if str_eq s "!="
    then some ne
    else if str_eq s ">"
    then some gt
    else if str_eq s ">="
    then some ge
    else if str_eq s "<"
    then some lt
    else if str_eq s "<="
    then some le
    else none

module _ (p : Platform) where
  pub record LogEntry : Type 0 where
    pub level : String
    pub message : String
    pub source : String
    pub type : String
    pub raw : String
    pub file_path : String
    pub fields : List (String × Value p.Float p.Opaque)
    pub labels : List (String × String)

  abbrev pub or_empty : Option String → String
  or_empty none = ""
  or_empty (some s) = s

  -- `GetLabel`
  unfoldable pub get_label : LogEntry → String → String
  get_label entry key = or_empty (lookup key entry.labels)

  pub record AggregationConfig : Type 0 where
    pub function : String
    pub threshold : p.Float
    pub operator : String
    pub window : String
    pub window_duration : ℕ

  pub record Condition : Type 0 where
    pub pattern : String
    pub case_sensitive : Bool
    pub field : String
    pub value : Value p.Float p.Opaque
    pub operator : String
    pub threshold : ℤ
    pub window : String
    pub log_type : String
    pub expression : String
    pub aggregation : Option AggregationConfig
    pub compiled_pattern : Option p.Regex
    pub compiled_expr : Option p.Program
    pub window_duration : ℕ

  pub record Rule : Type 0 where
    pub name : String
    pub description : String
    pub type : String
    pub condition : Condition
    pub severity : String
    pub notify : List String
    pub cooldown : String
    pub labels : List (String × String)
    pub enabled : Option Bool
    pub cooldown_duration : ℕ

  abbrev pub enabled_flag : Option Bool → Bool
  enabled_flag none = true
  enabled_flag (some b) = b

  unfoldable pub is_enabled : Rule → Bool
  is_enabled r = enabled_flag r.enabled

  -- The loop of `MatchesLabels`.
  unfoldable pub labels_match : List (String × String) → LogEntry → Bool
  labels_match [] entry = true
  labels_match ((key, value) ∷ rest) entry =
      let more = labels_match rest entry in
      if str_eq value "*" then more else if str_eq (get_label entry key) value then more else false

  unfoldable pub matches_labels : Rule → LogEntry → Bool
  unfolding labels_match
  matches_labels r entry = labels_match r.labels entry

  unfoldable pub matches_log_type : Rule → LogEntry → Bool
  matches_log_type r entry =
      if str_eq r.condition.log_type "" || str_eq r.condition.log_type "*"
      then true
      else str_eq entry.type r.condition.log_type

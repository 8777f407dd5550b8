-- ===== src/Alerting/Matcher.antt =====
-- internal/alerting/matcher.go: whether a log entry meets the condition of a rule.
use blazelog.Base.{String, Bool, true, false, Option, none, some, ◌&&◌, ◌||◌, not, if◌then◌else◌}
use blazelog.Base.Int.{ℤ}
use blazelog.Base.Dict.{str_eq, lookup}
use blazelog.Alerting.Rule.{
  Platform, Operator, eq, ne, gt, ge, lt, le, operator, Value, nil, text, boolean, integer, float,
  other, LogEntry, Rule, get_label, matches_labels, matches_log_type,
}

module _ (p : Platform) where
  abbrev pub some_match : Option p.Regex → LogEntry p → Bool
  some_match none entry = false
  some_match (some regex) entry =
      if p.match_string regex entry.message
      then true
      else not (str_eq entry.raw "") && p.match_string regex entry.raw

  unfoldable pub match_pattern : Rule p → LogEntry p → Bool
  match_pattern r entry =
      str_eq r.type "pattern"
      && matches_labels p r entry
      && matches_log_type p r entry
      && some_match r.condition.compiled_pattern entry

  -- The `default` case of `getFieldValue`.
  abbrev pub field_or_label : Option (Value p.Float p.Opaque) → String → Value p.Float p.Opaque
  field_or_label (some v) label = v
  field_or_label none label = if str_eq label "" then nil else text label

  unfoldable pub get_field_value : LogEntry p → String → Value p.Float p.Opaque
  get_field_value entry field =
      if str_eq field "level"
      then text entry.level
      else if str_eq field "message"
      then text entry.message
      else if str_eq field "type"
      then text entry.type
      else if str_eq field "source"
      then text entry.source
      else if str_eq field "raw"
      then text entry.raw
      else if str_eq field "file_path" || str_eq field "filepath"
      then text entry.file_path
      else field_or_label (lookup field entry.fields) (get_label p entry field)

  -- `ParseInt` is asked where `ParseFloat` refuses.
  abbrev pub parsed : Option p.Float → Option ℤ → Option p.Float
  parsed (some f) i = some f
  parsed none (some i) = some (p.of_int i)
  parsed none none = none

  unfoldable pub to_float64 : Value p.Float p.Opaque → Option p.Float
  to_float64 nil = none
  to_float64 (boolean b) = none
  to_float64 (other o) = none
  to_float64 (integer i) = some (p.of_int i)
  to_float64 (float f) = some f
  to_float64 (text s) = parsed (p.parse_float s) (p.parse_int s)

  abbrev pub compare_strings : Operator → String → String → Bool
  compare_strings eq a b = str_eq a b
  compare_strings ne a b = not (str_eq a b)
  compare_strings gt a b = p.string_less b a
  compare_strings ge a b = not (p.string_less a b)
  compare_strings lt a b = p.string_less a b
  compare_strings le a b = not (p.string_less b a)

  abbrev pub compare_numbers : Operator → p.Float → p.Float → Bool
  compare_numbers eq a b = p.equal a b
  compare_numbers ne a b = not (p.equal a b)
  compare_numbers gt a b = p.less b a
  compare_numbers ge a b = p.less_equal b a
  compare_numbers lt a b = p.less a b
  compare_numbers le a b = p.less_equal a b

  -- The last switch of `compareValues`.
  abbrev pub compare_printed : Operator → String → String → Bool
  compare_printed eq a b = str_eq a b
  compare_printed ne a b = not (str_eq a b)
  compare_printed gt a b = false
  compare_printed ge a b = false
  compare_printed lt a b = false
  compare_printed le a b = false

  abbrev pub compare_others : Operator → Option p.Float → Option p.Float → String → String → Bool
  compare_others op (some a) (some b) s t = compare_numbers op a b
  compare_others op (some a) none s t = compare_printed op s t
  compare_others op none b s t = compare_printed op s t

  abbrev pub compare_known : Operator → Value p.Float p.Opaque → Value p.Float p.Opaque → Bool
  compare_known op nil v = false
  compare_known op (text s) v = compare_strings op s (p.print v)
  compare_known op (boolean b) v =
      compare_others op none (to_float64 v) (p.print (boolean b)) (p.print v)
  compare_known op (integer i) v =
      compare_others op (to_float64 (integer i)) (to_float64 v) (p.print (integer i)) (p.print v)
  compare_known op (float f) v =
      compare_others op (to_float64 (float f)) (to_float64 v) (p.print (float f)) (p.print v)
  compare_known op (other o) v =
      compare_others op none (to_float64 v) (p.print (other o)) (p.print v)

  -- With an operator that no switch names, every switch is passed.
  unfoldable pub compare_values : Value p.Float p.Opaque → Value p.Float p.Opaque → String → Bool
  unfolding to_float64
  compare_values a b op = elim (operator op) [ none ↦ false | some o ↦ compare_known o a b ]

  unfoldable pub match_threshold_condition : Rule p → LogEntry p → Bool
  unfolding get_field_value compare_values
  match_threshold_condition r entry =
      str_eq r.type "threshold"
      && matches_labels p r entry
      && matches_log_type p r entry
      && (str_eq r.condition.field ""
          || compare_values (get_field_value entry r.condition.field) r.condition.value
              r.condition.operator)

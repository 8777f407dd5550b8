-- ===== src/Storage/LogQuery/Context/Cursor.antt =====
-- clickhouse.go: a cursor that is formatted is parsed as it was.
use Prim.Native.Char.{code}
use Prim.Native.String.{◌++◌ as str_append}
use Prim.Native.String.append.{nil as append_nil, cons as append_cons}
use blazelog.Base.{ℕ, ◌≡◌, refl, ap, ◌∙◌, inl, inr, String, none, some, ◌==◌, arith, Bool-cases}
use text.Mathlib.TextEquality.{eq_iff}
use blazelog.Base.Dict.{str_eq}
use blazelog.Query.Sql.Tally.{occurs}
use blazelog.Storage.LogQuery.Context.{
  Source, around_colon, last_colon, format_cursor, parse_cursor, with_time, ContextFilter, start_of,
  or_anchor,
}

last_colon-none : (s : String) → occurs b':' s ≡ 0 → last_colon s ≡ none
unfolding last_colon
last_colon-none String.[] e = refl
last_colon-none (String.◌∷◌ d s) e = elim (Bool-cases (code d == b':')) [
  | inl colon ↦ let e1 = rw colon at e in absurd (omega arith)
  | inr other ↦ let e1 = rw other at e in rw (last_colon-none s (omega arith)) (rw other refl)
]

last_colon-append :
    (time id : String)
    → occurs b':' id ≡ 0
    → last_colon (str_append time (str_append ":" id)) ≡ some (time, id)
unfolding last_colon
last_colon-append String.[] id e =
    ap last_colon (
      append_nil (str_append ":" id)
      ∙ append_cons ":" "" id
      ∙ ap (λ r. String.◌∷◌ ":" r) (append_nil id))
    ∙ ap (around_colon ":" id) (last_colon-none id e)
last_colon-append (String.◌∷◌ d s) id e =
    ap last_colon (append_cons d s (str_append ":" id))
    ∙ ap (around_colon d (str_append s (str_append ":" id))) (last_colon-append s id e)

-- When a time is parsed as it was printed and the id has no colon, parseCursor gives back the time and
-- the id that formatCursor has put together.
pub parse-format_cursor :
    (src : Source) (t : ℕ) (id : String)
    → src.parse_time (src.format_time t) ≡ some t
    → occurs b':' id ≡ 0
    → parse_cursor src (format_cursor src t id) ≡ some (t, id)
unfolding parse_cursor format_cursor
parse-format_cursor src t id p e =
    rw (last_colon-append (src.format_time t) id e) (ap (λ o. with_time src o id) p)

pub start_of-cursor :
    (src : Source) (f : ContextFilter) (t : ℕ) (id : String)
    → src.parse_time (src.format_time t) ≡ some t
    → occurs b':' id ≡ 0
    → start_of src f (format_cursor src t id) ≡ (t, id)
unfolding last_colon parse_cursor
start_of-cursor src f t id p e =
    let cursor = format_cursor src t id in
    let parsed : parse_cursor src cursor ≡ some (t, id) = parse-format_cursor src t id p e in
    elim (Bool-cases (str_eq cursor "")) [
      | inl empty ↦
          let nothing : parse_cursor src cursor ≡ none =
            ap (parse_cursor src) ((eq_iff cursor "").0 empty) in
          absurd (cc)
      | inr full ↦ rw full (ap (or_anchor src f) parsed)
    ]

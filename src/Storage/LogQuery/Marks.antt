-- ===== src/Storage/LogQuery/Marks.antt =====
-- clickhouse.go, `buildQuery`: the question marks of the text, and the arguments.
pub mod Texts
use Prim.Native.String.{◌++◌ as str_append}
use blazelog.Base.{
  ℕ, ◌+◌, ◌≡◌, refl, sym, ap, subst, ◌∙◌, inl, inr, String, Bool, true, false, not, ◌&&◌, Option,
  none, some, List, [], ◌∷◌, ◌++◌, if◌then◌else◌, length, length-append, ◌==◌, ltb, arith,
  Bool-cases, Option-cases,
}
use blazelog.Base.Dict.{str_eq, lookup}
use blazelog.Query.Text.{concat, join}
use blazelog.Query.Sql.Tally.{occurs, occurs-append, occurs-concat, total}
use blazelog.Access.Projects.{ProjectFilter}
use blazelog.Storage.LogQuery.{
  Argument, time, text, built, SearchMode, token, substring, phrase, LogFilter, join_with,
  placeholders, ids_condition, build_project_filter, Clauses, texts, builts, add, add_text, add_in,
  add_time, add_words, add_message, add_flat, add_projects, where_clauses, prewhere_clauses, clause,
  order_column, order_direction, paging, selected, build_query, or_timestamp, allowed_order_columns,
}
use blazelog.Storage.LogQuery.Where.{
  build_project_filter_lem, condition_of, written, project, unassigned, any_project, one_of,
  one_of_or_unassigned,
}
use blazelog.Storage.LogQuery.Marks.Texts.{
  marks, total-append, join_with-marks, join-placeholders, ids_condition_marks,
  project_filter_marks, length-texts, marks-clause, marks-or_timestamp, marks-order_column,
}

module _ {A : Type 0} where
  -- As many marks as arguments.
  abbrev Matched : Clauses A → Type 0
  Matched c = total b'?' c.0 ≡ length c.1

  length-builts : (xs : List A) → length (builts xs) ≡ length xs
  length-builts [] = refl
  length-builts (x ∷ xs) = omega (arith, length-builts xs)

  add-Matched :
      (condition : String) (more : List (Argument A)) (c : Clauses A)
      → marks condition ≡ length more
      → Matched c
      → Matched (add condition more c)
  add-Matched condition more c e m =
      omega (arith, total-append c.0 (condition ∷ []), length-append c.1 more)

  add_text-Matched :
      (condition value : String) (c : Clauses A)
      → marks condition ≡ 1
      → Matched c
      → Matched (add_text condition value c)
  add_text-Matched condition value c e m = elim (Bool-cases (str_eq value "")) [
    | inl empty ↦ rw empty m
    | inr given ↦ rw given (add-Matched condition (text value ∷ []) c e m)
  ]

  add_in-Matched :
      (column : String) (xs : List String) (c : Clauses A)
      → marks column ≡ 0
      → Matched c
      → Matched (add_in column xs c)
  add_in-Matched column [] c e m = m
  add_in-Matched column (x ∷ xs) c e m =
      add-Matched (concat (column ∷ " IN (" ∷ join (placeholders (x ∷ xs)) ∷ ")" ∷ []))
        (texts (x ∷ xs)) c
        (omega (
          arith,
          occurs-concat b'?' (column ∷ " IN (" ∷ join (placeholders (x ∷ xs)) ∷ ")" ∷ []),
          join-placeholders (x ∷ xs),
          length-texts A (x ∷ xs),
        ))
        m

  add_time-Matched :
      (condition : String) (t : Option ℕ) (c : Clauses A)
      → marks condition ≡ 1
      → Matched c
      → Matched (add_time condition t c)
  add_time-Matched condition none c e m = m
  add_time-Matched condition (some t) c e m = add-Matched condition (time t ∷ []) c e m

  add_words-Matched :
      (words : List String) (c : Clauses A) → Matched c → Matched (add_words words c)
  add_words-Matched [] c m = m
  add_words-Matched (w ∷ rest) c m =
      add_words-Matched rest (add "hasToken(message, ?)" (text w ∷ []) c)
        (add-Matched "hasToken(message, ?)" (text w ∷ []) c refl m)

  module _ (words : String → List String) where
    add_message-Matched :
        (mode : SearchMode) (message : String) (c : Clauses A)
        → Matched c
        → Matched (add_message words mode message c)
    add_message-Matched substring message c m =
        add-Matched "position(message, ?) > 0" (text message ∷ []) c refl m
    add_message-Matched phrase message c m = add_words-Matched (words message) c m
    add_message-Matched token message c m =
        add-Matched "hasToken(message, ?)" (text message ∷ []) c refl m

    add_flat-Matched : (f : LogFilter A) (c : Clauses A) → Matched c → Matched (add_flat words f c)
    add_flat-Matched f c m =
        let m1 = add_text-Matched "agent_id = ?" f.agent_id c refl m in
        let m2 =
          add_in-Matched "level" f.levels _ refl (add_text-Matched "level = ?" f.level _ refl m1) in
        let m3 =
          add_in-Matched "type" f.types _ refl (add_text-Matched "type = ?" f.type _ refl m2) in
        let m4 =
          add_text-Matched "file_path = ?" f.file_path _ refl
            (add_text-Matched "source = ?" f.source _ refl m3) in
        elim (Bool-cases (str_eq f.message_contains "")) [
          | inl no_search ↦ rw no_search m4
          | inr search ↦ rw search (add_message-Matched f.search_mode f.message_contains _ m4)
        ]

    add_projects-Matched :
        (p : String × List String) (c : Clauses A)
        → marks p.0 ≡ length p.1
        → Matched c
        → Matched (add_projects words p c)
    add_projects-Matched (condition, args) c e m = elim (Bool-cases (str_eq condition "")) [
      | inl empty ↦ rw empty m
      | inr given ↦
          rw given (add-Matched condition (texts args) c (e ∙ sym (length-texts A args)) m)
    ]

    where_clauses-Matched :
        (f : LogFilter A)
        → marks f.filter_sql ≡ length f.filter_args
        → Matched (where_clauses words f)
    unfolding where_clauses
    where_clauses-Matched f e =
        let m =
          add_projects-Matched (build_project_filter f.projects) ([], [])
            (project_filter_marks f.projects) refl in
        elim (Bool-cases (str_eq f.filter_sql "")) [
          | inl flat ↦ rw flat (add_flat-Matched f _ m)
          | inr built_sql ↦ rw built_sql (
              add-Matched (concat ("(" ∷ f.filter_sql ∷ ")" ∷ [])) (builts f.filter_args) _
                (omega (
                  arith,
                  occurs-concat b'?' ("(" ∷ f.filter_sql ∷ ")" ∷ []),
                  length-builts f.filter_args,
                ))
                m)
        ]

    prewhere_clauses-Matched : (f : LogFilter A) → Matched (prewhere_clauses words f)
    unfolding prewhere_clauses
    prewhere_clauses-Matched f =
        add_time-Matched "timestamp <= ?" f.end_time _ refl
          (add_time-Matched "timestamp >= ?" f.start_time ([], []) refl refl)

    module _ (format : ℕ → String) (plain : (n : ℕ) → marks (format n) ≡ 0) where
      marks-paging : (f : LogFilter A) → marks (paging words format f) ≡ 0
      marks-paging f =
          let n = if f.limit == 0 then 100 else f.limit in
          let tail = if ltb 0 f.offset then str_append " OFFSET " (format f.offset) else "" in
          let e : marks tail ≡ 0 = elim (Bool-cases (ltb 0 f.offset)) [
            | inl later ↦
                rw later
                  (omega (arith, occurs-append b'?' " OFFSET " (format f.offset), plain f.offset))
            | inr first ↦ rw first refl
          ] in
          omega (arith, occurs-concat b'?' (" LIMIT " ∷ format n ∷ tail ∷ []), plain n)

      marks-order_direction : (f : LogFilter A) → marks (order_direction words f) ≡ 0
      marks-order_direction f = elim (Bool-cases (not f.order_desc && not (str_eq f.order_by ""))) [
        | inl up ↦ rw up refl
        | inr down ↦ rw down refl
      ]

      body_marks :
          (f : LogFilter A) (head : String)
          → marks head ≡ 0
          → marks f.filter_sql ≡ length f.filter_args
          → marks (
              concat (
                head
                ∷ clause " PREWHERE " (prewhere_clauses words f).0
                ∷ clause " WHERE " (where_clauses words f).0
                ∷ []))
            ≡ length ((prewhere_clauses words f).1 ++ (where_clauses words f).1)
      body_marks f head h e =
          let early = (prewhere_clauses words f).0 in
          let late = (where_clauses words f).0 in
          omega (
            arith,
            occurs-concat b'?' (head ∷ clause " PREWHERE " early ∷ clause " WHERE " late ∷ []),
            marks-clause " PREWHERE " early refl,
            marks-clause " WHERE " late refl,
            length-append (prewhere_clauses words f).1 (where_clauses words f).1,
            prewhere_clauses-Matched f,
            where_clauses-Matched f e,
          )

      -- When printed numbers have no question mark and the filter's own SQL has as many as arguments, the
      -- text that buildQuery makes, of a count or of a page, has as many question marks as it has
      -- arguments.
      pub marks-build_query :
          (f : LogFilter A) (count_only : Bool)
          → marks f.filter_sql ≡ length f.filter_args
          → marks (build_query words format f count_only).0
            ≡ length (build_query words format f count_only).1
      unfolding build_query
      marks-build_query f true e = body_marks f "SELECT count() FROM logs" refl e
      marks-build_query f false e =
          let body = concat (
            selected
            ∷ clause " PREWHERE " (prewhere_clauses words f).0
            ∷ clause " WHERE " (where_clauses words f).0
            ∷ []) in
          omega (
            arith,
            occurs-concat b'?' (
                body
                ∷ " ORDER BY "
                ∷ order_column f.order_by
                ∷ " "
                ∷ order_direction words f
                ∷ paging words format f
                ∷ []),
            marks-order_column f.order_by,
            marks-order_direction f,
            marks-paging f,
            body_marks f selected refl e,
          )

-- ===== src/Tools/Sql.antt =====
-- backend/app/tools/sql_tool.py: the guarded query tool. The database is a parameter, as are the
-- settings: what it answers to a wrapped query, and the session that the statement leaves. The
-- timeout that is set on Postgres before the query is left out.
use lineageiq.Common.{
  ℕ, String, Option, List, [], ◌∷◌, concat, show, length, take, ltb, str_eq, if◌then◌else◌, ◌≡◌,
  refl, sym, ap, ◌∙◌, subst,
}
use lineageiq.Effects.{Result, ok, raised, Exec}
use lineageiq.Database.{Session, Payload, Value, boolean, int, text, texts, json, payload_get}
use lineageiq.Environment.{Env, World}
use lineageiq.Tools.{Tool, ToolContext, ToolResult, tool_result, text_arg}
use lineageiq.Tools.Contract.{Adds, Adds-nothing, IsReadOnly, tool_result-Adds}
use lineageiq.Tools.SqlGuard.{Sqlglot, wrap, validate_and_wrap_sql}
use lineageiq.Tools.SqlGuard.Accepts.{IsReadable, validate_and_wrap_sql-IsAccepted}

-- The settings that the tool reads, and what `session.execute(text(wrapped), params)` gives: the
-- columns, and each row as the text of its dict, and the session after the statement, which may be
-- one that writes; `elapsed` is the text of the time that it took.
pub record SqlDatabase : Type 1 where
  pub sqlglot : Sqlglot
  pub row_limit : ℕ
  pub max_length : ℕ
  pub execute : String → Option Value → Session → Result (List String × List String) × Session
  pub elapsed : String → String

-- The answer for the fetched rows.
unfoldable pub sql_answer :
    Env
    → SqlDatabase
    → ToolContext
    → String
    → String
    → List String
    → List String
    → Exec World ToolResult
sql_answer env db ctx query reason columns fetched =
    let truncated = ltb db.row_limit (length fetched) in
    let rows = take db.row_limit fetched in
    tool_result env "run_readonly_sql" "sql" ctx
      (concat (
        "SQL returned "
        ∷ show (length rows)
        ∷ " row(s)"
        ∷ (if truncated then " (truncated)" else "")
        ∷ (if str_eq reason "" then "" else concat ("; reason: " ∷ reason ∷ []))
        ∷ []))
      (("reason", text reason)
        ∷ ("query", text query)
        ∷ ("columns", texts columns)
        ∷ ("rows", texts rows)
        ∷ ("row_count", int (length rows))
        ∷ ("truncated", boolean truncated)
        ∷ ("execution_ms", json (db.elapsed query))
        ∷ [])

-- After the guard: the query runs, and its error is the tool's.
unfoldable pub run_wrapped :
    Env → SqlDatabase → ToolContext → Payload → Result String → Exec World ToolResult
unfolding sql_answer
run_wrapped env db ctx args (raised e) w = (raised e, w)
run_wrapped env db ctx args (ok wrapped) w =
    let executed = db.execute wrapped (payload_get "params" args) w.session in
    let after = record w { session = executed.1 } in
    elim executed.0 [
      | raised e ↦ (raised e, after)
      | ok (columns, fetched) ↦
          sql_answer env db ctx (text_arg "query" "" args) (text_arg "reason" "" args) columns
            fetched after
    ]

unfoldable pub run_readonly_sql : Env → SqlDatabase → Tool
unfolding run_wrapped
run_readonly_sql env db = record {
  name = "run_readonly_sql";
  description = concat (
      "Run a single read-only SELECT (CTEs allowed) against allowlisted tables. "
      ∷ "Returns bounded result rows. No writes, no DDL, no multiple statements." ∷ []);
  evidence_type = "sql";
  run = λ ctx args w.
      run_wrapped env db ctx args
        (validate_and_wrap_sql db.sqlglot (text_arg "query" "" args) db.row_limit db.max_length) w;
}

-- A database that a query does not change: of a statement of a class of queries, without any
-- construct of a writing class or call of a forbidden function in it, over known tables.
pub record KeepsOnQueries (db : SqlDatabase) : Type 0 where
  pub keeps :
      (stmt : db.sqlglot.Expression) (params : Option Value) (s : Session)
      → IsReadable db.sqlglot stmt
      → (db.execute (wrap db.sqlglot db.row_limit stmt) params s).1 ≡ s

-- What the tool does with the database's answer.
abbrev answered :
    Env
    → SqlDatabase
    → ToolContext
    → Payload
    → Result (List String × List String)
    → Exec World ToolResult
answered env db ctx args r w = elim r [
  | raised e ↦ (raised e, w)
  | ok (columns, fetched) ↦
      sql_answer env db ctx (text_arg "query" "" args) (text_arg "reason" "" args) columns fetched w
]

answered-Adds :
    (env : Env) (db : SqlDatabase) (ctx : ToolContext) (args : Payload)
    (r : Result (List String × List String)) (w : World)
    → Adds ctx.incident_id "run_readonly_sql" w (answered env db ctx args r w)
unfolding sql_answer
answered-Adds env db ctx args (raised e) w = Adds-nothing ctx.incident_id "run_readonly_sql" e w
answered-Adds env db ctx args (ok (columns, fetched)) w =
    tool_result-Adds env "run_readonly_sql" "sql" ctx _ _ w

run_wrapped-Adds :
    (env : Env) (db : SqlDatabase) (ctx : ToolContext) (args : Payload) (guarded : Result String)
    (w : World)
    → ((wrapped : String)
        → guarded ≡ ok wrapped
        → (db.execute wrapped (payload_get "params" args) w.session).1 ≡ w.session)
    → Adds ctx.incident_id "run_readonly_sql" w (run_wrapped env db ctx args guarded w)
unfolding run_wrapped
run_wrapped-Adds env db ctx args (raised e) w keeps =
    Adds-nothing ctx.incident_id "run_readonly_sql" e w
run_wrapped-Adds env db ctx args (ok wrapped) w keeps =
    let executed = db.execute wrapped (payload_get "params" args) w.session in
    let same = ap (λ s. record w { session = s }) (keeps wrapped refl) in
    subst
      (λ after.
        Adds ctx.incident_id "run_readonly_sql" w (answered env db ctx args executed.0 after))
      (sym same) (answered-Adds env db ctx args executed.0 w)

-- Over any parser, and any database that queries do not change, the query tool only adds evidence
-- of the incident of its context, and its answer names a row that it added.
pub run_readonly_sql-IsReadOnly :
    (env : Env) (db : SqlDatabase) → KeepsOnQueries db → IsReadOnly (run_readonly_sql env db)
unfolding run_readonly_sql
run_readonly_sql-IsReadOnly env db k = record {
  at = λ ctx args w.
      run_wrapped-Adds env db ctx args
        (validate_and_wrap_sql db.sqlglot (text_arg "query" "" args) db.row_limit db.max_length) w
        λ wrapped h.
          let accepted =
            (validate_and_wrap_sql-IsAccepted db.sqlglot (text_arg "query" "" args) db.row_limit
                db.max_length wrapped).0
              h in
          ap (λ t. (db.execute t (payload_get "params" args) w.session).1) accepted.capped
          ∙ k.keeps accepted.stmt (payload_get "params" args) w.session accepted.readable;
}

-- ===== src/Tools/SqlGuard.antt =====
-- backend/app/tools/sql_guard.py: which queries of the agent reach the database, and how.
-- The parser sqlglot is a parameter: a type of expressions with what the guard asks of them.
pub mod Accepts
mod Tests
use lineageiq.Common.{
  ℕ, ◌+◌, String, Bool, true, false, not, ◌&&◌, ◌||◌, Option, none, some, List, [], ◌∷◌, concat,
  has, keep, any, map, distinct, sort_texts, list_text, show, is_nil, length, code_points, ltb,
  str_eq, if◌then◌else◌,
}
use lineageiq.Effects.{Error, error_text, tool_safety_error, Result, ok, raised}

pub record Sqlglot : Type 1 where
  pub Expression : Type 0
  -- `sqlglot.parse(query, read=dialect)`, without the statements that are None
  pub parse : String → Result (List Expression)
  -- `stmt.walk()`
  pub walk : Expression → List Expression
  -- `isinstance` of the class of the name in `sqlglot.exp`
  pub is_instance : Expression → String → Bool
  pub type_name : Expression → String
  -- the name of an `exp.Anonymous`, and `sql_name() or ""` of an `exp.Func`
  pub anonymous_name : Expression → Option String
  pub function_name : Expression → Option String
  -- the names of the expressions of class `exp.CTE` and of class `exp.Table`
  pub cte_names : Expression → List String
  pub table_names : Expression → List String
  -- `stmt.sql(dialect=dialect)`
  pub sql : Expression → String
  -- `s.strip()`, `s.lower()` of Python's texts
  pub strip : String → String
  pub lower : String → String

-- The tables of the models.
abbrev pub allowed_tables : List String
allowed_tables =
    "crm_customers" ∷ "customers" ∷ "customer_limits" ∷ "orders" ∷ "payments" ∷ "refunds"
    ∷ "fx_rates" ∷ "shipments" ∷ "daily_revenue_report" ∷ "pipeline_definitions" ∷ "pipeline_runs"
    ∷ "system_logs" ∷ "incidents" ∷ "alerts" ∷ "evidence" ∷ "agent_runs" ∷ "incident_ground_truth"
    ∷ "historical_incidents" ∷ "evaluation_runs" ∷ "staging_records" ∷ "schema_events" ∷ []

abbrev pub forbidden_functions : List String
forbidden_functions =
    "pg_read_file" ∷ "pg_ls_dir" ∷ "pg_sleep" ∷ "lo_import" ∷ "lo_export" ∷ "dblink" ∷ "copy"
    ∷ "load_extension" ∷ "readfile" ∷ "writefile" ∷ []

-- `_FORBIDDEN_NODES`
abbrev pub forbidden_nodes : List String
forbidden_nodes =
    "Insert" ∷ "Update" ∷ "Delete" ∷ "Drop" ∷ "Alter" ∷ "Create" ∷ "Command" ∷ "Into" ∷ "Set"
    ∷ "Transaction" ∷ "Commit" ∷ "Rollback" ∷ []

-- `_ALLOWED_TOP`
abbrev pub allowed_top : List String
allowed_top = "Select" ∷ "Union" ∷ "Subquery" ∷ "With" ∷ "Paren" ∷ []

module _ (sg : Sqlglot) where
  -- `isinstance(expr, classes)`
  abbrev pub is_one_of : List String → sg.Expression → Bool
  is_one_of classes e = any (λ c. sg.is_instance e c) classes

  -- `isinstance(expr, exp.Anonymous) and expr.name and expr.name.lower() in ...`
  abbrev pub calls_anonymous : Option String → Bool
  calls_anonymous none = false
  calls_anonymous (some name) = not (str_eq name "") && has (sg.lower name) forbidden_functions

  abbrev pub calls_function : Option String → Bool
  calls_function none = false
  calls_function (some name) = has (sg.lower name) forbidden_functions

  abbrev name_text : Option String → String
  name_text none = ""
  name_text (some name) = name

  -- What the body of the loop raises for one expression.
  unfoldable pub node_error : sg.Expression → Option Error
  node_error e =
      if is_one_of forbidden_nodes e
      then some (tool_safety_error (concat ("Forbidden SQL construct: " ∷ sg.type_name e ∷ [])))
      else if calls_anonymous (sg.anonymous_name e)
      then some (
          tool_safety_error
            (concat ("Forbidden function: " ∷ name_text (sg.anonymous_name e) ∷ [])))
      else if calls_function (sg.function_name e)
      then some (
          tool_safety_error
            (concat ("Forbidden function: " ∷ sg.lower (name_text (sg.function_name e)) ∷ [])))
      else none

  unfoldable pub walk_error : List sg.Expression → Option Error
  walk_error [] = none
  walk_error (e ∷ es) = elim (node_error e) [ none ↦ walk_error es | some error ↦ some error ]

  abbrev pub illegal_tables : sg.Expression → List String
  illegal_tables stmt =
      keep
        (λ t. not (str_eq t "") && (not (has t allowed_tables) && not (has t (sg.cte_names stmt))))
        (distinct (sg.table_names stmt))

  -- The statement in its row-capped wrapper.
  abbrev pub wrap : ℕ → sg.Expression → String
  wrap row_limit stmt =
      concat ("SELECT * FROM (" ∷ sg.sql stmt ∷ ") AS _lq LIMIT " ∷ show (row_limit + 1) ∷ [])

  unfoldable pub check_statement : ℕ → sg.Expression → Result String
  unfolding node_error walk_error
  check_statement row_limit stmt =
      if not (is_one_of allowed_top stmt)
      then raised (
          tool_safety_error
            (concat ("Only SELECT statements are allowed (got " ∷ sg.type_name stmt ∷ ")" ∷ [])))
      else elim (walk_error (sg.walk stmt)) [
        | some error ↦ raised error
        | none ↦
            if is_nil (illegal_tables stmt)
            then ok (wrap row_limit stmt)
            else raised (
                tool_safety_error (
                  concat (
                    "Query references tables outside the allowlist: "
                    ∷ list_text (sort_texts (illegal_tables stmt))
                    ∷ [])))
      ]

  unfoldable pub check_parsed : ℕ → Result (List sg.Expression) → Result String
  unfolding check_statement
  check_parsed row_limit (raised e) =
      raised (tool_safety_error (concat ("Unparseable SQL: " ∷ error_text e ∷ [])))
  check_parsed row_limit (ok (stmt ∷ [])) = check_statement row_limit stmt
  check_parsed row_limit (ok []) = raised (tool_safety_error "Only a single statement is allowed")
  check_parsed row_limit (ok (stmt ∷ other ∷ stmts)) =
      raised (tool_safety_error "Only a single statement is allowed")

  unfoldable pub validate_and_wrap_sql : String → ℕ → ℕ → Result String
  unfolding check_parsed
  validate_and_wrap_sql query row_limit max_length =
      if str_eq query "" || str_eq (sg.strip query) ""
      then raised (tool_safety_error "Empty SQL query")
      else if ltb max_length (length (code_points query))
      then raised (tool_safety_error (concat ("Query exceeds max length " ∷ show max_length ∷ [])))
      else check_parsed row_limit (sg.parse query)

-- ===== src/Tools/Schema.antt =====
-- backend/app/tools/schema_tool.py: the tool that shows a table's columns and schema events.
-- The dicts of columns and events are stored and never inspected, and come as texts.
use lineageiq.Common.{
  String, Option, none, some, List, [], ◌∷◌, map, concat, show, length, leb, str_eq, if◌then◌else◌,
}
use lineageiq.Effects.{Exec, pure, ◌>>=◌}
use lineageiq.Database.{SchemaEvent, text, texts}
use lineageiq.Environment.{Env, World}
use lineageiq.Tools.{Tool, ToolContext, ToolResult, tool_result, persist_evidence, text_arg}
use lineageiq.Tools.Contract.{Adds, IsReadOnly, tool_result-Adds, persisted-Adds}

-- SQLAlchemy's description of the tables, and the text of an event's dict.
pub record SchemaCatalog : Type 0 where
  -- the columns of `Base.metadata.tables.get(name)`
  pub columns : String → Option (List String)
  pub event_text : SchemaEvent → String

-- `ORDER BY occurred_at`
unfoldable pub insert_event : SchemaEvent → List SchemaEvent → List SchemaEvent
insert_event e [] = e ∷ []
insert_event e (x ∷ xs) =
    if leb e.occurred_at x.occurred_at then e ∷ x ∷ xs else x ∷ insert_event e xs

unfoldable pub events_of : String → List SchemaEvent → List SchemaEvent
unfolding insert_event
events_of table [] = []
events_of table (e ∷ es) =
    let rest = events_of table es in if str_eq e.table_name table then insert_event e rest else rest

abbrev unknown_table : Env → String → ToolContext → Exec World ToolResult
unknown_table env table ctx = do
  evidence_id ←
      persist_evidence env "inspect_schema" "schema" ctx (concat ("Unknown table: " ∷ table ∷ []))
        (("table", text table) ∷ ("error", text "unknown_table") ∷ []) 10_000
  pure (record {
    evidence_id = evidence_id;
    tool_name = "inspect_schema";
    summary = concat ("Unknown table: " ∷ table ∷ []);
    payload = ("table", text table) ∷ [];
    reliability = 10_000;
    evidence_type = "tool";
    error = some "unknown_table";
  })

unfoldable pub schema_answer :
    Env → SchemaCatalog → String → ToolContext → Option (List String) → Exec World ToolResult
unfolding events_of
schema_answer env catalog table ctx none w = unknown_table env table ctx w
schema_answer env catalog table ctx (some columns) w =
    let events = map catalog.event_text (events_of table w.session.schema_events) in
    tool_result env "inspect_schema" "schema" ctx
      (concat (
        "Table "
        ∷ table
        ∷ ": "
        ∷ show (length columns)
        ∷ " columns; "
        ∷ show (length events)
        ∷ " recent schema event(s)"
        ∷ []))
      (("table", text table)
        ∷ ("schema_version", text "v1")
        ∷ ("columns", texts columns)
        ∷ ("recent_schema_events", texts events)
        ∷ [])
      w

unfoldable pub inspect_schema : Env → SchemaCatalog → Tool
unfolding schema_answer
inspect_schema env catalog = record {
  name = "inspect_schema";
  description = "Inspect a table's columns, types, nullability, and recent schema-change events.";
  evidence_type = "schema";
  run = λ ctx args.
      schema_answer env catalog (text_arg "table" "" args) ctx
        (catalog.columns (text_arg "table" "" args));
}

schema_answer-Adds :
    (env : Env) (catalog : SchemaCatalog) (table : String) (ctx : ToolContext)
    (columns : Option (List String)) (w : World)
    → Adds ctx.incident_id "inspect_schema" w (schema_answer env catalog table ctx columns w)
unfolding schema_answer
schema_answer-Adds env catalog table ctx none w =
    persisted-Adds env "inspect_schema" "schema" ctx _ _ _ _ "tool" _ w
schema_answer-Adds env catalog table ctx (some columns) w =
    tool_result-Adds env "inspect_schema" "schema" ctx _ _ w

-- The schema tool, over any catalog, only adds evidence of the incident of its context, and its
-- answer, for an unknown table too, names a row that it added.
pub inspect_schema-IsReadOnly :
    (env : Env) (catalog : SchemaCatalog) → IsReadOnly (inspect_schema env catalog)
unfolding inspect_schema
inspect_schema-IsReadOnly env catalog = record {
  at = λ ctx args w.
      schema_answer-Adds env catalog (text_arg "table" "" args) ctx
        (catalog.columns (text_arg "table" "" args)) w;
}

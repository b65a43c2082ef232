-- ===== src/Incidents/Injectors/Schemas.antt =====
-- `SchemaChangeInjector` of backend/app/incidents/injectors.py.
use lineageiq.Common.{
  ℕ, String, Option, none, some, List, [], ◌∷◌, ◌++◌, concat, str_eq, pos, if◌then◌else◌,
}
use lineageiq.Taxonomy.{IncidentType}
use lineageiq.Effects.{Result, ok, Exec}
use lineageiq.Database.{Session, SchemaEvent, PipelineRun, StagingRecord, SystemLog, text, json}
use lineageiq.Environment.{Env}
use lineageiq.Detection.Severity.{compute_severity}
use lineageiq.Incidents.{IncidentManifest}
use lineageiq.Incidents.Injectors.{
  Draws, Injector, Story, rng_seed, choose, inner, order_dates, utc, manifest_of, finish, add_log,
  ◌>>=◌,
}
use lineageiq.Incidents.Injectors.Params.{text_param, date_param}

-- A table, a field of it, and the field's new name.
pub record Rename : Type 0 where
  pub table : String
  pub field : String
  pub new_field : String

abbrev pub renames : List Rename
renames =
    record { table = "orders"; field = "gross_amount"; new_field = "amount_gross" }
    ∷ record { table = "payments"; field = "payment_amount"; new_field = "amount" }
    ∷ record { table = "orders"; field = "order_currency"; new_field = "currency_code" }
    ∷ []

-- `table.capitalize()` of the tables above
abbrev capitalized : String → String
capitalized table = if str_eq table "orders" then "Orders" else "Payments"

-- `entity_type=table.rstrip("s")` of the tables above
abbrev singular : String → String
singular table =
    if str_eq table "orders" then "order" else if str_eq table "payments" then "payment" else table

abbrev pub schema_story : Env → Rename → ℕ → Story
schema_story env c d = record {
  title = concat ("Source renamed " ∷ c.table ∷ "." ∷ c.field ∷ " -> " ∷ c.new_field ∷ []);
  params =
      ("table", text c.table)
      ∷ ("field", text c.field)
      ∷ ("new_field", text c.new_field)
      ∷ ("date", text (env.isoformat d))
      ∷ [];
  changed_tables = "schema_events" ∷ "pipeline_runs" ∷ "system_logs" ∷ "staging_records" ∷ [];
  affected_pipeline =
      some (if str_eq c.table "orders" then concat (c.table ∷ "_ingest" ∷ []) else "orders_ingest");
  expected_symptoms =
      concat ("Ingestion failed: unknown column for " ∷ c.table ∷ "." ∷ c.field ∷ [])
      ∷ "Schema-contract change event recorded"
      ∷ [];
  root_cause_description = concat (
      "The source system renamed " ∷ c.table ∷ "." ∷ c.field ∷ " to " ∷ c.new_field
      ∷ "; the staging mapping is incompatible, so the load failed the schema contract." ∷ []);
  expected_affected_systems = capitalized c.table ∷ "Reporting" ∷ [];
  expected_affected_reports = "daily_revenue_report" ∷ [];
  expected_evidence = "schema:contract_change" ∷ "pipeline:failed_run" ∷ "log:unknown_column" ∷ [];
  expected_remediation =
      "Update the schema contract / staging field mapping and reprocess the staged batch.";
  severity = compute_severity 200 (pos 0) 1 IncidentType.schema_change;
}

unfoldable pub plan_schema : Draws → Env → Session → ℕ → ℕ → Result IncidentManifest
plan_schema draws env s seed index =
    let rng = rng_seed draws IncidentType.schema_change seed index in
    choose draws rng 0 renames >>= λ c. choose draws rng 1 (inner (order_dates s)) >>= λ d.
    ok (manifest_of IncidentType.schema_change index seed (schema_story env c d))

-- A value in an f-string, where None is shown by its name.
abbrev shown : Option String → String
shown none = "None"
shown (some s) = s

module _ (manifest : IncidentManifest) (c : Rename) (d : ℕ) where
  abbrev run_id : String
  run_id = concat ("PR-INC-schema-" ∷ manifest.manifest_id ∷ [])

  abbrev event_id_of : String
  event_id_of = concat ("SCHEMA-" ∷ manifest.manifest_id ∷ [])

  abbrev pub rename_event : SchemaEvent
  rename_event = record {
    event_id = event_id_of;
    table_name = c.table;
    change_type = "column_renamed";
    field_name = c.field;
    details =
        concat
          ("Source renamed '" ∷ c.field ∷ "' to '" ∷ c.new_field ∷ "'; mapping incompatible" ∷ []);
    pipeline_run_id = some run_id;
    payload = some (("old", text c.field) ∷ ("new", text c.new_field) ∷ []);
    occurred_at = utc d 2;
  }

  abbrev failed_run : PipelineRun
  failed_run = record {
    pipeline_run_id = run_id;
    pipeline_id = concat ("PL-" ∷ shown manifest.affected_pipeline ∷ []);
    started_at = utc d 2;
    completed_at = some (utc d 2);
    status = "failed";
    rows_read = 0;
    rows_written = 0;
    error_message =
        some (concat ("Unknown column '" ∷ c.new_field ∷ "' (expected '" ∷ c.field ∷ "')" ∷ []));
    run_metadata = some (("schema_event", text event_id_of) ∷ []);
  }

  abbrev rejected_record : StagingRecord
  rejected_record = record {
    staging_id = concat ("STG-" ∷ manifest.manifest_id ∷ []);
    pipeline_run_id = some run_id;
    source_system = c.table;
    entity_type = singular c.table;
    natural_key = none;
    payload =
        (c.new_field, json "100.0") ∷ ("note", text "renamed field present in source payload") ∷ [];
    load_status = "rejected";
    ingested_at = utc d 2;
  }

  abbrev contract_log : SystemLog
  contract_log = record {
    log_id = concat ("LOG-INC-schema-" ∷ manifest.manifest_id ∷ []);
    timestamp = utc d 2;
    service = concat ("PL-" ∷ shown manifest.affected_pipeline ∷ []);
    log_level = "ERROR";
    message = concat ("Schema contract violation: unknown column '" ∷ c.new_field ∷ "'" ∷ []);
    correlation_id = some run_id;
    pipeline_run_id = some run_id;
    structured_metadata = some (("field", text c.field) ∷ ("new_field", text c.new_field) ∷ []);
  }

  abbrev pub rename_field : Session → Session
  rename_field s = add_log contract_log (record s {
    schema_events = s.schema_events ++ rename_event ∷ [];
    pipeline_runs = s.pipeline_runs ++ failed_run ∷ [];
    staging_records = s.staging_records ++ rejected_record ∷ [];
  })

unfoldable pub apply_schema : Env → IncidentManifest → Exec Session (List String)
apply_schema env manifest s = finish s (
    date_param env "date" manifest.params >>= λ d. text_param "table" manifest.params >>= λ table.
    text_param "field" manifest.params >>= λ field.
    text_param "new_field" manifest.params >>= λ new_field.
    let c : Rename = record { table = table; field = field; new_field = new_field } in
    ok (event_id_of manifest c d ∷ [], rename_field manifest c d s))

abbrev pub schema_change_injector : Draws → Env → Injector
schema_change_injector draws env = record {
  incident_type = IncidentType.schema_change;
  plan = plan_schema draws env;
  apply = apply_schema env;
}

-- ===== src/Incidents/Injectors/Nulls.antt =====
-- `NullContaminationInjector` of backend/app/incidents/injectors.py.
use lineageiq.Common.{ℕ, zero, suc, ◌+◌, String, some, List, [], ◌∷◌, ◌++◌, concat, map, show, pos}
use lineageiq.Taxonomy.{IncidentType}
use lineageiq.Effects.{Result, ok, Exec}
use lineageiq.Database.{Session, StagingRecord, SystemLog, null, text, int}
use lineageiq.Environment.{Env}
use lineageiq.Detection.Severity.{compute_severity}
use lineageiq.Incidents.{IncidentManifest}
use lineageiq.Incidents.Injectors.{
  Draws, Injector, Story, rng_seed, choose, inner, order_dates, utc, two_digits, manifest_of,
  finish, add_log, ◌>>=◌,
}
use lineageiq.Incidents.Injectors.Params.{date_param, int_param}

abbrev pub null_story : Env → ℕ → Story
null_story env d = record {
  title = "Null gross_amount values in staged orders";
  params = ("date", text (env.isoformat d)) ∷ ("count", int 8) ∷ [];
  changed_tables = "staging_records" ∷ "system_logs" ∷ [];
  affected_pipeline = some "orders_ingest";
  expected_symptoms =
      "Required field gross_amount is null in staged order records"
      ∷ "Validation errors logged during ingest" ∷ [];
  root_cause_description =
      "The source delivered orders with a null required field (gross_amount); the rows landed in staging instead of being rejected.";
  expected_affected_systems = "Orders" ∷ "Reporting" ∷ [];
  expected_affected_reports = "daily_revenue_report" ∷ [];
  expected_evidence = "sql:null_required_field" ∷ "log:validation_error" ∷ [];
  expected_remediation = "Quarantine null staged rows, fix the source feed, and reload.";
  severity = compute_severity 8 (pos 0) 1 IncidentType.null_contamination;
}

unfoldable pub plan_null : Draws → Env → Session → ℕ → ℕ → Result IncidentManifest
plan_null draws env s seed index =
    choose draws (rng_seed draws IncidentType.null_contamination seed index) 0
      (inner (order_dates s))
    >>= λ d. ok (manifest_of IncidentType.null_contamination index seed (null_story env d))

module _ (env : Env) (manifest_id : String) (d : ℕ) where
  abbrev ingest_run_id : String
  ingest_run_id = concat ("PR-orders_ingest-" ∷ env.compact_date d ∷ [])

  abbrev pub null_record : ℕ → StagingRecord
  null_record i = record {
    staging_id = concat ("STG-NULL-" ∷ manifest_id ∷ "-" ∷ two_digits i ∷ []);
    pipeline_run_id = some ingest_run_id;
    source_system = "Orders";
    entity_type = "order";
    natural_key = some (concat ("ORD-STAGED-" ∷ manifest_id ∷ "-" ∷ two_digits i ∷ []));
    payload =
        ("order_id", text (concat ("ORD-STAGED-" ∷ two_digits i ∷ [])))
        ∷ ("gross_amount", null)
        ∷ ("currency", text "EUR")
        ∷ [];
    load_status = "loaded";
    ingested_at = utc d 3;
  }

  -- The rows of the loop that are left, from the i-th on.
  abbrev pub null_records : ℕ → ℕ → List StagingRecord
  null_records i zero = []
  null_records i (suc n) = null_record i ∷ null_records (i + 1) n

  abbrev null_log : ℕ → SystemLog
  null_log n = record {
    log_id = concat ("LOG-INC-null-" ∷ manifest_id ∷ []);
    timestamp = utc d 3;
    service = "PL-orders_ingest";
    log_level = "ERROR";
    message =
        concat
          ("Validation error: gross_amount is null in " ∷ show n ∷ " staged order records" ∷ []);
    correlation_id = some ingest_run_id;
    pipeline_run_id = some ingest_run_id;
    structured_metadata = some (("null_field", text "gross_amount") ∷ ("count", int n) ∷ []);
  }

  abbrev pub stage_nulls : ℕ → Session → Session
  stage_nulls n s =
      add_log (null_log n) (record s { staging_records = s.staging_records ++ null_records 0 n })

unfoldable pub apply_null : Env → IncidentManifest → Exec Session (List String)
apply_null env manifest s = finish s (
    date_param env "date" manifest.params >>= λ d. int_param env "count" manifest.params >>= λ n.
    ok (
      map (λ r. r.staging_id) (null_records env manifest.manifest_id d 0 n),
      stage_nulls env manifest.manifest_id d n s,
    ))

abbrev pub null_contamination_injector : Draws → Env → Injector
null_contamination_injector draws env = record {
  incident_type = IncidentType.null_contamination;
  plan = plan_null draws env;
  apply = apply_null env;
}

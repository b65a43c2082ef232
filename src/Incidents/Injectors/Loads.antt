-- ===== src/Incidents/Injectors/Loads.antt =====
-- `PartialLoadInjector` of backend/app/incidents/injectors.py.
use lineageiq.Common.{
  ℕ, ◌+◌, ◌-◌, ◌*◌, ◌&&◌, true, not, has, String, some, List, [], ◌∷◌, concat, map, keep, length,
  take, show, str_eq, leb, ltb, sort_texts, if◌then◌else◌,
}
use lineageiq.Taxonomy.{IncidentType}
use lineageiq.Effects.{Result, ok, Exec}
use lineageiq.Database.{Session, PipelineRun, SystemLog, Value, boolean, text, int, json}
use lineageiq.Environment.{Env}
use lineageiq.Detection.Severity.{compute_severity, units}
use lineageiq.Incidents.{IncidentManifest}
use lineageiq.Incidents.Injectors.{
  Draws, Injector, Story, stable_seed, rng_seed, choose, inner, order_dates, utc, manifest_of,
  finish, add_log, ◌>>=◌,
}
use lineageiq.Incidents.Injectors.Params.{param, date_param}

abbrev pub load_story : Env → ℕ → Story
load_story env d = record {
  title = "Partial file load drops most orders for a day";
  params = ("date", text (env.isoformat d)) ∷ ("drop_fraction", json "0.7") ∷ [];
  changed_tables = "orders" ∷ "payments" ∷ "refunds" ∷ "shipments" ∷ "pipeline_runs" ∷ [];
  affected_pipeline = some "orders_ingest";
  expected_symptoms =
      "Order row count for the day far below the daily norm"
      ∷ "rows_written far below rows_read for the ingest run" ∷ [];
  root_cause_description =
      "The order ingest file was truncated mid-stream, so most of the day's orders were never loaded.";
  expected_affected_systems = "Orders" ∷ "Reporting" ∷ [];
  expected_affected_reports = "daily_revenue_report" ∷ [];
  expected_evidence = "sql:row_count_drop" ∷ "pipeline:partial_run" ∷ [];
  expected_remediation = "Reload the complete file and verify row counts.";
  severity = compute_severity 100 (units 150_000) 1 IncidentType.partial_load;
}

unfoldable pub plan_load : Draws → Env → Session → ℕ → ℕ → Result IncidentManifest
plan_load draws env s seed index =
    choose draws (rng_seed draws IncidentType.partial_load seed index) 0 (inner (order_dates s))
    >>= λ d. ok (manifest_of IncidentType.partial_load index seed (load_story env d))

-- The ids of the day's orders, sorted.
abbrev pub day_order_ids : ℕ → Session → List String
day_order_ids d s = sort_texts (
    map (λ o. o.order_id)
      (keep (λ o. leb (utc d 0) o.order_timestamp && ltb o.order_timestamp (utc (d + 1) 0))
        s.orders))

-- `drop`
abbrev pub dropped_ids : Draws → IncidentManifest → ℕ → Value → Session → List String
dropped_ids draws manifest d fraction s =
    let ids = day_order_ids d s in
    let seed = stable_seed draws (show manifest.seed ∷ "partial" ∷ show manifest.index ∷ []) in
    take (draws.scaled (length ids) fraction) (draws.shuffle seed ids)

-- The four `delete` statements, dependents first.
abbrev pub delete_orders : List String → Session → Session
delete_orders dropped s = record s {
  refunds = keep (λ r. not (has r.order_id dropped)) s.refunds;
  payments = keep (λ p. not (has p.order_id dropped)) s.payments;
  shipments = keep (λ h. not (has h.order_id dropped)) s.shipments;
  orders = keep (λ o. not (has o.order_id dropped)) s.orders;
}

abbrev ingest_run_id : Env → ℕ → String
ingest_run_id env d = concat ("PR-orders_ingest-" ∷ env.compact_date d ∷ [])

-- `max(1, run.rows_read - len(drop) * 10)`
abbrev rows_left : ℕ → ℕ → ℕ
rows_left rows_read n = if ltb 1 (rows_read - n * 10) then rows_read - n * 10 else 1

abbrev pub cut_run : Env → ℕ → ℕ → PipelineRun → PipelineRun
cut_run env d n r =
    if str_eq r.pipeline_run_id (ingest_run_id env d)
    then record r {
      rows_written = rows_left r.rows_read n;
      status = "completed";
      run_metadata = some (("partial", boolean true) ∷ ("dropped_orders", int n) ∷ []);
    }
    else r

abbrev load_log : Env → String → ℕ → ℕ → SystemLog
load_log env manifest_id d n = record {
  log_id = concat ("LOG-INC-partial-" ∷ manifest_id ∷ []);
  timestamp = utc d 4;
  service = "PL-orders_ingest";
  log_level = "WARN";
  message = concat ("Truncated input: loaded partial batch, dropped " ∷ show n ∷ " orders" ∷ []);
  correlation_id = some (concat ("partial-" ∷ env.isoformat d ∷ []));
  pipeline_run_id = some (ingest_run_id env d);
  structured_metadata = some (("dropped", int n) ∷ []);
}

abbrev pub cut_load : Env → String → ℕ → List String → Session → Session
cut_load env manifest_id d dropped s =
    let cut = delete_orders dropped s in
    add_log (load_log env manifest_id d (length dropped))
      (record cut { pipeline_runs = map (cut_run env d (length dropped)) s.pipeline_runs })

unfoldable pub apply_load : Draws → Env → IncidentManifest → Exec Session (List String)
apply_load draws env manifest s = finish s (
    date_param env "date" manifest.params >>= λ d.
    param "drop_fraction" manifest.params >>= λ fraction.
    let dropped = dropped_ids draws manifest d fraction s in
    ok (dropped, cut_load env manifest.manifest_id d dropped s))

abbrev pub partial_load_injector : Draws → Env → Injector
partial_load_injector draws env = record {
  incident_type = IncidentType.partial_load;
  plan = plan_load draws env;
  apply = apply_load draws env;
}

-- ===== src/Incidents/Injectors/Delays.antt =====
-- `DelayedPipelineInjector` of backend/app/incidents/injectors.py.
use lineageiq.Common.{
  ℕ, ◌+◌, ◌==◌, not, String, some, List, [], ◌∷◌, concat, map, keep, str_eq, pos, if◌then◌else◌,
}
use lineageiq.Taxonomy.{IncidentType}
use lineageiq.Effects.{Result, ok, Exec}
use lineageiq.Database.{Session, PipelineRun, SystemLog, text}
use lineageiq.Environment.{Env}
use lineageiq.Detection.Severity.{compute_severity}
use lineageiq.Incidents.{IncidentManifest}
use lineageiq.Incidents.Injectors.{
  Draws, Injector, Story, rng_seed, choose, inner, order_dates, utc, manifest_of, finish, add_log,
  ◌>>=◌,
}
use lineageiq.Incidents.Injectors.Params.{date_param}

abbrev pub delay_story : Env → ℕ → Story
delay_story env d = record {
  title = "Revenue report missing due to delayed upstream pipeline";
  params =
      ("date", text (env.isoformat d)) ∷ ("pipeline", text "revenue_aggregation_pipeline") ∷ [];
  changed_tables = "pipeline_runs" ∷ "daily_revenue_report" ∷ [];
  affected_pipeline = some "revenue_aggregation_pipeline";
  expected_symptoms =
      "Pipeline run completed far beyond its window"
      ∷ "daily_revenue_report missing for the affected date" ∷ [];
  root_cause_description =
      "An upstream ingest was delayed past the aggregation window, so the daily revenue report was not produced for the affected date.";
  expected_affected_systems = "Reporting" ∷ [];
  expected_affected_reports = "daily_revenue_report" ∷ [];
  expected_evidence = "pipeline:delayed_run" ∷ "sql:missing_report" ∷ [];
  expected_remediation = "Re-run the aggregation once the delayed ingest completes.";
  severity = compute_severity 1 (pos 0) 1 IncidentType.delayed_pipeline;
}

unfoldable pub plan_delay : Draws → Env → Session → ℕ → ℕ → Result IncidentManifest
plan_delay draws env s seed index =
    choose draws (rng_seed draws IncidentType.delayed_pipeline seed index) 0 (inner (order_dates s))
    >>= λ d. ok (manifest_of IncidentType.delayed_pipeline index seed (delay_story env d))

abbrev aggregation_run_id : Env → ℕ → String
aggregation_run_id env d = concat ("PR-revenue_aggregation_pipeline-" ∷ env.compact_date d ∷ [])

-- The day's run of the aggregation ends 14 hours after its start.
abbrev pub delay_run : Env → ℕ → PipelineRun → PipelineRun
delay_run env d r =
    if str_eq r.pipeline_run_id (aggregation_run_id env d)
    then record r {
      completed_at = some (r.started_at + 50_400_000_000);
      status = "delayed";
      error_message = some "Upstream ingest late; SLA breached";
    }
    else r

abbrev delay_log : Env → String → ℕ → SystemLog
delay_log env manifest_id d = record {
  log_id = concat ("LOG-INC-delay-" ∷ manifest_id ∷ []);
  timestamp = utc d 19;
  service = "PL-revenue_aggregation_pipeline";
  log_level = "ERROR";
  message =
      concat
        ("Aggregation for " ∷ env.isoformat d ∷ " skipped: upstream not ready (SLA breach)" ∷ []);
  correlation_id = some (concat ("delay-" ∷ env.isoformat d ∷ []));
  pipeline_run_id = some (aggregation_run_id env d);
  structured_metadata = some (("date", text (env.isoformat d)) ∷ []);
}

abbrev pub delay_day : Env → String → ℕ → Session → Session
delay_day env manifest_id d s = add_log (delay_log env manifest_id d) (record s {
  pipeline_runs = map (delay_run env d) s.pipeline_runs;
  daily_revenue_report = keep (λ r. not (r.report_date == d)) s.daily_revenue_report;
})

unfoldable pub apply_delay : Env → IncidentManifest → Exec Session (List String)
apply_delay env manifest s = finish s (
    date_param env "date" manifest.params >>= λ d.
    ok (env.isoformat d ∷ [], delay_day env manifest.manifest_id d s))

abbrev pub delayed_pipeline_injector : Draws → Env → Injector
delayed_pipeline_injector draws env = record {
  incident_type = IncidentType.delayed_pipeline;
  plan = plan_delay draws env;
  apply = apply_delay env;
}

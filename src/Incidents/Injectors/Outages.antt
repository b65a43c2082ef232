-- ===== src/Incidents/Injectors/Outages.antt =====
-- `UpstreamApiFailureInjector` of backend/app/incidents/injectors.py.
use lineageiq.Common.{
  ℕ, zero, suc, ◌+◌, ◌*◌, ◌&&◌, not, has, String, some, List, [], ◌∷◌, ◌++◌, concat, map, keep,
  take, show, leb, ltb, sort_texts,
}
use lineageiq.Taxonomy.{IncidentType}
use lineageiq.Effects.{Result, ok, Exec}
use lineageiq.Database.{Session, PipelineRun, SystemLog, text, int}
use lineageiq.Environment.{Env}
use lineageiq.Detection.Severity.{compute_severity, units}
use lineageiq.Incidents.{IncidentManifest}
use lineageiq.Incidents.Injectors.{
  Draws, Injector, Story, rng_seed, choose, inner, order_dates, utc, three_digits, manifest_of,
  finish, ◌>>=◌,
}
use lineageiq.Incidents.Injectors.Params.{date_param, int_param}

abbrev pub outage_story : Env → ℕ → Story
outage_story env d = record {
  title = "Payment provider API error burst causes missing payments";
  params = ("date", text (env.isoformat d)) ∷ ("error_count", int 25) ∷ [];
  changed_tables = "system_logs" ∷ "pipeline_runs" ∷ "payments" ∷ "refunds" ∷ [];
  affected_pipeline = some "payment_reconciliation_pipeline";
  expected_symptoms =
      "Burst of 5xx errors from the payment provider"
      ∷ "Failed payment reconciliation run; some payments missing" ∷ [];
  root_cause_description =
      "The payment provider API returned a burst of 5xx errors, so a window of payments failed to ingest.";
  expected_affected_systems = "Payments" ∷ "Reporting" ∷ [];
  expected_affected_reports = "daily_revenue_report" ∷ [];
  expected_evidence = "log:api_error_burst" ∷ "pipeline:failed_run" ∷ [];
  expected_remediation = "Replay the failed payment windows once the provider recovers.";
  severity = compute_severity 30 (units 90_000) 1 IncidentType.upstream_api_failure;
}

unfoldable pub plan_outage : Draws → Env → Session → ℕ → ℕ → Result IncidentManifest
plan_outage draws env s seed index =
    choose draws (rng_seed draws IncidentType.upstream_api_failure seed index) 0
      (inner (order_dates s))
    >>= λ d. ok (manifest_of IncidentType.upstream_api_failure index seed (outage_story env d))

module _ (manifest_id : String) (d : ℕ) where
  abbrev run_id : String
  run_id = concat ("PR-INC-api-" ∷ manifest_id ∷ [])

  abbrev pub error_log : ℕ → SystemLog
  error_log i = record {
    log_id = concat ("LOG-INC-api-" ∷ manifest_id ∷ "-" ∷ three_digits i ∷ []);
    timestamp = utc d 3 + i * 60_000_000;
    service = "payment_provider_api";
    log_level = "ERROR";
    message = concat ("HTTP 503 from payment provider (attempt " ∷ show i ∷ ")" ∷ []);
    correlation_id = some run_id;
    pipeline_run_id = some run_id;
    structured_metadata = some (("status", int 503) ∷ ("attempt", int i) ∷ []);
  }

  -- The rows of the loop that are left, from the i-th on.
  abbrev pub error_logs : ℕ → ℕ → List SystemLog
  error_logs i zero = []
  error_logs i (suc n) = error_log i ∷ error_logs (i + 1) n

  abbrev failed_run : ℕ → PipelineRun
  failed_run n = record {
    pipeline_run_id = run_id;
    pipeline_id = "PL-payment_reconciliation_pipeline";
    started_at = utc d 3;
    completed_at = some (utc d 3 + n * 60_000_000);
    status = "failed";
    rows_read = n;
    rows_written = 0;
    error_message = some "Payment provider API unavailable (HTTP 503 burst)";
    run_metadata = some (("error_count", int n) ∷ []);
  }

  -- `pay_ids`
  abbrev pub lost_ids : Session → List String
  lost_ids s = take 5 (
      sort_texts (
        map (λ p. p.payment_id)
          (keep (λ p. leb (utc d 3) p.payment_timestamp && ltb p.payment_timestamp (utc d 5))
            s.payments)))

  -- The two `delete` statements, which without ids delete nothing.
  abbrev pub delete_payments : List String → Session → Session
  delete_payments ids s = record s {
    refunds = keep (λ r. not (has r.payment_id ids)) s.refunds;
    payments = keep (λ p. not (has p.payment_id ids)) s.payments;
  }

  abbrev pub fail_provider : ℕ → Session → Session
  fail_provider n s =
      let cut = delete_payments (lost_ids s) s in
      record cut {
        system_logs = s.system_logs ++ error_logs 0 n;
        pipeline_runs = s.pipeline_runs ++ failed_run n ∷ [];
      }

unfoldable pub apply_outage : Env → IncidentManifest → Exec Session (List String)
apply_outage env manifest s = finish s (
    date_param env "date" manifest.params >>= λ d.
    int_param env "error_count" manifest.params >>= λ n. ok (
      map (λ l. l.log_id) (error_logs manifest.manifest_id d 0 n)
          ++ lost_ids manifest.manifest_id d s,
      fail_provider manifest.manifest_id d n s,
    ))

abbrev pub upstream_api_failure_injector : Draws → Env → Injector
upstream_api_failure_injector draws env = record {
  incident_type = IncidentType.upstream_api_failure;
  plan = plan_outage draws env;
  apply = apply_outage env;
}

-- ===== src/Incidents/Injectors/Rates.antt =====
-- `StaleFxRateInjector` of backend/app/incidents/injectors.py.
use lineageiq.Common.{
  ℕ, ◌-◌, ◌==◌, ◌&&◌, Bool, String, some, List, [], ◌∷◌, concat, map, keep, str_eq, if◌then◌else◌,
}
use lineageiq.Taxonomy.{IncidentType}
use lineageiq.Effects.{Result, ok, raised, Exec, other_error}
use lineageiq.Database.{Session, FxRate, SystemLog, text}
use lineageiq.Environment.{Env}
use lineageiq.Detection.Severity.{compute_severity, units}
use lineageiq.Incidents.{IncidentManifest}
use lineageiq.Incidents.Injectors.{
  Draws, Injector, Story, rng_seed, choose, inner, order_dates, utc, manifest_of, finish, add_log,
  ◌>>=◌,
}
use lineageiq.Incidents.Injectors.Params.{text_param, date_param}

abbrev pub stale_story : Env → ℕ → String → Story
stale_story env d currency = record {
  title = concat ("Stale " ∷ currency ∷ "/USD rate overstates revenue" ∷ []);
  params = ("date", text (env.isoformat d)) ∷ ("currency", text currency) ∷ [];
  changed_tables = "fx_rates" ∷ "pipeline_runs" ∷ "system_logs" ∷ [];
  affected_pipeline = some "fx_rate_pipeline";
  expected_symptoms =
      concat (currency ∷ "/USD rate identical to previous day (no drift)" ∷ [])
      ∷ "daily_revenue_report does not reconcile to source"
      ∷ [];
  root_cause_description = concat (
      "The FX pipeline failed to fetch a fresh " ∷ currency
      ∷ "/USD rate and reused the previous day's rate, so converted USD revenue deviates from the correct value."
      ∷ []);
  expected_affected_systems = "ForeignExchange" ∷ "Reporting" ∷ [];
  expected_affected_reports = "daily_revenue_report" ∷ [];
  expected_evidence = "sql:fx_rate_compare" ∷ "pipeline:fx_rate_pipeline" ∷ "log:stale_rate" ∷ [];
  expected_remediation =
      "Refresh FX data for the affected date and regenerate affected revenue reports.";
  severity = compute_severity 50 (units 250_000) 1 IncidentType.stale_fx_rate;
}

unfoldable pub plan_stale : Draws → Env → Session → ℕ → ℕ → Result IncidentManifest
plan_stale draws env s seed index =
    let rng = rng_seed draws IncidentType.stale_fx_rate seed index in
    choose draws rng 0 (inner (order_dates s)) >>= λ d.
    choose draws rng 1 ("EUR" ∷ "GBP" ∷ "JPY" ∷ "TRY" ∷ []) >>= λ currency.
    ok (manifest_of IncidentType.stale_fx_rate index seed (stale_story env d currency))

abbrev pub is_rate_of : ℕ → String → FxRate → Bool
is_rate_of d currency r =
    (r.rate_date == d) && (str_eq r.source_currency currency && str_eq r.target_currency "USD")

-- `scalar_one()`
abbrev pub only : {A : Type 0} → List A → Result A
only [] = raised (other_error "No row was found when one was required")
only (x ∷ []) = ok x
only (x ∷ y ∷ xs) = raised (other_error "Multiple rows were found when exactly one was required")

abbrev pub rate_on : ℕ → String → Session → Result FxRate
rate_on d currency s = only (keep (is_rate_of d currency) s.fx_rates)

abbrev stale_log : Env → ℕ → String → SystemLog
stale_log env d currency = record {
  log_id = concat ("LOG-INC-stalefx-" ∷ env.isoformat d ∷ "-" ∷ currency ∷ []);
  timestamp = utc d 0;
  service = "PL-fx_rate_pipeline";
  log_level = "WARN";
  message = concat (
      "FX provider returned no new "
      ∷ currency
      ∷ "/USD rate; reusing "
      ∷ env.isoformat (d - 1)
      ∷ []);
  correlation_id = some (concat ("fx-" ∷ env.isoformat d ∷ []));
  pipeline_run_id = some (concat ("PR-fx_rate_pipeline-" ∷ env.compact_date d ∷ []));
  structured_metadata =
      some (("currency", text currency) ∷ ("reused_from", text (env.isoformat (d - 1))) ∷ []);
}

-- The day's one rate takes the rate of the day before.
abbrev pub reuse_rate : ℕ → String → ℕ → FxRate → FxRate
reuse_rate d currency rate r =
    if is_rate_of d currency r then record r { exchange_rate = rate; retrieved_at = utc d 0 } else r

abbrev make_stale : Env → ℕ → String → ℕ → Session → Session
make_stale env d currency rate s =
    add_log (stale_log env d currency)
      (record s { fx_rates = map (reuse_rate d currency rate) s.fx_rates })

unfoldable pub apply_stale : Env → IncidentManifest → Exec Session (List String)
apply_stale env manifest s = finish s (
    date_param env "date" manifest.params >>= λ d.
    text_param "currency" manifest.params >>= λ currency. rate_on (d - 1) currency s >>= λ previous.
    rate_on d currency s >>= λ current. ok (
      concat (env.isoformat d ∷ ":" ∷ currency ∷ ":USD" ∷ []) ∷ [],
      make_stale env d currency previous.exchange_rate s,
    ))

abbrev pub stale_fx_rate_injector : Draws → Env → Injector
stale_fx_rate_injector draws env = record {
  incident_type = IncidentType.stale_fx_rate;
  plan = plan_stale draws env;
  apply = apply_stale env;
}

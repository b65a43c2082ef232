-- ===== src/Incidents/Injectors/Payments.antt =====
-- `DuplicateTransactionInjector` of backend/app/incidents/injectors.py.
use lineageiq.Common.{
  ℕ, ◌+◌, String, Option, none, some, List, [], ◌∷◌, ◌++◌, concat, map, keep, str_eq, sort_texts,
  if◌then◌else◌,
}
use lineageiq.Taxonomy.{IncidentType}
use lineageiq.Effects.{Result, ok, raised, Exec, other_error}
use lineageiq.Database.{Session, Payment, SystemLog, text}
use lineageiq.Detection.Severity.{compute_severity}
use lineageiq.Incidents.{IncidentManifest}
use lineageiq.Incidents.Injectors.{
  Draws, Injector, Story, rng_seed, choose, manifest_of, finish, add_log, ◌>>=◌,
}
use lineageiq.Incidents.Injectors.Params.{text_param}

-- `session.get(Payment, payment_id)`
abbrev pub payment_with : String → List Payment → Option Payment
payment_with payment_id [] = none
payment_with payment_id (p ∷ ps) =
    if str_eq p.payment_id payment_id then some p else payment_with payment_id ps

-- The payment, which the code asserts to be there.
abbrev pub asserted : {A : Type 0} → Option A → Result A
asserted none = raised (other_error "")
asserted (some a) = ok a

abbrev pub successful_ids : Session → List String
successful_ids s =
    map (λ p. p.payment_id) (keep (λ p. str_eq p.payment_status "successful") s.payments)

abbrev pub duplicate_story : String → Payment → Story
duplicate_story target payment = record {
  title = "Duplicate payment double-counted in revenue";
  params = ("payment_id", text target) ∷ [];
  changed_tables = "payments" ∷ "system_logs" ∷ [];
  affected_pipeline = some "payment_reconciliation_pipeline";
  expected_symptoms =
      "Duplicate idempotency_key in payments" ∷ "Reported revenue higher than reconciled source"
      ∷ [];
  root_cause_description =
      "A payment retry without idempotency enforcement created a duplicate payment row, double-counting the amount in revenue.";
  expected_affected_systems = "Payments" ∷ "Reporting" ∷ [];
  expected_affected_reports = "daily_revenue_report" ∷ [];
  expected_evidence = "sql:duplicate_idempotency_key" ∷ "log:payment_retry" ∷ [];
  expected_remediation =
      "Deduplicate payments by idempotency_key and rebuild affected revenue aggregates.";
  severity = compute_severity 1 payment.payment_amount 1 IncidentType.duplicate_transaction;
}

unfoldable pub plan_duplicate : Draws → Session → ℕ → ℕ → Result IncidentManifest
plan_duplicate draws s seed index =
    choose draws (rng_seed draws IncidentType.duplicate_transaction seed index) 0
      (sort_texts (successful_ids s))
    >>= λ target. asserted (payment_with target s.payments) >>= λ payment.
        ok (
          manifest_of IncidentType.duplicate_transaction index seed
            (duplicate_story target payment))

abbrev pub duplicate_id : Payment → String
duplicate_id p = concat (p.payment_id ∷ "-DUP" ∷ [])

abbrev pub duplicate_of : Payment → Payment
duplicate_of p = record p {
  payment_id = duplicate_id p;
  payment_timestamp = p.payment_timestamp + 120_000_000;
  payment_status = "successful";
  updated_at = p.payment_timestamp + 120_000_000;
}

abbrev retry_log : Payment → SystemLog
retry_log p = record {
  log_id = concat ("LOG-INC-" ∷ duplicate_id p ∷ []);
  timestamp = p.payment_timestamp + 120_000_000;
  service = "PL-payment_reconciliation_pipeline";
  log_level = "WARN";
  message =
      concat ("Retry processed for idempotency_key=" ∷ p.idempotency_key ∷ " (no dedupe)" ∷ []);
  correlation_id = some (concat ("retry-" ∷ p.payment_id ∷ []));
  pipeline_run_id = none;
  structured_metadata = some (("idempotency_key", text p.idempotency_key) ∷ []);
}

abbrev pub add_duplicate : Payment → Session → Session
add_duplicate p s =
    add_log (retry_log p) (record s { payments = s.payments ++ duplicate_of p ∷ [] })

unfoldable pub apply_duplicate : IncidentManifest → Exec Session (List String)
apply_duplicate manifest s = finish s (
    text_param "payment_id" manifest.params >>= λ payment_id.
    asserted (payment_with payment_id s.payments) >>= λ payment.
    ok (duplicate_id payment ∷ [], add_duplicate payment s))

abbrev pub duplicate_transaction_injector : Draws → Injector
duplicate_transaction_injector draws = record {
  incident_type = IncidentType.duplicate_transaction;
  plan = plan_duplicate draws;
  apply = apply_duplicate;
}

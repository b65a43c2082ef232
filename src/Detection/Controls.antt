-- ===== src/Detection/Controls.antt =====
-- Controls of backend/app/detection/detectors.py. A control reads the session and gives drafts of
-- alerts, which lack the time; `emit` reads the clock for each of them, in order. Rows that a
-- query returns in no stated order come in the order of their table.
pub mod Duplicates
pub mod Days
pub mod Rates
pub mod Runs
pub mod Shifts
pub mod Revenue
pub mod Suite
mod Tests
use lineageiq.Common.{
  ℕ, zero, suc, ◌+◌, ◌*◌, ◌/◌, ◌%◌, ℤ, ◌-ℤ◌, eq_ℤ, String, Bool, true, false, not, ◌&&◌, ◌||◌,
  Option, none, some, List, [], ◌∷◌, ◌++◌, map, keep, concat, length, get_elem?, show, str_eq, leb,
  ltb, ◌==◌, counter, if◌then◌else◌,
}
use lineageiq.Taxonomy.{RootCauseCode, Severity}
use lineageiq.Database.{
  Session, Customer, Payment, Order, SchemaEvent, StagingRecord, SystemLog, DailyRevenueReport,
  Value, null, boolean, int, text, texts, json, Payload, payload_get, date_of,
}
use lineageiq.Environment.{Env, World}
use lineageiq.Detection.Alerts.{AlertDto}
use lineageiq.Detection.Reconcile.{load_reports}

-- An alert before its time is known.
abbrev pub Draft : Type 0
Draft = ℕ → AlertDto

unfoldable pub emit : Env → List Draft → World → List AlertDto × World
emit env [] w = ([], w)
emit env (d ∷ ds) w =
    let rest = emit env ds (record w { readings = suc w.readings }) in
    (d (env.clock w.readings) ∷ rest.0, rest.1)

abbrev pub payment_keys : Session → List String
payment_keys s = map (λ p. p.idempotency_key) s.payments

abbrev pub duplicate_draft : String × ℕ → Draft
duplicate_draft (key, count) detected_at = record {
  detector_name = "duplicate_payment_control";
  entity_type = "idempotency_key";
  entity_id = key;
  metric_name = "duplicate_payment_count";
  observed_value = some (show count);
  expected_value = some "1";
  anomaly_score = some 10_000;
  severity = Severity.high;
  suspected_root_cause = RootCauseCode.duplicate_transaction;
  detected_at = detected_at;
  metadata = ("idempotency_key", text key) ∷ [];
}

-- `GROUP BY idempotency_key HAVING count(*) > 1`
unfoldable pub repeated_keys : Session → List (String × ℕ)
repeated_keys s = keep (λ e. ltb 1 e.1) (counter (payment_keys s))

unfoldable pub duplicate_payments : Session → List Draft
unfolding repeated_keys
duplicate_payments s = map duplicate_draft (repeated_keys s)

abbrev pub is_unmapped : Customer → Bool
is_unmapped c = elim c.crm_customer_id [ none ↦ true | some id ↦ false ]

unfoldable pub missing_mappings : Session → List Draft
missing_mappings s =
    let count = length (keep is_unmapped s.customers) in
    if count == 0
    then []
    else (λ detected_at. record {
      detector_name = "missing_customer_mapping_control";
      entity_type = "customers";
      entity_id = "crm_mapping";
      metric_name = "null_crm_mapping_count";
      observed_value = some (show count);
      expected_value = some "0";
      anomaly_score = some 10_000;
      severity = Severity.medium;
      suspected_root_cause = RootCauseCode.missing_customer_mapping;
      detected_at = detected_at;
      metadata = ("null_count", int count) ∷ [];
    })
      ∷ []

abbrev schema_draft : SchemaEvent → Draft
schema_draft e detected_at = record {
  detector_name = "schema_contract_control";
  entity_type = "schema_event";
  entity_id = e.event_id;
  metric_name = "schema_contract_change";
  observed_value = some e.change_type;
  expected_value = some "stable";
  anomaly_score = some 10_000;
  severity = Severity.high;
  suspected_root_cause = RootCauseCode.schema_contract_change;
  detected_at = detected_at;
  metadata = ("table", text e.table_name) ∷ ("field", text e.field_name) ∷ [];
}

unfoldable pub schema_changes : Session → List Draft
schema_changes s = map schema_draft s.schema_events

-- `_REQUIRED_STAGING_FIELDS.get(entity_type)`
abbrev pub required_field : String → Option String
required_field entity_type =
    if str_eq entity_type "order"
    then some "gross_amount"
    else if str_eq entity_type "payment"
    then some "payment_amount"
    else none

abbrev pub is_none : Option Value → Bool
is_none none = true
is_none (some v) = elim v [ null ↦ true | _ ↦ false ]

-- The counted names of the required fields that are missing.
abbrev pub null_fields : List StagingRecord → List String
null_fields [] = []
null_fields (r ∷ rs) =
    let rest = null_fields rs in
    elim (required_field r.entity_type) [
      | none ↦ rest
      | some field ↦
          if is_none (payload_get field r.payload)
          then concat (r.entity_type ∷ "." ∷ field ∷ []) ∷ rest
          else rest
    ]

abbrev null_draft : String × ℕ → Draft
null_draft (field, count) detected_at = record {
  detector_name = "null_contamination_control";
  entity_type = "staging_records";
  entity_id = field;
  metric_name = "null_required_field_count";
  observed_value = some (show count);
  expected_value = some "0";
  anomaly_score = some 10_000;
  severity = Severity.medium;
  suspected_root_cause = RootCauseCode.null_contamination;
  detected_at = detected_at;
  metadata = ("field", text field) ∷ ("count", int count) ∷ [];
}

-- `counts`
abbrev pub null_counts : Session → List (String × ℕ)
null_counts s = counter (null_fields s.staging_records)

unfoldable pub null_contamination : Session → List Draft
null_contamination s = map null_draft (null_counts s)

abbrev pub is_inconsistent : DailyRevenueReport → Bool
is_inconsistent r = not (eq_ℤ r.net_revenue (r.gross_revenue -ℤ r.refund_total))

abbrev pub aggregation_draft : Env → DailyRevenueReport → Draft
aggregation_draft env r detected_at = record {
  detector_name = "aggregation_consistency_control";
  entity_type = "daily_revenue_report";
  entity_id = concat (r.region ∷ ":" ∷ env.isoformat r.report_date ∷ []);
  metric_name = "net_revenue_consistency";
  observed_value = some (env.money_text r.net_revenue);
  expected_value = some (env.money_text (r.gross_revenue -ℤ r.refund_total));
  anomaly_score = some 10_000;
  severity = Severity.high;
  suspected_root_cause = RootCauseCode.incorrect_aggregation;
  detected_at = detected_at;
  metadata = ("region", text r.region) ∷ ("date", text (env.isoformat r.report_date)) ∷ [];
}

unfoldable pub incorrect_aggregations : Env → Session → List Draft
incorrect_aggregations env s = map (aggregation_draft env) (keep is_inconsistent (load_reports s))

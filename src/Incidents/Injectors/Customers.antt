-- ===== src/Incidents/Injectors/Customers.antt =====
-- `MissingCustomerMappingInjector` of backend/app/incidents/injectors.py.
use lineageiq.Common.{
  ℕ, String, none, some, List, [], ◌∷◌, concat, map, any, length, show, str_eq, pos, sort_texts,
  if◌then◌else◌,
}
use lineageiq.Taxonomy.{IncidentType}
use lineageiq.Effects.{Result, ok, raised, Exec, other_error}
use lineageiq.Database.{Session, Customer, SystemLog, texts, int}
use lineageiq.Detection.Severity.{compute_severity}
use lineageiq.Incidents.{IncidentManifest}
use lineageiq.Incidents.Injectors.{
  Draws, Injector, Story, rng_seed, sample_of, order_dates, utc, manifest_of, add_log, ◌>>=◌,
}
use lineageiq.Incidents.Injectors.Params.{texts_param}

abbrev pub mapping_story : List String → Story
mapping_story targets = record {
  title = "Customers missing CRM mapping";
  params = ("customer_ids", texts targets) ∷ [];
  changed_tables = "customers" ∷ "system_logs" ∷ [];
  affected_pipeline = some "customer_mapping_pipeline";
  expected_symptoms =
      "customers.crm_customer_id is null for several customers"
      ∷ "Orders cannot be attributed via CRM" ∷ [];
  root_cause_description =
      "The customer mapping pipeline dropped rows, leaving customers unmapped to CRM.";
  expected_affected_systems = "CRM" ∷ "Customers" ∷ "Reporting" ∷ [];
  expected_affected_reports = "daily_revenue_report" ∷ [];
  expected_evidence = "sql:null_crm_mapping" ∷ "pipeline:customer_mapping_pipeline" ∷ [];
  expected_remediation = "Backfill customer-to-CRM mapping from CRM and reprocess.";
  severity = compute_severity 5 (pos 0) 1 IncidentType.missing_customer_mapping;
}

unfoldable pub plan_mapping : Draws → Session → ℕ → ℕ → Result IncidentManifest
plan_mapping draws s seed index =
    sample_of draws (rng_seed draws IncidentType.missing_customer_mapping seed index)
      (sort_texts (map (λ c. c.customer_id) s.customers)) 5
    >>= λ targets.
        ok (manifest_of IncidentType.missing_customer_mapping index seed (mapping_story targets))

-- `c.crm_customer_id = None` on the customer of the id
abbrev pub unmap : String → Customer → Customer
unmap customer_id c =
    if str_eq c.customer_id customer_id then record c { crm_customer_id = none } else c

-- The loop over the ids, where a missing customer fails its assertion.
unfoldable pub unmap_all : List String → Exec Session Unit
unmap_all [] s = (ok tt, s)
unmap_all (customer_id ∷ ids) s =
    let rest = unmap_all ids (record s { customers = map (unmap customer_id) s.customers }) in
    if any (λ c. str_eq c.customer_id customer_id) s.customers
    then rest
    else (raised (other_error ""), s)

abbrev pub mapping_log : String → List String → ℕ → SystemLog
mapping_log manifest_id ids d = record {
  log_id = concat ("LOG-INC-mapping-" ∷ manifest_id ∷ []);
  timestamp = utc d 2;
  service = "PL-customer_mapping_pipeline";
  log_level = "ERROR";
  message =
      concat
        ("Mapping step dropped " ∷ show (length ids) ∷ " customer rows (CRM lookup miss)" ∷ []);
  correlation_id = some (concat ("map-" ∷ manifest_id ∷ []));
  pipeline_run_id = none;
  structured_metadata = some (("dropped", int (length ids)) ∷ []);
}

-- The log after the loop, on the first of the days: an IndexError where there are none.
abbrev pub log_first_day : String → List String → List ℕ → Exec Session (List String)
log_first_day manifest_id ids [] s = (raised (other_error "list index out of range"), s)
log_first_day manifest_id ids (d ∷ ds) s = (ok ids, add_log (mapping_log manifest_id ids d) s)

abbrev pub log_mapping : String → List String → Result {0} Unit → Exec Session (List String)
log_mapping manifest_id ids (raised e) s = (raised e, s)
log_mapping manifest_id ids (ok t) s = log_first_day manifest_id ids (order_dates s) s

abbrev pub drop_mappings : String → Result (List String) → Exec Session (List String)
drop_mappings manifest_id (raised e) s = (raised e, s)
drop_mappings manifest_id (ok ids) s =
    log_mapping manifest_id ids (unmap_all ids s).0 (unmap_all ids s).1

unfoldable pub apply_mapping : IncidentManifest → Exec Session (List String)
unfolding unmap_all
apply_mapping manifest s =
    drop_mappings manifest.manifest_id (texts_param "customer_ids" manifest.params) s

abbrev pub missing_customer_mapping_injector : Draws → Injector
missing_customer_mapping_injector draws = record {
  incident_type = IncidentType.missing_customer_mapping;
  plan = plan_mapping draws;
  apply = apply_mapping;
}

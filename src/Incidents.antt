-- ===== src/Incidents.antt =====
-- backend/app/incidents/service.py and manifest.py: how alerts become an incident.
-- Nothing here raises but the database's constraints, which are not modelled: a statement is a
-- function of the world. `dump` is `manifest.model_dump(mode="json")`.
mod Evidenced
pub mod Created
pub mod Runner
pub mod Injectors
pub mod Injected
pub mod Samples
mod Tests
use lineageiq.Common.{
  ℕ, suc, String, Bool, true, false, not, Option, none, some, List, [], ◌∷◌, ◌++◌, map, keep,
  concat, take_text, str_eq, if◌then◌else◌,
}
use lineageiq.Taxonomy.{
  IncidentType, RootCauseCode, Severity, incident_type_value, root_cause_value, severity_value,
  same_cause, max_of,
}
use lineageiq.Database.{
  Session, Incident, Alert, Evidence, IncidentGroundTruth, Value, text, Payload,
}
use lineageiq.Environment.{Env, World}
use lineageiq.Tools.{add_evidence}
use lineageiq.Detection.Alerts.{AlertDto}

pub record IncidentManifest : Type 0 where
  pub manifest_id : String
  pub incident_type : IncidentType
  pub root_cause_code : RootCauseCode
  pub seed : ℕ
  pub index : ℕ
  pub title : String
  pub params : Payload
  pub changed_tables : List String
  pub affected_pipeline : Option String
  pub expected_symptoms : List String
  pub root_cause_description : String
  pub expected_affected_systems : List String
  pub expected_affected_reports : List String
  pub expected_evidence : List String
  pub expected_remediation : String
  pub severity : Severity
  pub should_escalate : Bool
  pub changed_record_ids : List String
  pub injected_at : Option String

-- `PRIMARY_SYSTEM`, which has an entry for every code.
unfoldable pub primary_system_for : RootCauseCode → String
primary_system_for RootCauseCode.duplicate_transaction = "Payments"
primary_system_for RootCauseCode.stale_fx_rate = "ForeignExchange"
primary_system_for RootCauseCode.missing_customer_mapping = "CRM"
primary_system_for RootCauseCode.schema_contract_change = "Orders"
primary_system_for RootCauseCode.delayed_pipeline = "Reporting"
primary_system_for RootCauseCode.timezone_conversion_error = "Orders"
primary_system_for RootCauseCode.null_contamination = "Orders"
primary_system_for RootCauseCode.partial_load = "Orders"
primary_system_for RootCauseCode.incorrect_aggregation = "Reporting"
primary_system_for RootCauseCode.upstream_api_failure = "Payments"
primary_system_for RootCauseCode.unknown = "Reporting"

-- `_max_severity`
unfoldable pub max_severity : List AlertDto → Severity
max_severity [] = Severity.low
max_severity (a ∷ []) = a.severity
max_severity (a ∷ b ∷ others) = max_of a.severity (max_severity (b ∷ others))

-- `{**payload, key: value}`
unfoldable pub payload_set : String → Value → Payload → Payload
payload_set key value [] = (key, value) ∷ []
payload_set key value ((k, v) ∷ p) =
    if str_eq k key then (k, value) ∷ p else (k, v) ∷ payload_set key value p

abbrev pub with_cause : AlertDto → Payload
with_cause a =
    payload_set "suspected_root_cause" (text (root_cause_value a.suspected_root_cause)) a.metadata

-- `f"{prefix}-{_short()}"`
abbrev pub short_id : Env → String → World → String
short_id env prefix w = concat (prefix ∷ "-" ∷ take_text 8 (env.uuid_hex w.uuids) ∷ [])

abbrev pub next_uuid : World → World
next_uuid w = record w { uuids = suc w.uuids }

abbrev pub next_now : World → World
next_now w = record w { readings = suc w.readings }

abbrev pub add_alert : Alert → World → World
add_alert row w = record w { session = record w.session { alerts = w.session.alerts ++ row ∷ [] } }

abbrev pub alert_row : String → AlertDto → Alert
alert_row alert_id a = record {
  alert_id = alert_id;
  detector_name = a.detector_name;
  detected_at = a.detected_at;
  entity_type = a.entity_type;
  entity_id = a.entity_id;
  metric_name = a.metric_name;
  observed_value = a.observed_value;
  expected_value = a.expected_value;
  anomaly_score = a.anomaly_score;
  severity = severity_value a.severity;
  alert_metadata = some (with_cause a);
}

unfoldable pub persist_alerts : Env → List AlertDto → World → List Alert × World
unfolding payload_set
persist_alerts env [] w = ([], w)
persist_alerts env (a ∷ others) w =
    let row = alert_row (short_id env "ALRT" w) a in
    let rest = persist_alerts env others (add_alert row (next_uuid w)) in (row ∷ rest.0, rest.1)

-- A value in an f-string, where None is shown by its name.
abbrev shown : Option String → String
shown none = "None"
shown (some s) = s

abbrev pub alert_evidence_row : String → String → AlertDto → Alert → ℕ → Evidence
alert_evidence_row evidence_id incident_id a row collected_at = record {
  evidence_id = evidence_id;
  incident_id = incident_id;
  evidence_type = "alert";
  source = a.detector_name;
  summary = concat (
      a.detector_name
      ∷ ": "
      ∷ a.metric_name
      ∷ " on "
      ∷ a.entity_type
      ∷ " "
      ∷ a.entity_id
      ∷ " observed="
      ∷ shown a.observed_value
      ∷ " expected="
      ∷ shown a.expected_value
      ∷ []);
  raw_reference = some row.alert_id;
  collected_at = collected_at;
  reliability_score = 10_000;
  structured_payload = some (with_cause a);
}

-- The loop over `zip(alerts, alert_rows)`.
unfoldable pub add_alert_evidence : Env → String → List AlertDto → List Alert → World → World
unfolding payload_set
add_alert_evidence env incident_id (a ∷ others) (row ∷ rows) w =
    add_alert_evidence env incident_id others rows (
      add_evidence
        (alert_evidence_row (short_id env "EV" w) incident_id a row (env.clock w.readings))
        (next_now (next_uuid w)))
add_alert_evidence env incident_id (a ∷ others) [] w = w
add_alert_evidence env incident_id [] rows w = w

-- `primary_root_cause`: the argument, else the manifest's, else the first named cause.
abbrev first_named : List AlertDto → RootCauseCode
first_named [] = RootCauseCode.unknown
first_named (a ∷ others) =
    if same_cause a.suspected_root_cause RootCauseCode.unknown
    then first_named others
    else a.suspected_root_cause

abbrev pub primary_cause :
    Option RootCauseCode → Option IncidentManifest → List AlertDto → RootCauseCode
primary_cause (some cause) manifest alerts = cause
primary_cause none (some manifest) alerts = manifest.root_cause_code
primary_cause none none alerts = first_named alerts

-- `given or default`
abbrev given_or : Option String → String → String
given_or none default = default
given_or (some s) default = if str_eq s "" then default else s

abbrev is_given : Option String → Bool
is_given none = false
is_given (some s) = not (str_eq s "")

-- `iid`; an id is drawn only without an argument and a manifest.
abbrev pub choose_id : Env → Option String → Option IncidentManifest → World → String × World
choose_id env incident_id (some manifest) w =
    (given_or incident_id (concat ("INC-" ∷ manifest.manifest_id ∷ [])), w)
choose_id env incident_id none w =
    if is_given incident_id
    then (given_or incident_id "", w)
    else (short_id env "INC" w, next_uuid w)

abbrev pub title_for : Option String → Option IncidentManifest → RootCauseCode → String
title_for title (some manifest) cause = given_or title manifest.title
title_for title none cause = given_or title (concat ("Detected: " ∷ root_cause_value cause ∷ []))

abbrev first_alert_id : List Alert → Option String
first_alert_id [] = none
first_alert_id (row ∷ rows) = some row.alert_id

abbrev pub add_incident : Incident → World → World
add_incident i w = record w {
  session = record w.session { incidents = w.session.incidents ++ i ∷ [] };
}

abbrev jobs_of : Option String → List String
jobs_of none = []
jobs_of (some pipeline) = if str_eq pipeline "" then [] else pipeline ∷ []

-- The ground truth of a manifest.
abbrev pub ground_truth :
    (IncidentManifest → Payload) → String → IncidentManifest → ℕ → IncidentGroundTruth
ground_truth dump incident_id m created_at = record {
  incident_id = incident_id;
  injected_incident_type = incident_type_value m.incident_type;
  root_cause_code = root_cause_value m.root_cause_code;
  root_cause_description = m.root_cause_description;
  affected_tables = m.changed_tables;
  affected_jobs = jobs_of m.affected_pipeline;
  affected_reports = m.expected_affected_reports;
  expected_evidence = m.expected_evidence;
  should_escalate = m.should_escalate;
  injection_manifest = dump m;
  created_at = created_at;
}

unfoldable pub add_ground_truth :
    Env → (IncidentManifest → Payload) → String → Option IncidentManifest → World → World
add_ground_truth env dump incident_id none w = w
add_ground_truth env dump incident_id (some m) w =
    let row = ground_truth dump incident_id m (env.clock w.readings) in
    record (next_now w) {
      session = record w.session {
        incident_ground_truth = w.session.incident_ground_truth ++ row ∷ [];
      };
    }

abbrev pub new_incident :
    Env
    → String
    → Option String
    → Option IncidentManifest
    → RootCauseCode
    → List AlertDto
    → List Alert
    → World
    → Incident
new_incident env incident_id title manifest cause alerts rows w = record {
  incident_id = incident_id;
  title = title_for title manifest cause;
  detected_at = env.clock w.readings;
  status = "open";
  severity = severity_value (max_severity alerts);
  source_alert_id = first_alert_id rows;
  primary_affected_system = some (primary_system_for cause);
  assigned_to = none;
  created_at = env.clock (suc w.readings);
  resolved_at = none;
}

unfoldable pub create_incident_from_alerts :
    Env
    → (IncidentManifest → Payload)
    → List AlertDto
    → Option IncidentManifest
    → Option String
    → Option String
    → Option RootCauseCode
    → World
    → Incident × World
unfolding persist_alerts add_alert_evidence add_ground_truth max_severity primary_system_for
create_incident_from_alerts env dump alerts manifest incident_id title primary w =
    let persisted = persist_alerts env alerts w in
    let cause = primary_cause primary manifest alerts in
    let chosen = choose_id env incident_id manifest persisted.1 in
    let incident = new_incident env chosen.0 title manifest cause alerts persisted.0 chosen.1 in
    let added = add_incident incident (next_now (next_now chosen.1)) in
    let evidenced = add_alert_evidence env chosen.0 alerts persisted.0 added in
    (incident, add_ground_truth env dump chosen.0 manifest evidenced)

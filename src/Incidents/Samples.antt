-- ===== src/Incidents/Samples.antt =====
-- Two alerts, for the tests of backend/app/incidents and backend/app/detection/runner.py.
use lineageiq.Common.{[], ◌∷◌, some, List}
use lineageiq.Taxonomy.{RootCauseCode, Severity}
use lineageiq.Database.{Payload, text}
use lineageiq.Environment.{World}
use lineageiq.Agent.Samples.{small_session}
use lineageiq.Detection.Alerts.{AlertDto}
use lineageiq.Incidents.{IncidentManifest}

abbrev pub alert_of : RootCauseCode → Severity → AlertDto
alert_of cause severity = record {
  detector_name = "control";
  entity_type = "orders";
  entity_id = "2026-01-01";
  metric_name = "daily_order_count";
  observed_value = some "3";
  expected_value = some "~9";
  anomaly_score = some 9000;
  severity = severity;
  suspected_root_cause = cause;
  detected_at = 7;
  metadata = ("date", text "2026-01-01") ∷ [];
}

abbrev pub two_alerts : List AlertDto
two_alerts =
    alert_of RootCauseCode.partial_load Severity.high
    ∷ alert_of RootCauseCode.unknown Severity.medium
    ∷ []

abbrev pub small_world : World
small_world = record { session = small_session; uuids = 0; readings = 0 }

abbrev pub no_payload : IncidentManifest → Payload
no_payload manifest = []

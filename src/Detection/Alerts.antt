-- ===== src/Detection/Alerts.antt =====
-- backend/app/schemas/detection.py: the alert that every control gives.
-- An anomaly score is a number of ten-thousandths.
use lineageiq.Common.{ℕ, String, Option}
use lineageiq.Taxonomy.{RootCauseCode, Severity}
use lineageiq.Database.{Payload}

pub record AlertDto : Type 0 where
  pub detector_name : String
  pub entity_type : String
  pub entity_id : String
  pub metric_name : String
  pub observed_value : Option String
  pub expected_value : Option String
  pub anomaly_score : Option ℕ
  pub severity : Severity
  pub suspected_root_cause : RootCauseCode
  pub detected_at : ℕ
  pub metadata : Payload

-- ===== src/Database/Operational.antt =====
-- backend/app/models/operational.py. A score or confidence is a number of ten-thousandths, a cost
-- a number of billionths.
use lineageiq.Common.{ℕ, String, List, Bool, Option}
use lineageiq.Database.Values.{Payload}

pub record PipelineDefinition : Type 0 where
  pub pipeline_id : String
  pub pipeline_name : String
  pub source_system : String
  pub target_system : String
  pub schedule : String
  pub owner : String
  pub active : Bool

pub record PipelineRun : Type 0 where
  pub pipeline_run_id : String
  pub pipeline_id : String
  pub started_at : ℕ
  pub completed_at : Option ℕ
  pub status : String
  pub rows_read : ℕ
  pub rows_written : ℕ
  pub error_message : Option String
  pub run_metadata : Option Payload

pub record SystemLog : Type 0 where
  pub log_id : String
  pub timestamp : ℕ
  pub service : String
  pub log_level : String
  pub message : String
  pub correlation_id : Option String
  pub pipeline_run_id : Option String
  pub structured_metadata : Option Payload

pub record Incident : Type 0 where
  pub incident_id : String
  pub title : String
  pub detected_at : ℕ
  pub status : String
  pub severity : String
  pub source_alert_id : Option String
  pub primary_affected_system : Option String
  pub assigned_to : Option String
  pub created_at : ℕ
  pub resolved_at : Option ℕ

pub record Alert : Type 0 where
  pub alert_id : String
  pub detector_name : String
  pub detected_at : ℕ
  pub entity_type : String
  pub entity_id : String
  pub metric_name : String
  pub observed_value : Option String
  pub expected_value : Option String
  pub anomaly_score : Option ℕ
  pub severity : String
  pub alert_metadata : Option Payload

pub record Evidence : Type 0 where
  pub evidence_id : String
  pub incident_id : String
  pub evidence_type : String
  pub source : String
  pub summary : String
  pub raw_reference : Option String
  pub collected_at : ℕ
  pub reliability_score : ℕ
  pub structured_payload : Option Payload

pub record AgentRun : Type 0 where
  pub agent_run_id : String
  pub incident_id : String
  pub started_at : ℕ
  pub completed_at : Option ℕ
  pub status : String
  pub model_name : String
  pub tool_call_count : ℕ
  pub prompt_tokens : ℕ
  pub completion_tokens : ℕ
  pub estimated_cost : ℕ
  pub trace_id : Option String
  pub output : Option Payload
  pub failure_reason : Option String

pub record IncidentGroundTruth : Type 0 where
  pub incident_id : String
  pub injected_incident_type : String
  pub root_cause_code : String
  pub root_cause_description : String
  pub affected_tables : List String
  pub affected_jobs : List String
  pub affected_reports : List String
  pub expected_evidence : List String
  pub should_escalate : Bool
  pub injection_manifest : Payload
  pub created_at : ℕ

pub record HistoricalIncident : Type 0 where
  pub historical_incident_id : String
  pub title : String
  pub incident_type : String
  pub symptoms : String
  pub root_cause : String
  pub affected_systems : List String
  pub remediation : String
  pub severity : String
  pub evidence_summary : String
  pub searchable_text : String
  pub occurred_at : ℕ

pub record StagingRecord : Type 0 where
  pub staging_id : String
  pub pipeline_run_id : Option String
  pub source_system : String
  pub entity_type : String
  pub natural_key : Option String
  pub payload : Payload
  pub load_status : String
  pub ingested_at : ℕ

pub record SchemaEvent : Type 0 where
  pub event_id : String
  pub table_name : String
  pub change_type : String
  pub field_name : String
  pub details : String
  pub pipeline_run_id : Option String
  pub payload : Option Payload
  pub occurred_at : ℕ

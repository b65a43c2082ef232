-- ===== src/Agent/Types.antt =====
-- backend/app/agent/types.py and backend/app/schemas/investigation.py. A confidence is a number of
-- ten-thousandths: 0.65 is 6500.
use lineageiq.Common.{ℕ, String, Option, List, Bool}
use lineageiq.Taxonomy.{RootCauseCode, Severity}
use lineageiq.Database.{Payload}

pub record ToolInvocation : Type 0 where
  pub tool_name : String
  pub args : Payload
  pub reason : String

pub record AgentDecision : Type 0 where
  pub finalize : Bool
  pub invocation : Option ToolInvocation

pub record CollectedEvidence : Type 0 where
  pub evidence_id : String
  pub tool_name : String
  pub summary : String
  pub payload : Payload
  pub evidence_type : String

pub record InvestigationContext : Type 0 where
  pub incident_id : String
  pub title : String
  pub severity : Severity
  pub suspected_root_cause : RootCauseCode
  pub primary_system : String
  pub focus_node : Option String
  pub alert_meta : Payload
  pub initial_evidence_ids : List String
  pub collected : List CollectedEvidence
  pub max_tool_calls : ℕ

pub record RootCauseCandidate : Type 0 where
  pub rank : ℕ
  pub root_cause_code : String
  pub title : String
  pub explanation : String
  pub confidence : ℕ
  pub supporting_evidence_ids : List String
  pub contradictory_evidence_ids : List String
  pub affected_systems : List String

pub record RecommendedCheck : Type 0 where
  pub priority : ℕ
  pub action : String
  pub reason : String
  pub expected_signal : String
  pub requires_human : Bool

pub record RemediationRecommendation : Type 0 where
  pub action : String
  pub target_system : String
  pub risk : String
  pub requires_approval : Bool

pub record InvestigationReport : Type 0 where
  pub incident_id : String
  pub summary : String
  pub observations : List String
  pub root_cause_candidates : List RootCauseCandidate
  pub impacted_systems : List String
  pub impacted_reports : List String
  pub confidence : ℕ
  pub evidence_ids : List String
  pub recommended_checks : List RecommendedCheck
  pub remediation_recommendations : List RemediationRecommendation
  pub requires_human_review : Bool
  pub human_review_reason : Option String
  pub unsupported_claims : List String

-- ===== src/Agent/Samples.antt =====
-- A small incident with its alert, and two tools, for the tests of backend/app/agent.
use lineageiq.Common.{String, List, [], ◌∷◌, none, some, show, abs, All}
use lineageiq.Effects.{ok, raised}
use lineageiq.Database.{Session, Incident, Evidence, Payload, text}
use lineageiq.Environment.{Env}
use lineageiq.Tools.{Tool, ToolRegistry, tool_result}
use lineageiq.Tools.Contract.{IsReadOnly, tool_result-Adds}
use lineageiq.Taxonomy.{RootCauseCode, Severity}
use lineageiq.Agent.Types.{InvestigationContext, InvestigationReport, ToolInvocation}
use lineageiq.Agent.Validation.{ValidationResult}
use lineageiq.Agent.Knowledge.{build_playbook}
use lineageiq.Agent.Llm.{LlmSettings, no_usage, report_of}
use lineageiq.Agent.Context.{context_of}
use lineageiq.Agent.Orchestrator.{AgentBudget, Run}

abbrev pub small_env : Env
small_env = record {
  uuid_hex = λ n. show n;
  clock = λ n. n;
  fixed2 = λ n. show n;
  money_text = λ d. show (abs d);
  int_of = λ s. none;
  datetime_of = λ s. none;
  hours_text = λ d. show (abs d);
  time_text = λ n. show n;
  compact_date = λ n. show n;
  isoformat = λ n. show n;
  fromisoformat = λ s. none;
}

abbrev pub small_settings : LlmSettings
small_settings = record {
  llm_provider = "fake";
  llm_model = "fake-deterministic";
  llm_input_cost_per_1k = 0;
  llm_output_cost_per_1k = 0;
}

abbrev pub small_budget : AgentBudget
small_budget = record { max_tool_calls = 8; max_duration_seconds = 120 }

abbrev tool_named : String → String → Tool
tool_named name evidence_type = record {
  name = name;
  description = "";
  evidence_type = evidence_type;
  run = λ ctx args. tool_result small_env name evidence_type ctx "found" [];
}

tool_named-IsReadOnly : (name evidence_type : String) → IsReadOnly (tool_named name evidence_type)
tool_named-IsReadOnly name evidence_type = record {
  at = λ ctx args w. tool_result-Adds small_env name evidence_type ctx "found" [] w;
}

-- The plan also names tools that are not in this registry.
abbrev pub two_tools : ToolRegistry
two_tools = tool_named "run_readonly_sql" "sql" ∷ tool_named "query_lineage" "lineage" ∷ []

pub two_tools-IsReadOnly : All IsReadOnly two_tools
two_tools-IsReadOnly = (
  tool_named-IsReadOnly "run_readonly_sql" "sql",
  (tool_named-IsReadOnly "query_lineage" "lineage", tt),
)

abbrev pub partial_incident : Incident
partial_incident = record {
  incident_id = "INC-1";
  title = "Partial load";
  detected_at = 5;
  status = "open";
  severity = "high";
  source_alert_id = none;
  primary_affected_system = some "orders";
  assigned_to = none;
  created_at = 5;
  resolved_at = none;
}

abbrev pub partial_alert : Evidence
partial_alert = record {
  evidence_id = "EV-alert";
  incident_id = "INC-1";
  evidence_type = "alert";
  source = "detector";
  summary = "few orders";
  raw_reference = none;
  collected_at = 5;
  reliability_score = 10_000;
  structured_payload = some (("suspected_root_cause", text "PARTIAL_LOAD") ∷ []);
}

abbrev pub small_session : Session
small_session = record {
  crm_customers = [];
  customers = [];
  customer_limits = [];
  orders = [];
  payments = [];
  refunds = [];
  fx_rates = [];
  shipments = [];
  daily_revenue_report = [];
  pipeline_definitions = [];
  pipeline_runs = [];
  system_logs = [];
  incidents = partial_incident ∷ [];
  alerts = [];
  evidence = partial_alert ∷ [];
  agent_runs = [];
  incident_ground_truth = [];
  historical_incidents = [];
  staging_records = [];
  schema_events = [];
}

abbrev pub small_run : Run
small_run = record {
  world = record { session = small_session; uuids = 0; readings = 0 };
  usage = no_usage;
}

abbrev pub no_dump : InvestigationReport → ValidationResult → Payload
no_dump report validation = []

abbrev pub partial_context : InvestigationContext
partial_context =
    context_of small_session partial_incident 8 "PARTIAL_LOAD" RootCauseCode.partial_load
      Severity.high

abbrev pub partial_plan : List ToolInvocation
partial_plan = elim (build_playbook small_env RootCauseCode.partial_load [] (some "orders")) [
  | raised e ↦ []
  | ok plan ↦ plan
]

-- The report of the deterministic client before any tool was called.
abbrev pub first_report : InvestigationReport
first_report = report_of small_env partial_context

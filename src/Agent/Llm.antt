-- ===== src/Agent/Llm.antt =====
-- backend/app/agent/llm.py: the client interface, the deterministic client, and the choice of one.
-- `_post`, the request to a real provider, is called by nothing and is not modelled.
use lineageiq.Common.{
  ℕ, suc, zero, ◌+◌, ◌*◌, String, true, false, Option, none, some, List, [], ◌∷◌, ◌++◌, map, concat,
  show, distinct, sort_texts, length, take, get_elem?, leb, str_eq, ◌||◌, if◌then◌else◌,
}
use lineageiq.Effects.{Exec, Result, ok, raised, pure, lift, modify, ◌>>◌}
use lineageiq.Taxonomy.{RootCauseCode, root_cause_value}
use lineageiq.Database.{Value, null, boolean, int, text, texts, json, payload_get}
use lineageiq.Environment.{Env}
use lineageiq.Agent.Types.{
  AgentDecision, CollectedEvidence, InvestigationContext, InvestigationReport, RootCauseCandidate,
  RecommendedCheck, RemediationRecommendation, ToolInvocation,
}
use lineageiq.Agent.Knowledge.{Remediation, remediation_for, build_playbook}

abbrev pub evidence_title : RootCauseCode → String
evidence_title RootCauseCode.stale_fx_rate = "Stale foreign-exchange rate"
evidence_title RootCauseCode.duplicate_transaction = "Duplicate transaction"
evidence_title RootCauseCode.missing_customer_mapping = "Missing customer mapping"
evidence_title RootCauseCode.schema_contract_change = "Schema-contract change"
evidence_title RootCauseCode.delayed_pipeline = "Delayed pipeline"
evidence_title RootCauseCode.timezone_conversion_error = "Timezone conversion error"
evidence_title RootCauseCode.null_contamination = "Null contamination"
evidence_title RootCauseCode.partial_load = "Partial load"
evidence_title RootCauseCode.incorrect_aggregation = "Incorrect aggregation"
evidence_title RootCauseCode.upstream_api_failure = "Upstream API failure"
evidence_title RootCauseCode.unknown = "Undetermined"

-- The cost is a number of billionths: prices per 1000 tokens are numbers of millionths.
pub record Usage : Type 0 where
  pub prompt_tokens : ℕ
  pub completion_tokens : ℕ
  pub cost : ℕ

abbrev pub no_usage : Usage
no_usage = record { prompt_tokens = 0; completion_tokens = 0; cost = 0 }

abbrev pub add_usage : ℕ → ℕ → ℕ → ℕ → Usage → Usage
add_usage prompt completion in_cost out_cost u = record {
  prompt_tokens = u.prompt_tokens + prompt;
  completion_tokens = u.completion_tokens + completion;
  cost = u.cost + (prompt * in_cost + completion * out_cost);
}

-- What the orchestrator sees of a client: its methods read and write `self.usage`.
pub record LlmClient : Type 0 where
  pub model_name : String
  pub decide : InvestigationContext → Exec Usage AgentDecision
  pub synthesize : InvestigationContext → Exec Usage InvestigationReport

unfoldable pub confidence_for : ℕ → ℕ
confidence_for zero = 3000
confidence_for (suc zero) = 5000
confidence_for (suc (suc zero)) = 7200
confidence_for (suc (suc (suc n))) = 8600

abbrev pub stop : AgentDecision
stop = record { finalize = true; invocation = none }

abbrev pub call : ToolInvocation → AgentDecision
call inv = record { finalize = false; invocation = some inv }

-- The body of `decide`, on the plan: `remaining_tool_calls <= 0` is `max_tool_calls <= idx`.
unfoldable pub next_step : InvestigationContext → List ToolInvocation → AgentDecision
next_step ctx plan =
    let idx = length ctx.collected in
    if leb (length plan) idx || leb ctx.max_tool_calls idx
    then stop
    else elim (get_elem? plan idx) [ none ↦ stop | some inv ↦ call inv ]

unfoldable pub follow_playbook : Env → InvestigationContext → Result AgentDecision
unfolding next_step
follow_playbook env ctx =
    elim (build_playbook env ctx.suspected_root_cause ctx.alert_meta ctx.focus_node) [
      | raised e ↦ raised e
      | ok plan ↦ ok (next_step ctx plan)
    ]

-- `c.payload.get("affected_assets", [])`: only lists of texts are stored under this key.
abbrev asset_list : Option Value → List String
asset_list none = []
asset_list (some (texts assets)) = assets
asset_list (some null) = []
asset_list (some (boolean b)) = []
asset_list (some (int n)) = []
asset_list (some (text s)) = []
asset_list (some (json s)) = []

abbrev pub affected_assets : List CollectedEvidence → List String
affected_assets [] = []
affected_assets (c ∷ cs) =
    if str_eq c.evidence_type "lineage"
    then asset_list (payload_get "affected_assets" c.payload) ++ affected_assets cs
    else affected_assets cs

-- `{c.evidence_type for c in context.collected}`
abbrev pub collected_types : List CollectedEvidence → List String
collected_types cs = distinct (map (λ c. c.evidence_type) cs)

abbrev pub cited_ids : InvestigationContext → List String
cited_ids ctx = ctx.initial_evidence_ids ++ map (λ c. c.evidence_id) ctx.collected

abbrev candidate_of : InvestigationContext → RootCauseCandidate
candidate_of ctx =
    let cause = ctx.suspected_root_cause in
    record {
      rank = 1;
      root_cause_code = root_cause_value cause;
      title = evidence_title cause;
      explanation = concat (
          "Deterministic controls and gathered evidence point to "
          ∷ root_cause_value cause
          ∷ ". "
          ∷ show (length ctx.collected)
          ∷ " read-only tool call(s) corroborate the diagnosis."
          ∷ []);
      confidence = confidence_for (length (collected_types ctx.collected));
      supporting_evidence_ids = cited_ids ctx;
      contradictory_evidence_ids = [];
      affected_systems = sort_texts (distinct (ctx.primary_system ∷ affected_assets ctx.collected));
    }

abbrev recommendation_of : Remediation → RemediationRecommendation
recommendation_of r = record {
  action = r.action;
  target_system = r.target_system;
  risk = r.risk;
  requires_approval = true;
}

abbrev checks_for : RootCauseCode → String → List RecommendedCheck
checks_for cause risk =
    record {
      priority = 1;
      action = concat ("Confirm " ∷ root_cause_value cause ∷ " scope before remediation" ∷ []);
      reason = "Bound the blast radius using the cited evidence";
      expected_signal = "Affected rows/reports match the evidence";
      requires_human = str_eq risk "high";
    }
    ∷ record {
      priority = 2;
      action = "Verify downstream dashboards after any fix";
      reason = "Ensure impacted reports reconcile post-remediation";
      expected_signal = "daily_revenue_report reconciles to source";
      requires_human = false;
    }
    ∷ []

unfoldable pub report_of : Env → InvestigationContext → InvestigationReport
unfolding confidence_for
report_of env ctx =
    let cause = ctx.suspected_root_cause in
    let distinct_types = length (collected_types ctx.collected) in
    let confidence = confidence_for distinct_types in
    let remediation = remediation_for cause in
    record {
      incident_id = ctx.incident_id;
      summary = concat (
          "Investigation of '"
          ∷ ctx.title
          ∷ "': leading root cause "
          ∷ root_cause_value cause
          ∷ " (confidence "
          ∷ env.fixed2 confidence
          ∷ ") supported by "
          ∷ show distinct_types
          ∷ " evidence type(s)."
          ∷ []);
      observations = map (λ c. c.summary) (take 6 ctx.collected);
      root_cause_candidates = candidate_of ctx ∷ [];
      impacted_systems = sort_texts (distinct (ctx.primary_system ∷ affected_assets ctx.collected));
      impacted_reports = sort_texts (distinct (affected_assets ctx.collected));
      confidence = confidence;
      evidence_ids = cited_ids ctx;
      recommended_checks = checks_for cause remediation.risk;
      remediation_recommendations = recommendation_of remediation ∷ [];
      requires_human_review = false;
      human_review_reason = none;
      unsupported_claims = [];
    }

-- The settings that `get_llm` reads.
pub record LlmSettings : Type 0 where
  pub llm_provider : String
  pub llm_model : String
  pub llm_input_cost_per_1k : ℕ
  pub llm_output_cost_per_1k : ℕ

unfoldable pub fake_llm : Env → LlmSettings → LlmClient
unfolding follow_playbook report_of
fake_llm env settings = record {
  model_name = settings.llm_model;
  decide = λ ctx. do
    modify (add_usage 60 25 settings.llm_input_cost_per_1k settings.llm_output_cost_per_1k)
    lift (follow_playbook env ctx);
  synthesize = λ ctx. do
    modify (add_usage 220 320 settings.llm_input_cost_per_1k settings.llm_output_cost_per_1k)
    pure (report_of env ctx);
}

-- Its `synthesize` is that of a new `FakeLLM`, whose usage is dropped.
unfoldable pub openai_compatible_llm : Env → LlmSettings → LlmClient
unfolding follow_playbook report_of
openai_compatible_llm env settings = record {
  model_name = settings.llm_model;
  decide = λ ctx. lift (follow_playbook env ctx);
  synthesize = λ ctx. pure (report_of env ctx);
}

unfoldable pub get_llm : Env → LlmSettings → LlmClient
unfolding fake_llm openai_compatible_llm
get_llm env settings =
    if str_eq settings.llm_provider "fake"
    then fake_llm env settings
    else openai_compatible_llm env settings

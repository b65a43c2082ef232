-- ===== src/Agent/Orchestrator.antt =====
-- backend/app/agent/orchestrator.py: the bounded investigation loop and what it concludes.
-- Logging and tracing spans are left out. `dump` is the stored JSON of a report and its validation.
pub mod Loop
pub mod Trace
mod Grounded
pub mod Calls
pub mod Plan
mod Records
pub mod Outcome
pub mod Returns
pub mod Review
pub mod Tests
use lineageiq.Common.{
  ℕ, zero, suc, ◌+◌, ◌*◌, String, Bool, true, false, not, Option, none, some, List, [], ◌∷◌, ◌++◌,
  map, keep, any, concat, take_text, length, distinct, leb, ltb, str_eq, if◌then◌else◌,
}
use lineageiq.Effects.{
  Error, error_text, key_error, Result, ok, raised, Exec, pure, raise, lift, gets, modify, and_then,
  ◌>>=◌, ◌>>◌,
}
use lineageiq.Database.{Session, Incident, AgentRun, Payload}
use lineageiq.Environment.{Env, World, now, fresh_id}
use lineageiq.Tools.{ToolContext, ToolResult, ToolRegistry, get_tool}
use lineageiq.Agent.Types.{
  AgentDecision, ToolInvocation, CollectedEvidence, InvestigationContext, InvestigationReport,
}
use lineageiq.Agent.Llm.{LlmClient, Usage}
use lineageiq.Agent.Validation.{ValidationResult, validate_report}
use lineageiq.Agent.Policy.{evaluate_human_review}
use lineageiq.Agent.Context.{build_context}

pub record AgentBudget : Type 0 where
  pub max_tool_calls : ℕ
  pub max_duration_seconds : ℕ

-- What an investigation changes: the world, and the usage of its client.
pub record Run : Type 0 where
  pub world : World
  pub usage : Usage

abbrev pub on_world : {A : Type 0} → Exec World A → Exec Run A
on_world m run = ((m run.world).0, record run { world = (m run.world).1 })

abbrev pub on_usage : {A : Type 0} → Exec Usage A → Exec Run A
on_usage m run = ((m run.usage).0, record run { usage = (m run.usage).1 })

-- How the loop ended.
pub record LoopEnd : Type 0 where
  pub context : InvestigationContext
  pub budget_exhausted : Bool

-- What is collected of a call: the tool's result, or a record of the exception.
unfoldable pub collected_of : ToolInvocation → Result ToolResult → CollectedEvidence
collected_of inv (ok result) = record {
  evidence_id = result.evidence_id;
  tool_name = result.tool_name;
  summary = result.summary;
  payload = result.payload;
  evidence_type = result.evidence_type;
}
collected_of inv (raised e) = record {
  evidence_id = "";
  tool_name = inv.tool_name;
  summary = concat ("Tool " ∷ inv.tool_name ∷ " failed: " ∷ error_text e ∷ []);
  payload = [];
  evidence_type = "error";
}

unfoldable pub invoke : ToolRegistry → String → ToolInvocation → Exec World ToolResult
invoke registry incident_id inv = do
  tool ← get_tool inv.tool_name registry
  tool.run (record { incident_id = incident_id }) inv.args

-- `context.collected.append(c)`
abbrev pub collect : CollectedEvidence → InvestigationContext → InvestigationContext
collect c ctx = record ctx { collected = ctx.collected ++ c ∷ [] }

module _ (env : Env) (llm : LlmClient) (registry : ToolRegistry) (budget : AgentBudget)
    (started : ℕ) where
  -- The end of the loop's body: `rest` is the next iteration.
  pub act :
      (InvestigationContext → Exec Run (Option LoopEnd))
      → InvestigationContext
      → AgentDecision
      → Exec Run (Option LoopEnd)
  act rest ctx decision run =
      if decision.finalize
      then (ok (some (record { context = ctx; budget_exhausted = false })), run)
      else elim decision.invocation [
        | none ↦ (ok (some (record { context = ctx; budget_exhausted = false })), run)
        | some inv ↦
            let called = invoke registry ctx.incident_id inv run.world in
            rest (collect (collected_of inv called.0) ctx) (record run { world = called.1 })
      ]

  -- The body of the `while True` loop.
  pub iterate :
      (InvestigationContext → Exec Run (Option LoopEnd))
      → InvestigationContext
      → Exec Run (Option LoopEnd)
  iterate rest ctx run =
      if leb budget.max_tool_calls (length ctx.collected)
      then (ok (some (record { context = ctx; budget_exhausted = true })), run)
      else let read = on_world (now env) run in
        if ltb (started + budget.max_duration_seconds * 1_000_000) (env.clock run.world.readings)
        then (ok (some (record { context = ctx; budget_exhausted = true })), read.1)
        else let decided = on_usage (llm.decide ctx) read.1 in
          and_then decided.0 (act rest ctx) decided.1

  -- The loop, with fuel; `none` means that the fuel ran out.
  pub gather : ℕ → InvestigationContext → Exec Run (Option LoopEnd)
  gather zero ctx run = (ok none, run)
  gather (suc fuel) ctx run = iterate (gather fuel) ctx run

-- The distinct evidence types, errors apart.
abbrev pub source_count : List CollectedEvidence → ℕ
source_count collected = length (
    distinct
      (map (λ c. c.evidence_type) (keep (λ c. not (str_eq c.evidence_type "error")) collected)))

-- `f"{reason}; {val_reason}" if reason else val_reason`
abbrev with_reason : Option String → String → String
with_reason none added = added
with_reason (some reason) added =
    if str_eq reason "" then added else concat (reason ∷ "; " ∷ added ∷ [])

-- The report with its validation and its review decision.
unfoldable pub review_report :
    Env
    → Session
    → InvestigationContext
    → Bool
    → InvestigationReport
    → InvestigationReport × ValidationResult
review_report env s ctx budget_exhausted report =
    let validation = validate_report env s report in
    let report = record report { unsupported_claims = validation.unsupported_claims } in
    let review =
      evaluate_human_review env report (source_count ctx.collected) ctx.severity budget_exhausted
        false false in
    let final : Bool × Option String =
      if validation.passed
      then review
      else (true, some (with_reason review.1 "failed evidence validation")) in
    (record report { requires_human_review = final.0; human_review_reason = final.1 }, validation)

-- The assignments to the stored `AgentRun`.
abbrev complete_run : String → ℕ → ℕ → Usage → Payload → List AgentRun → List AgentRun
complete_run run_id completed_at calls usage output [] = []
complete_run run_id completed_at calls usage output (r ∷ rs) =
    (if str_eq r.agent_run_id run_id
      then record r {
        completed_at = some completed_at;
        status = "completed";
        tool_call_count = calls;
        prompt_tokens = usage.prompt_tokens;
        completion_tokens = usage.completion_tokens;
        estimated_cost = usage.cost;
        output = some output;
      }
      else r)
    ∷ complete_run run_id completed_at calls usage output rs

abbrev pub with_runs : (List AgentRun → List AgentRun) → Run → Run
with_runs f run = record run {
  world = record run.world {
    session = record run.world.session { agent_runs = f run.world.session.agent_runs };
  };
}

-- What follows the loop.
unfoldable pub conclude :
    Env
    → (InvestigationReport → ValidationResult → Payload)
    → LlmClient
    → String
    → Option LoopEnd
    → Exec Run (Option InvestigationReport)
unfolding review_report
conclude env dump llm run_id none = pure none
conclude env dump llm run_id (some end) = do
  report ← on_usage (llm.synthesize end.context)
  session ← gets (λ run. run.world.session)
  let reviewed = review_report env session end.context end.budget_exhausted report
  completed_at ← on_world (now env)
  usage ← gets (λ run. run.usage)
  modify (
      with_runs (
        complete_run run_id completed_at
          (length (keep (λ c. not (str_eq c.evidence_type "error")) end.context.collected)) usage
          (dump reviewed.0 reviewed.1)))
  pure (some reviewed.0)

unfoldable pub find_incident : String → List Incident → Option Incident
find_incident incident_id [] = none
find_incident incident_id (i ∷ is) =
    if str_eq i.incident_id incident_id then some i else find_incident incident_id is

abbrev pub running : String → String → String → ℕ → String → AgentRun
running run_id incident_id trace_id started model_name = record {
  agent_run_id = run_id;
  incident_id = incident_id;
  started_at = started;
  completed_at = none;
  status = "running";
  model_name = model_name;
  tool_call_count = 0;
  prompt_tokens = 0;
  completion_tokens = 0;
  estimated_cost = 0;
  trace_id = some trace_id;
  output = none;
  failure_reason = none;
}

-- `uuid.uuid4().hex`
abbrev draw_hex : Env → Exec World String
draw_hex env w = (ok (env.uuid_hex w.uuids), record w { uuids = suc w.uuids })

-- What follows the creation of the run: the context, the loop, and the conclusion.
unfoldable pub carry_out :
    Env
    → (InvestigationReport → ValidationResult → Payload)
    → LlmClient
    → AgentBudget
    → ToolRegistry
    → Incident
    → String
    → ℕ
    → Exec Run (Option InvestigationReport)
unfolding act iterate gather conclude
carry_out env dump llm budget registry incident run_id started = do
  session ← gets (λ run. run.world.session)
  context ← lift (build_context session incident budget.max_tool_calls)
  end ← gather env llm registry budget started (suc budget.max_tool_calls) context
  conclude env dump llm run_id end

-- The creation of the run's row: the run's id, and when it started.
unfoldable pub begin_run : Env → LlmClient → String → Exec Run (String × ℕ)
begin_run env llm incident_id = do
  run_id ← on_world (fresh_id env "RUN" 10)
  trace_id ← on_world (draw_hex env)
  started ← on_world (now env)
  modify
      (with_runs (λ runs. runs ++ running run_id incident_id trace_id started llm.model_name ∷ []))
  pure (run_id, started)

-- What follows the lookup of the incident.
unfoldable pub investigate_found :
    Env
    → (InvestigationReport → ValidationResult → Payload)
    → LlmClient
    → AgentBudget
    → ToolRegistry
    → String
    → Option Incident
    → Exec Run (Option InvestigationReport)
unfolding begin_run carry_out
investigate_found env dump llm budget registry incident_id none =
    raise (key_error (concat ("Incident not found: " ∷ incident_id ∷ [])))
investigate_found env dump llm budget registry incident_id (some incident) = do
  begun ← begin_run env llm incident_id
  carry_out env dump llm budget registry incident begun.0 begun.1

unfoldable pub investigate_incident :
    Env
    → (InvestigationReport → ValidationResult → Payload)
    → LlmClient
    → AgentBudget
    → ToolRegistry
    → String
    → Exec Run (Option InvestigationReport)
unfolding find_incident investigate_found
investigate_incident env dump llm budget registry incident_id = do
  session ← gets (λ run. run.world.session)
  investigate_found env dump llm budget registry incident_id
      (find_incident incident_id session.incidents)

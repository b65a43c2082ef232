-- ===== src/Agent/Orchestrator/Returns.antt =====
-- `investigate_incident` of backend/app/agent/orchestrator.py returns a report.
use lineageiq.Common.{
  ℕ, suc, ◌+◌, ◌*◌, String, Option, some, List, [], ◌≡◌, refl, sym, ap, ◌∙◌, subst,
}
use lineageiq.Effects.{Result, ok, raised, Exec, and_then}
use lineageiq.Database.{Incident, Payload}
use lineageiq.Environment.{Env, World}
use lineageiq.Tools.{ToolRegistry}
use lineageiq.Agent.Types.{InvestigationContext, InvestigationReport, ToolInvocation}
use lineageiq.Agent.Validation.{ValidationResult}
use lineageiq.Agent.Knowledge.{build_playbook}
use lineageiq.Agent.Llm.{LlmSettings, LlmClient, fake_llm, report_of, cited_ids}
use lineageiq.Agent.Context.{build_context, context_of}
use lineageiq.Agent.Context.Leading.{build_context-context_of}
use lineageiq.Agent.Orchestrator.{
  AgentBudget, Run, LoopEnd, gather, conclude, find_incident, investigate_incident,
  investigate_found, begin_run, carry_out, review_report,
}
use lineageiq.Agent.Orchestrator.Plan.{IsPlanned, gather-IsPlanned}

and_then-ok :
    {S A B : Type 0} (r : Result A) (a : A) (f : A → Exec S B) (s : S)
    → r ≡ ok a
    → and_then r f s ≡ f a s
and_then-ok (ok b) a f s h = let p : b ≡ a = cc in ap (λ a. f a s) p
and_then-ok (raised e) a f s h = cc

-- The outcome of an investigation whose loop began in the world `start` with the context `first`: a
-- loop that made calls of the plan as `IsPlanned` says, and the reviewed report of the deterministic
-- client on the context and the session that this loop left. It cites what the loop collected, and
-- the evidence that is stored in the end is what the loop left.
pub record IsPlannedReport (env : Env) (registry : ToolRegistry) (first : InvestigationContext)
    (plan : List ToolInvocation) (most deadline : ℕ) (start : World)
    (r : Result (Option InvestigationReport) × Run) : Type 0 where
  pub end : LoopEnd
  pub left : World
  pub planned : IsPlanned env registry first plan most deadline start end left
  pub report : InvestigationReport
  pub returned : r.0 ≡ ok (some report)
  pub reviewed :
      report
      ≡ (review_report env left.session end.context end.budget_exhausted
          (report_of env end.context)).0
  pub cites : report.evidence_ids ≡ cited_ids end.context
  pub stored : r.1.world.session.evidence ≡ left.session.evidence

module _ (env : Env) (dump : InvestigationReport → ValidationResult → Payload)
    (settings : LlmSettings) (budget : AgentBudget) (registry : ToolRegistry) where
  -- The deadline of an investigation that started at the time.
  abbrev deadline : ℕ → ℕ
  deadline started = started + budget.max_duration_seconds * 1_000_000

  client : LlmClient
  client = fake_llm env settings

  fresh_context :
      (incident : Incident) (ctx : InvestigationContext) (run : Run)
      → build_context run.world.session incident budget.max_tool_calls ≡ ok ctx
      → (ctx.collected ≡ []) × (ctx.max_tool_calls ≡ budget.max_tool_calls)
  unfolding context_of
  fresh_context incident ctx run h =
      let (leading, cause, severity, c) =
        build_context-context_of run.world.session incident budget.max_tool_calls ctx h in
      (
        ap (λ (c : InvestigationContext). c.collected) c,
        ap (λ (c : InvestigationContext). c.max_tool_calls) c,
      )

  -- What follows the loop, as an outcome.
  concluded :
      (first : InvestigationContext) (plan : List ToolInvocation) (started : ℕ) (start : World)
      (run_id : String) (end : LoopEnd) (left : Run)
      → IsPlanned env registry first plan budget.max_tool_calls
          (deadline started)
          start
          end
          left.world
      → IsPlannedReport env registry first plan budget.max_tool_calls
          (deadline started)
          start
          (conclude env dump client run_id (some end) left)
  unfolding client conclude fake_llm report_of review_report
  concluded first plan started start run_id end left planned = record {
    end = end;
    left = left.world;
    planned = planned;
    report =
        (review_report env left.world.session end.context end.budget_exhausted
          (report_of env end.context)).0;
    returned = refl;
    reviewed = refl;
    cites = refl;
    stored = refl;
  }

  carried_out :
      (incident : Incident) (run_id : String) (started : ℕ) (ctx : InvestigationContext)
      (plan : List ToolInvocation) (run : Run)
      → build_context run.world.session incident budget.max_tool_calls ≡ ok ctx
      → build_playbook env ctx.suspected_root_cause ctx.alert_meta ctx.focus_node ≡ ok plan
      → IsPlannedReport env registry ctx plan budget.max_tool_calls
          (deadline started)
          run.world
          (carry_out env dump client budget registry incident run_id started run)
  unfolding carry_out client
  carried_out incident run_id started ctx plan run built planned =
      let fresh = fresh_context incident ctx run built in
      let (end, left, ended, followed) =
        gather-IsPlanned env settings registry budget started ctx plan run planned fresh.0
          fresh.1 in
      let after : Result (Option LoopEnd) × Run → Result (Option InvestigationReport) × Run =
        λ g. and_then g.0 (conclude env dump (fake_llm env settings) run_id) g.1 in
      let outcome =
        and_then-ok (build_context run.world.session incident budget.max_tool_calls) ctx
          (λ ctx run. after (
            gather env (fake_llm env settings) registry budget started (suc budget.max_tool_calls)
              ctx run))
          run built
        ∙ ap after ended in
      subst
        (λ r.
          IsPlannedReport env registry ctx plan budget.max_tool_calls (deadline started) run.world
            r)
        (sym outcome) (concluded ctx plan started run.world run_id end left followed)

  -- The context does not depend on the agent's runs.
  same_context :
      (incident_id : String) (incident : Incident) (most : ℕ) (run : Run)
      → build_context (begin_run env client incident_id run).1.world.session incident most
        ≡ build_context run.world.session incident most
  unfolding begin_run build_context context_of
  same_context incident_id incident most run = refl

  found_returns :
      (incident_id : String) (incident : Incident) (ctx : InvestigationContext)
      (plan : List ToolInvocation) (run : Run)
      → build_context run.world.session incident budget.max_tool_calls ≡ ok ctx
      → build_playbook env ctx.suspected_root_cause ctx.alert_meta ctx.focus_node ≡ ok plan
      → IsPlannedReport env registry ctx plan budget.max_tool_calls
          (deadline (env.clock run.world.readings))
          (begin_run env client incident_id run).1.world
          (investigate_found env dump client budget registry incident_id (some incident) run)
  unfolding investigate_found begin_run
  found_returns incident_id incident ctx plan run built planned =
      carried_out incident _ _ ctx plan (begin_run env client incident_id run).1
        (same_context incident_id incident budget.max_tool_calls run ∙ built) planned

  -- For a stored incident whose context is built and whose root cause has a plan, with the
  -- deterministic client and any registry, the investigation returns a report. Its loop begins where
  -- the run's row is stored; it made the first calls of the plan with their arguments, at most as
  -- many as the budget allows and each in time, and all of them unless the budget is marked as
  -- exhausted, which it only is when calls or time are used up. The report is the client's on what
  -- that loop collected, which it cites, as reviewed in the session that the loop left, whose
  -- evidence is the evidence stored in the end.
  pub investigate_incident-IsPlannedReport :
      (incident_id : String) (incident : Incident) (ctx : InvestigationContext)
      (plan : List ToolInvocation) (run : Run)
      → find_incident incident_id run.world.session.incidents ≡ some incident
      → build_context run.world.session incident budget.max_tool_calls ≡ ok ctx
      → build_playbook env ctx.suspected_root_cause ctx.alert_meta ctx.focus_node ≡ ok plan
      → IsPlannedReport env registry ctx plan budget.max_tool_calls
          (env.clock run.world.readings + budget.max_duration_seconds * 1_000_000)
          (begin_run env (fake_llm env settings) incident_id run).1.world
          (investigate_incident env dump (fake_llm env settings) budget registry incident_id run)
  unfolding investigate_incident client
  investigate_incident-IsPlannedReport incident_id incident ctx plan run found built planned =
      subst
        (λ o.
          IsPlannedReport env registry ctx plan budget.max_tool_calls
            (deadline (env.clock run.world.readings)) (begin_run env client incident_id run).1.world
            (investigate_found env dump client budget registry incident_id o run))
        (sym found) (found_returns incident_id incident ctx plan run built planned)

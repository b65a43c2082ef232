-- ===== src/Agent/Orchestrator/Outcome.antt =====
-- What `investigate_incident` of backend/app/agent/orchestrator.py does as a whole, with the
-- deterministic client and read-only tools.
use lineageiq.Common.{
  ℕ, suc, String, Option, none, some, List, [], map, All, length, ◌≡◌, refl, sym, ap, ◌∙◌, subst,
  arith, All-mono,
}
use mathlib.Core.List.{append-nil}
use lineageiq.Effects.{Error, Result, ok, raised, and_then}
use lineageiq.Database.{Session, Evidence, AgentRun, Incident, Payload}
use lineageiq.Environment.{Env, World}
use lineageiq.Tools.{ToolRegistry}
use lineageiq.Tools.Contract.{IsReadOnly}
use lineageiq.Agent.Types.{InvestigationContext, InvestigationReport}
use lineageiq.Agent.Validation.{ValidationResult}
use lineageiq.Agent.Validation.Grounding.{IsStored, IsGrounded}
use lineageiq.Agent.Llm.{LlmSettings, fake_llm, report_of}
use lineageiq.Agent.Context.{build_context, context_of}
use lineageiq.Agent.Context.Leading.{build_context-context_of}
use lineageiq.Agent.Orchestrator.{
  AgentBudget, Run, LoopEnd, gather, conclude, find_incident, investigate_incident,
  investigate_found, begin_run, review_report, carry_out,
}
use lineageiq.Agent.Orchestrator.Loop.{LoopPost, deadline_of, gather_rule}
use lineageiq.Agent.Orchestrator.Trace.{
  IsTraced, Traced, Traced-reads, Traced-calls, IsStored-append,
}
use lineageiq.Agent.Orchestrator.Grounded.{report_of-IsGrounded}
use lineageiq.Agent.Orchestrator.Records.{
  OnlyRecords, initial_stored, alerts_in, find_incident_id, OnlyRecords-refl, OnlyRecords-trans,
  begin_run-OnlyRecords,
}

-- A result is an exception or a report on the incident that is grounded in the session.
abbrev pub IsReported : String → Session → Result (Option InvestigationReport) → Type 0
IsReported incident_id s (raised e) = Unit
IsReported incident_id s (ok none) = ⊥
IsReported incident_id s (ok (some report)) =
    (report.incident_id ≡ incident_id) × IsGrounded s report

and_then_rule :
    {S A B : Type 0} (Q : Result B × S → Type 0) (r : Result A) (f : A → S → Result B × S) (s : S)
    → ((e : Error) → r ≡ raised e → Q (raised e, s))
    → ((a : A) → r ≡ ok a → Q (f a s))
    → Q (and_then r f s)
and_then_rule Q (ok a) f s on_error on_value = on_value a refl
and_then_rule Q (raised e) f s on_error on_value = on_error e refl

-- What an investigation may end with.
abbrev pub IsOutcome : String → Session → Result (Option InvestigationReport) × Run → Type 0
IsOutcome incident_id before r =
    OnlyRecords incident_id before r.1.world.session × IsReported incident_id r.1.world.session r.0

module _ (env : Env) (dump : InvestigationReport → ValidationResult → Payload)
    (settings : LlmSettings) where
  conclude-IsOutcome :
      (run_id incident_id : String) (before : Session) (end : LoopEnd) (run : Run)
      → OnlyRecords incident_id before run.world.session
      → end.context.incident_id ≡ incident_id
      → IsGrounded run.world.session (report_of env end.context)
      → IsOutcome incident_id before
          (conclude env dump (fake_llm env settings) run_id (some end) run)
  unfolding conclude fake_llm review_report report_of
  conclude-IsOutcome run_id incident_id before end run o same g = (
    record {
      added = o.added;
      mine = o.mine;
      runs = runs;
      session = ap (λ (s : Session). record s { agent_runs = runs }) o.session;
    },
    (
      same,
      record {
        cited = g.cited;
        coded = g.coded;
        supported = g.supported;
        unexecuted = g.unexecuted;
      },
    ),
  )
    where
      runs : List AgentRun
      runs =
          (conclude env dump (fake_llm env settings) run_id (some end)
            run).1.world.session.agent_runs

  module _ (budget : AgentBudget) (registry : ToolRegistry)
      (readonly : All IsReadOnly registry) where
    -- The loop's invariant: what was traced, and the alerts' ids.
    abbrev Investigates : Session → String → List String → InvestigationContext → World → Type 0
    Investigates started_in incident_id ids ctx w =
        Traced started_in incident_id ctx w × (ctx.initial_evidence_ids ≡ ids)

    ends-IsOutcome :
        (run_id incident_id : String) (before started_in : Session) (ids : List String)
        (end : LoopEnd) (run : Run)
        → OnlyRecords incident_id before started_in
        → All (IsStored started_in incident_id) ids
        → Investigates started_in incident_id ids end.context run.world
        → IsOutcome incident_id before
            (conclude env dump (fake_llm env settings) run_id (some end) run)
    ends-IsOutcome run_id incident_id before started_in ids end run o stored (t, e) =
        conclude-IsOutcome run_id incident_id before end run (OnlyRecords-trans o t) t.same (
          report_of-IsGrounded env run.world.session end.context
            (subst (λ i. All (IsStored run.world.session i) end.context.initial_evidence_ids)
              (sym t.same)
              (subst (λ ids. All (IsStored run.world.session incident_id) ids) (sym e)
                (subst (λ s. All (IsStored s incident_id) ids) (sym t.session)
                  (All-mono (IsStored started_in incident_id) ids
                    (λ i k. IsStored-append started_in incident_id i t.added k) stored))))
            (subst (λ i. All (IsTraced run.world.session i) end.context.collected) (sym t.same)
              t.collected))

    loop-IsOutcome :
        (run_id incident_id : String) (before started_in : Session) (ids : List String)
        (deadline : ℕ) (r : Result (Option LoopEnd) × Run)
        → OnlyRecords incident_id before started_in
        → All (IsStored started_in incident_id) ids
        → LoopPost env deadline
            (fake_llm env settings)
            (Investigates started_in incident_id ids)
            budget.max_tool_calls
            r.0
            r.1.world
        → IsOutcome incident_id before
            (and_then r.0 (conclude env dump (fake_llm env settings) run_id) r.1)
    loop-IsOutcome run_id incident_id before started_in ids deadline (ok (some end), run) o stored
          (i, within, stops, exhausted) =
        ends-IsOutcome run_id incident_id before started_in ids end run o stored i
    loop-IsOutcome run_id incident_id before started_in ids deadline (ok none, run) o stored post =
        absurd post
    loop-IsOutcome run_id incident_id before started_in ids deadline (raised e, run) o stored post =
        (OnlyRecords-trans o post.2.0, tt)

    begun :
        (s : Session) (incident : Incident) (most : ℕ) (ctx : InvestigationContext) (w : World)
        → build_context s incident most ≡ ok ctx
        → w.session ≡ s
        → Investigates s incident.incident_id
            (map (λ e. e.evidence_id) (alerts_in incident.incident_id s.evidence))
            ctx
            w
          × (length ctx.collected ≡ 0)
    unfolding context_of
    begun s incident most ctx w q at =
        let (leading, cause, severity, c) = build_context-context_of s incident most ctx q in
        subst
          (λ ctx.
            Investigates s incident.incident_id
              (map (λ e. e.evidence_id) (alerts_in incident.incident_id s.evidence)) ctx w
            × (length ctx.collected ≡ 0))
          (sym c)
          (
            (
              record {
                added = [];
                session =
                    at
                    ∙ ap (λ (l : List Evidence). record s { evidence = l })
                        (sym (append-nil s.evidence));
                mine = tt;
                same = refl;
                collected = tt;
              },
              refl,
            ),
            refl,
          )

    carry_out-IsOutcome :
        (incident : Incident) (run_id : String) (started : ℕ) (before : Session) (run : Run)
        → OnlyRecords incident.incident_id before run.world.session
        → IsOutcome incident.incident_id before
            (carry_out env dump (fake_llm env settings) budget registry incident run_id started run)
    unfolding carry_out
    carry_out-IsOutcome incident run_id started before run o =
        let s = run.world.session in
        let ids = map (λ e. e.evidence_id) (alerts_in incident.incident_id s.evidence) in
        and_then_rule (IsOutcome incident.incident_id before)
          (build_context s incident budget.max_tool_calls) _ run (λ e q. (o, tt))
          λ ctx q.
            let (i, n) = begun s incident budget.max_tool_calls ctx run.world q refl in
            loop-IsOutcome run_id incident.incident_id before s ids (deadline_of budget started)
              (gather env (fake_llm env settings) registry budget started
                (suc budget.max_tool_calls) ctx run)
              o (initial_stored incident.incident_id s.evidence)
              (gather_rule env (fake_llm env settings) registry budget started
                (Investigates s incident.incident_id ids)
                (λ ctx w i. (Traced-reads s incident.incident_id ctx w i.0, i.1))
                (λ ctx w inv d t i.
                  (Traced-calls registry readonly s incident.incident_id ctx w inv i.0, i.1))
                (suc budget.max_tool_calls) ctx run i (omega arith) (omega arith))

    found-IsOutcome :
        (incident_id : String) (o : Option Incident) (run : Run)
        → ((incident : Incident) → o ≡ some incident → incident.incident_id ≡ incident_id)
        → IsOutcome incident_id run.world.session
            (investigate_found env dump (fake_llm env settings) budget registry incident_id o run)
    unfolding investigate_found
    found-IsOutcome incident_id none run same = (OnlyRecords-refl incident_id run.world.session, tt)
    found-IsOutcome incident_id (some incident) run same =
        subst
          (λ i. IsOutcome i run.world.session (
            investigate_found env dump (fake_llm env settings) budget registry incident_id
              (some incident) run))
          (same incident refl)
          (and_then_rule (IsOutcome incident.incident_id run.world.session) begun.0
            (λ (started : String × ℕ).
              carry_out env dump (fake_llm env settings) budget registry incident started.0
                started.1)
            begun.1
            (λ e q. (
              (begin_run-OnlyRecords env (fake_llm env settings) incident_id incident.incident_id
                  run),
              tt,
            ))
            λ (started : String × ℕ) q.
              carry_out-IsOutcome incident started.0 started.1 run.world.session begun.1 (
                begin_run-OnlyRecords env (fake_llm env settings) incident_id incident.incident_id
                  run))
      where
        begun : Result (String × ℕ) × Run
        begun = begin_run env (fake_llm env settings) incident_id run

    -- Whatever the incident and the state, the investigation ends with an exception or a report; a
    -- report is on the incident and grounded in the session as it then is; and the only changes to
    -- the session are added evidence of the incident and the agent's runs.
    pub investigate_incident-IsOutcome :
        (incident_id : String) (run : Run)
        → IsOutcome incident_id run.world.session
            (investigate_incident env dump (fake_llm env settings) budget registry incident_id run)
    unfolding investigate_incident
    investigate_incident-IsOutcome incident_id run =
        found-IsOutcome incident_id (find_incident incident_id run.world.session.incidents) run
          (find_incident_id incident_id run.world.session.incidents)

-- ===== src/Agent/Orchestrator/Loop.antt =====
-- The rule of the investigation loop: an invariant of the context and the world that every tool
-- call and every reading of the clock keeps holds when the loop ends, and the loop ends.
use lineageiq.Common.{
  ℕ, zero, suc, ◌+◌, ◌*◌, ◌≤◌, ◌<◌, Bool, true, false, Option, none, some, [], ◌∷◌, length, leb,
  ltb, length-append, ◌≡◌, refl, arith, inl, inr, ◌⊎◌, ltb→lt, if◌then◌else◌,
}
use lineageiq.Effects.{Error, Result, ok, raised, Exec, and_then}
use lineageiq.Environment.{Env, World}
use lineageiq.Tools.{ToolRegistry}
use lineageiq.Agent.Types.{AgentDecision, ToolInvocation, CollectedEvidence, InvestigationContext}
use lineageiq.Agent.Llm.{LlmClient, Usage}
use lineageiq.Agent.Orchestrator.{
  AgentBudget, Run, LoopEnd, collected_of, invoke, collect, act, iterate, gather,
}

-- The client decided to make this call.
pub record Decides (llm : LlmClient) (ctx : InvestigationContext) (inv : ToolInvocation)
    : Type 0 where
  pub usage : Usage
  pub decision : AgentDecision
  pub decided : (llm.decide ctx usage).0 ≡ ok decision
  pub goes_on : decision.finalize ≡ false
  pub invokes : decision.invocation ≡ some inv

-- The client decided to stop.
pub record Stops (llm : LlmClient) (ctx : InvestigationContext) : Type 0 where
  pub usage : Usage
  pub decision : AgentDecision
  pub decided : (llm.decide ctx usage).0 ≡ ok decision
  pub ends : (decision.finalize ≡ true) ⊎ (decision.invocation ≡ none)

-- The client raised an exception.
pub record Fails (llm : LlmClient) (ctx : InvestigationContext) (e : Error) : Type 0 where
  pub usage : Usage
  pub decided : (llm.decide ctx usage).0 ≡ raised e

abbrev pub next_reading : World → World
next_reading w = record w { readings = suc w.readings }

abbrev pub after_call : ToolRegistry → InvestigationContext → ToolInvocation → World → World
after_call registry ctx inv w = (invoke registry ctx.incident_id inv w).1

abbrev pub with_call :
    ToolRegistry → InvestigationContext → ToolInvocation → World → InvestigationContext
with_call registry ctx inv w =
    collect (collected_of inv (invoke registry ctx.incident_id inv w).0) ctx

-- The last reading of the clock was not after the deadline; it was after the deadline.
abbrev pub InTime : Env → ℕ → World → Type 0
InTime env deadline w = (before : ℕ) × (w.readings ≡ suc before) × (env.clock before ≤ deadline)

abbrev pub IsLate : Env → ℕ → World → Type 0
IsLate env deadline w = (before : ℕ) × (w.readings ≡ suc before) × (deadline < env.clock before)

-- `started + timedelta(seconds=budget.max_duration_seconds)`
abbrev pub deadline_of : AgentBudget → ℕ → ℕ
deadline_of budget started = started + budget.max_duration_seconds * 1_000_000

-- How the loop may end: by an exception of the client; with the budget of calls or of time used up;
-- or because the client stopped, with calls left.
abbrev pub LoopPost :
    Env
    → ℕ
    → LlmClient
    → (InvestigationContext → World → Type 0)
    → ℕ
    → Result (Option LoopEnd)
    → World
    → Type 0
LoopPost env deadline llm P most (raised e) w =
    (ctx : InvestigationContext) × Fails llm ctx e × P ctx w
LoopPost env deadline llm P most (ok none) w = ⊥
LoopPost env deadline llm P most (ok (some end)) w =
    P end.context w
    × (length end.context.collected ≤ most)
    × (end.budget_exhausted ≡ false → Stops llm end.context × (length end.context.collected < most))
    × (end.budget_exhausted ≡ true → (most ≤ length end.context.collected) ⊎ IsLate env deadline w)

length-collect :
    (c : CollectedEvidence) (ctx : InvestigationContext)
    → length (collect c ctx).collected ≡ suc (length ctx.collected)
length-collect c ctx = omega (arith, length-append ctx.collected (c ∷ []))

module _ (env : Env) (llm : LlmClient) (registry : ToolRegistry) (budget : AgentBudget)
    (started : ℕ) (P : InvestigationContext → World → Type 0)
    (reads : (ctx : InvestigationContext) (w : World) → P ctx w → P ctx (next_reading w))
    (calls : (ctx : InvestigationContext) (w : World) (inv : ToolInvocation)
      → Decides llm ctx inv
      → InTime env (deadline_of budget started) w
      → P ctx w
      → P (with_call registry ctx inv w) (after_call registry ctx inv w)) where
  abbrev deadline : ℕ
  deadline = deadline_of budget started

  abbrev Good : Result (Option LoopEnd) × Run → Type 0
  Good r = LoopPost env deadline llm P budget.max_tool_calls r.0 r.1.world

  act-Good :
      (rest : InvestigationContext → Exec Run (Option LoopEnd)) (ctx : InvestigationContext)
      (decision : AgentDecision) (run : Run) (usage : Usage)
      → (llm.decide ctx usage).0 ≡ ok decision
      → InTime env deadline run.world
      → P ctx run.world
      → length ctx.collected < budget.max_tool_calls
      → ((ctx' : InvestigationContext) (run' : Run)
          → P ctx' run'.world
          → length ctx'.collected ≡ suc (length ctx.collected)
          → Good (rest ctx' run'))
      → Good (act env llm registry budget started rest ctx decision run)
  unfolding act
  act-Good rest ctx decision run usage decided timely p fits next =
      go decision.finalize decision.invocation refl refl
    where
      after : ToolInvocation → Result (Option LoopEnd) × Run
      after inv =
          rest (with_call registry ctx inv run.world)
            (record run { world = after_call registry ctx inv run.world })

      end : Result (Option LoopEnd) × Run
      end = (ok (some (record { context = ctx; budget_exhausted = false })), run)

      go :
          (f : Bool) (o : Option ToolInvocation)
          → decision.finalize ≡ f
          → decision.invocation ≡ o
          → Good (if f then end else elim o [ none ↦ end | some inv ↦ after inv ])
      go true o ef eo = (
        p,
        omega arith,
        λ _.
            (record { usage = usage; decision = decision; decided = decided; ends = inl ef }, fits),
        λ e. cc,
      )
      go false none ef eo = (
        p,
        omega arith,
        λ _.
            (record { usage = usage; decision = decision; decided = decided; ends = inr eo }, fits),
        λ e. cc,
      )
      go false (some inv) ef eo =
          next (with_call registry ctx inv run.world)
            (record run { world = after_call registry ctx inv run.world })
            (calls ctx run.world inv
              (record {
                usage = usage;
                decision = decision;
                decided = decided;
                goes_on = ef;
                invokes = eo;
              })
              timely p)
            (length-collect _ ctx)

  iterate-Good :
      (rest : InvestigationContext → Exec Run (Option LoopEnd)) (ctx : InvestigationContext)
      (run : Run)
      → P ctx run.world
      → length ctx.collected ≤ budget.max_tool_calls
      → ((ctx' : InvestigationContext) (run' : Run)
          → P ctx' run'.world
          → length ctx'.collected ≡ suc (length ctx.collected)
          → length ctx.collected < budget.max_tool_calls
          → Good (rest ctx' run'))
      → Good (iterate env llm registry budget started rest ctx run)
  unfolding iterate
  iterate-Good rest ctx run p fits next =
      budget_test (leb budget.max_tool_calls (length ctx.collected)) refl
    where
      read : Run
      read = record run { world = next_reading run.world }

      late : Bool
      late = ltb (started + budget.max_duration_seconds * 1_000_000) (env.clock run.world.readings)

      decided : Result AgentDecision × Usage
      decided = llm.decide ctx read.usage

      after : Run
      after = record read { usage = decided.1 }

      decision_good :
          (r : Result AgentDecision)
          → decided.0 ≡ r
          → late ≡ false
          → length ctx.collected < budget.max_tool_calls
          → Good (and_then r (act env llm registry budget started rest ctx) after)
      decision_good (raised e) er l less =
          (ctx, record { usage = read.usage; decided = er }, reads ctx run.world p)
      decision_good (ok decision) er l less =
          act-Good rest ctx decision after read.usage er
            (run.world.readings, refl, ground (arith, l)) (reads ctx run.world p) less
            (λ ctx' run' p' e. next ctx' run' p' e less)

      clock_test :
          (b : Bool)
          → late ≡ b
          → length ctx.collected < budget.max_tool_calls
          → Good (
              if b
              then (ok (some (record { context = ctx; budget_exhausted = true })), read)
              else and_then decided.0 (act env llm registry budget started rest ctx) after)
      clock_test true l less =
          (reads ctx run.world p, fits, λ e. cc, λ e. inr (run.world.readings, refl, ltb→lt _ _ l))
      clock_test false l less = decision_good decided.0 refl l less

      budget_test :
          (b : Bool)
          → leb budget.max_tool_calls (length ctx.collected) ≡ b
          → Good (
              if b
              then (ok (some (record { context = ctx; budget_exhausted = true })), run)
              else (if late
                  then (ok (some (record { context = ctx; budget_exhausted = true })), read)
                  else and_then decided.0 (act env llm registry budget started rest ctx) after))
      budget_test true e = (p, fits, λ e. cc, λ _. inl (ground (arith, e)))
      budget_test false e = clock_test late refl (ground arith)

  -- From a context that satisfies the invariant and fits the budget, with more fuel than calls are
  -- left, the loop does not run out of fuel, and what it ends with satisfies the invariant and fits
  -- the budget.
  pub gather_rule :
      (fuel : ℕ) (ctx : InvestigationContext) (run : Run)
      → P ctx run.world
      → length ctx.collected ≤ budget.max_tool_calls
      → budget.max_tool_calls < length ctx.collected + fuel
      → Good (gather env llm registry budget started fuel ctx run)
  unfolding gather
  gather_rule zero ctx run p fits enough = absurd (omega arith)
  gather_rule (suc fuel) ctx run p fits enough =
      iterate-Good (gather env llm registry budget started fuel) ctx run p fits
        λ ctx' run' p' e less. gather_rule fuel ctx' run' p' (omega arith) (omega arith)

-- ===== src/Agent/Orchestrator/Plan.antt =====
-- The loop with the deterministic client: it follows the plan of backend/app/agent/knowledge.py.
use lineageiq.Common.{
  ℕ, zero, suc, ◌+◌, ◌*◌, ◌≤◌, ◌<◌, true, false, Option, none, some, List, [], ◌∷◌, ◌++◌, length,
  take, get_elem?, ◌≡◌, refl, sym, ap, ◌∙◌, subst, arith, length-append, ◌⊎◌,
}
use lineageiq.Effects.{Error, Result, ok, raised}
use lineageiq.Environment.{Env, World}
use lineageiq.Tools.{ToolRegistry}
use lineageiq.Agent.Types.{AgentDecision, ToolInvocation, CollectedEvidence, InvestigationContext}
use lineageiq.Agent.Knowledge.{build_playbook}
use lineageiq.Agent.Llm.{LlmClient, LlmSettings, Usage, fake_llm, follow_playbook, next_step}
use lineageiq.Agent.Orchestrator.{AgentBudget, Run, LoopEnd, collected_of, invoke, gather}
use lineageiq.Agent.Orchestrator.Loop.{
  Decides, Stops, Fails, InTime, IsLate, LoopPost, deadline_of, with_call, after_call, gather_rule,
}
use lineageiq.Agent.Orchestrator.Calls.{Made, no_call, clock_read, invoke-Made}

take-suc :
    (n : ℕ) (plan : List ToolInvocation) (inv : ToolInvocation)
    → get_elem? plan n ≡ some inv
    → take (suc n) plan ≡ take n plan ++ inv ∷ []
take-suc n [] inv h = cc
take-suc zero (i ∷ plan) inv h = let p : i ≡ inv = cc in ap (λ i. i ∷ []) p
take-suc (suc n) (i ∷ plan) inv h = ap (λ is. i ∷ is) (take-suc n plan inv h)

take-all : (n : ℕ) (xs : List ToolInvocation) → length xs ≤ n → take n xs ≡ xs
take-all zero [] h = refl
take-all zero (x ∷ xs) h = absurd (omega arith)
take-all (suc n) [] h = refl
take-all (suc n) (x ∷ xs) h = ap (λ ys. x ∷ ys) (take-all n xs (omega arith))

next_step_calls :
    (ctx : InvestigationContext) (plan : List ToolInvocation) (inv : ToolInvocation)
    → (next_step ctx plan).invocation ≡ some inv
    → get_elem? plan (length ctx.collected) ≡ some inv
unfolding next_step
next_step_calls ctx plan inv h = ground arith

get_elem?-none : (plan : List ToolInvocation) (n : ℕ) → get_elem? plan n ≡ none → length plan ≤ n
get_elem?-none [] n h = omega arith
get_elem?-none (i ∷ plan) zero h = cc
get_elem?-none (i ∷ plan) (suc n) h = omega (arith, get_elem?-none plan n h)

next_step_stops :
    (ctx : InvestigationContext) (plan : List ToolInvocation)
    → ((next_step ctx plan).finalize ≡ true) ⊎ ((next_step ctx plan).invocation ≡ none)
    → length ctx.collected < ctx.max_tool_calls
    → length plan ≤ length ctx.collected
unfolding next_step
next_step_stops ctx plan h less = ground (arith, get_elem?-none plan (length ctx.collected))

-- The context is the first one but for what is collected, and the calls so far are the first calls
-- of the plan.
record Follows (env : Env) (registry : ToolRegistry) (deadline : ℕ) (start : World)
    (first : InvestigationContext) (plan : List ToolInvocation) (ctx : InvestigationContext)
    (w : World) : Type 0 where
  same : ctx ≡ record first { collected = ctx.collected }
  made :
      Made env registry first.incident_id deadline start
        (take (length ctx.collected) plan)
        ctx.collected
        w

module _ (env : Env) (settings : LlmSettings) (first : InvestigationContext)
    (plan : List ToolInvocation)
    (planned : build_playbook env first.suspected_root_cause first.alert_meta first.focus_node
      ≡ ok plan) where
  follow_playbook_lem :
      (ctx : InvestigationContext)
      → ctx ≡ record first { collected = ctx.collected }
      → follow_playbook env ctx ≡ ok (next_step ctx plan)
  unfolding follow_playbook
  follow_playbook_lem ctx same = step_of _ (
      ap
        (λ (c : InvestigationContext).
          build_playbook env c.suspected_root_cause c.alert_meta c.focus_node)
        same
      ∙ planned)
    where
      step_of :
          (r : Result (List ToolInvocation))
          → r ≡ ok plan
          → (elim r [ raised e ↦ raised e | ok plan ↦ ok (next_step ctx plan) ])
            ≡ ok (next_step ctx plan)
      step_of (ok p) h = let q : p ≡ plan = cc in ap (λ p. ok (next_step ctx p)) q
      step_of (raised e) h = cc

  decide_lem :
      (ctx : InvestigationContext) (usage : Usage)
      → ctx ≡ record first { collected = ctx.collected }
      → ((fake_llm env settings).decide ctx usage).0 ≡ ok (next_step ctx plan)
  unfolding fake_llm
  decide_lem ctx usage same = follow_playbook_lem ctx same

  decided_step :
      (ctx : InvestigationContext) (usage : Usage) (d : AgentDecision)
      → ctx ≡ record first { collected = ctx.collected }
      → ((fake_llm env settings).decide ctx usage).0 ≡ ok d
      → d ≡ next_step ctx plan
  decided_step ctx usage d same h = cc (decide_lem ctx usage same)

  never-Fails :
      (ctx : InvestigationContext) (e : Error)
      → ctx ≡ record first { collected = ctx.collected }
      → ¬ Fails (fake_llm env settings) ctx e
  never-Fails ctx e same f = cc (decide_lem ctx f.usage same, f.decided)

  Follows-calls :
      (registry : ToolRegistry) (deadline : ℕ) (start : World) (ctx : InvestigationContext)
      (w : World) (inv : ToolInvocation)
      → Decides (fake_llm env settings) ctx inv
      → InTime env deadline w
      → Follows env registry deadline start first plan ctx w
      → Follows env registry deadline start first plan
          (with_call registry ctx inv w)
          (after_call registry ctx inv w)
  Follows-calls registry deadline start ctx w inv d t f =
      let same_id = ap (λ (c : InvestigationContext). c.incident_id) f.same in
      record {
        same =
            ap
              (λ (c : InvestigationContext). record c {
                collected = (with_call registry ctx inv w).collected;
              })
              f.same;
        made =
            subst
              (λ calls.
                Made env registry first.incident_id deadline start calls
                  (with_call registry ctx inv w).collected (after_call registry ctx inv w))
              (sym next)
              (subst
                (λ id.
                  Made env registry first.incident_id deadline start
                    (take (length ctx.collected) plan ++ inv ∷ [])
                    (ctx.collected ++ collected_of inv (invoke registry id inv w).0 ∷ [])
                    (invoke registry id inv w).1)
                (sym same_id)
                (invoke-Made env registry first.incident_id deadline start
                  (take (length ctx.collected) plan) ctx.collected w inv f.made t));
      }
    where
      length-snoc :
          (xs : List CollectedEvidence) (x : CollectedEvidence)
          → length (xs ++ x ∷ []) ≡ suc (length xs)
      length-snoc xs x = omega (arith, length-append xs (x ∷ []))

      next :
          take (length (with_call registry ctx inv w).collected) plan
          ≡ take (length ctx.collected) plan ++ inv ∷ []
      next =
          ap (λ n. take n plan) (length-snoc ctx.collected _)
          ∙ take-suc (length ctx.collected) plan inv (
              next_step_calls ctx plan inv (
                ap (λ s. s.invocation) (sym (decided_step ctx d.usage d.decision f.same d.decided))
                ∙ d.invokes))

  stopped_whole :
      (ctx : InvestigationContext)
      → ctx ≡ record first { collected = ctx.collected }
      → Stops (fake_llm env settings) ctx
      → length ctx.collected < first.max_tool_calls
      → take (length ctx.collected) plan ≡ plan
  stopped_whole ctx same s less = take-all (length ctx.collected) plan (
      next_step_stops ctx plan
        (subst (λ d. (d.finalize ≡ true) ⊎ (d.invocation ≡ none))
          (decided_step ctx s.usage s.decision same s.decided) s.ends)
        (omega (arith, ap (λ (c : InvestigationContext). c.max_tool_calls) same)))

-- The end of a loop that began in the world `start` with the context `first`, and the world it left.
-- The context changed only in what is collected: the results of the first calls of the plan, each
-- made with its arguments before the deadline, as many as are collected, and at most `most`. All
-- calls of the plan were made unless the budget is marked as exhausted, and it is only marked when
-- `most` calls were made or the last reading of the clock was after the deadline.
pub record IsPlanned (env : Env) (registry : ToolRegistry) (first : InvestigationContext)
    (plan : List ToolInvocation) (most deadline : ℕ) (start : World) (end : LoopEnd) (left : World)
    : Type 0 where
  pub same : end.context ≡ record first { collected = end.context.collected }
  pub calls : List ToolInvocation
  pub prefix : calls ≡ take (length end.context.collected) plan
  pub made : Made env registry first.incident_id deadline start calls end.context.collected left
  pub within : length end.context.collected ≤ most
  pub whole : end.budget_exhausted ≡ false → calls ≡ plan
  pub exhausted :
      end.budget_exhausted ≡ true → (most ≤ length end.context.collected) ⊎ IsLate env deadline left

-- With the deterministic client and any registry, from a context that has no collected evidence yet,
-- has the budget's number of calls, and has a plan, the loop with one more unit of fuel than calls
-- ends without exception. It made the first calls of the plan in their order, with their arguments,
-- at most as many as the budget allows, each right after a reading of the clock that was not after
-- the deadline, and collected what the tools answered. It made all of them unless the budget is
-- marked as exhausted, which it only is when the budget's calls are used or the clock's last reading
-- was after the deadline.
pub gather-IsPlanned :
    (env : Env) (settings : LlmSettings) (registry : ToolRegistry) (budget : AgentBudget)
    (started : ℕ) (first : InvestigationContext) (plan : List ToolInvocation) (run : Run)
    → build_playbook env first.suspected_root_cause first.alert_meta first.focus_node ≡ ok plan
    → first.collected ≡ []
    → first.max_tool_calls ≡ budget.max_tool_calls
    → (end : LoopEnd) × (left : Run) × (gather env
          (fake_llm env settings)
          registry
          budget
          started
          (suc budget.max_tool_calls)
          first
          run
        ≡ (ok (some end), left))
      × IsPlanned env registry first plan budget.max_tool_calls
          (started + budget.max_duration_seconds * 1_000_000)
          run.world
          end
          left.world
gather-IsPlanned env settings registry budget started first plan run planned empty most =
    of_post (gather env client registry budget started (suc budget.max_tool_calls) first run) (
      gather_rule env client registry budget started
        (λ ctx w. Follows env registry (deadline_of budget started) run.world first plan ctx w)
        (λ ctx w f. record { same = f.same; made = clock_read _ ctx.collected w f.made })
        (λ ctx w inv d t f.
          Follows-calls env settings first plan planned registry (deadline_of budget started)
            run.world ctx w inv d t f)
        (suc budget.max_tool_calls) first run
        (record {
          same = refl;
          made =
              subst
                (λ (cs : List CollectedEvidence).
                  Made env registry first.incident_id (deadline_of budget started) run.world
                    (take (length cs) plan) cs run.world)
                (sym empty) no_call;
        })
        (omega (arith, length_first)) (omega (arith, length_first)))
  where
    client : LlmClient
    client = fake_llm env settings

    length_first : length first.collected ≡ 0
    length_first = ap (λ cs. length cs) empty

    of_post :
        (r : Result (Option LoopEnd) × Run)
        → LoopPost env
            (deadline_of budget started)
            client
            (λ ctx w. Follows env registry (deadline_of budget started) run.world first plan ctx w)
            budget.max_tool_calls
            r.0
            r.1.world
        → (end : LoopEnd) × (left : Run) × (r ≡ (ok (some end), left))
          × IsPlanned env registry first plan budget.max_tool_calls
              (started + budget.max_duration_seconds * 1_000_000)
              run.world
              end
              left.world
    of_post (ok (some end), left) (f, within, stops, exhausted) = (
      end,
      left,
      refl,
      record {
        same = f.same;
        calls = take (length end.context.collected) plan;
        prefix = refl;
        made = f.made;
        within = within;
        whole = λ e.
            let (s, less) = stops e in
            stopped_whole env settings first plan planned end.context f.same s
              (omega (arith, less, most));
        exhausted = exhausted;
      },
    )
    of_post (ok none, left) post = absurd post
    of_post (raised e, left) (ctx, fails, f) =
        absurd (never-Fails env settings first plan planned ctx e f.same fails)

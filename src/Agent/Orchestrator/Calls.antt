-- ===== src/Agent/Orchestrator/Calls.antt =====
-- The calls that the loop of backend/app/agent/orchestrator.py makes, with their arguments and what is
-- collected of them, described without the loop.
use lineageiq.Common.{
  suc, ℕ, String, none, some, List, [], ◌∷◌, ◌++◌, Option-cases, inl, inr, concat, ◌≡◌, refl, subst,
}
use lineageiq.Effects.{Result, raised, key_error}
use lineageiq.Environment.{Env, World}
use lineageiq.Tools.{Tool, ToolResult, ToolRegistry, find_tool, get_tool}
use lineageiq.Agent.Types.{ToolInvocation, CollectedEvidence}
use lineageiq.Agent.Orchestrator.{collected_of, invoke}
use lineageiq.Agent.Orchestrator.Loop.{InTime}

module _ (env : Env) (registry : ToolRegistry) (incident_id : String) (deadline : ℕ)
    (start : World) where
  -- From the start, exactly these calls were made in this order, each right after a reading of the
  -- clock that was not after the deadline, with its own arguments, for the incident, and answered by
  -- the tool of its name or by the error for an unknown name; of each its result or exception was
  -- collected; and the world is what they left, with the clock read in between.
  pub data Made : List ToolInvocation → List CollectedEvidence → World → Type 0 where
    no_call : Made [] [] start
    clock_read :
        (calls : List ToolInvocation) (collected : List CollectedEvidence) (w : World)
        → Made calls collected w
        → Made calls collected (record w { readings = suc w.readings })
    answered :
        (calls : List ToolInvocation) (collected : List CollectedEvidence) (w : World)
        (inv : ToolInvocation) (tool : Tool)
        → Made calls collected w
        → InTime env deadline w
        → find_tool inv.tool_name registry ≡ some tool
        → Made
            (calls ++ inv ∷ [])
            (collected
              ++ collected_of inv (tool.run (record { incident_id = incident_id }) inv.args w).0
                ∷ [])
            (tool.run (record { incident_id = incident_id }) inv.args w).1
    unknown :
        (calls : List ToolInvocation) (collected : List CollectedEvidence) (w : World)
        (inv : ToolInvocation)
        → Made calls collected w
        → InTime env deadline w
        → find_tool inv.tool_name registry ≡ none
        → Made
            (calls ++ inv ∷ [])
            (collected
              ++ collected_of inv
                  (raised (key_error (concat ("Unknown tool: " ∷ inv.tool_name ∷ []))))
                ∷ [])
            w

  invoke_found :
      (inv : ToolInvocation) (tool : Tool) (w : World)
      → find_tool inv.tool_name registry ≡ some tool
      → tool.run (record { incident_id = incident_id }) inv.args w
        ≡ invoke registry incident_id inv w
  unfolding invoke get_tool
  invoke_found inv tool w e = rw (e, get_tool) refl

  invoke_unknown :
      (inv : ToolInvocation) (w : World)
      → find_tool inv.tool_name registry ≡ none
      → (raised (key_error (concat ("Unknown tool: " ∷ inv.tool_name ∷ []))), w)
        ≡ invoke registry incident_id inv w
  unfolding invoke get_tool
  invoke_unknown inv w e = rw (e, get_tool) refl

  -- A call of the loop is one more call.
  pub invoke-Made :
      (calls : List ToolInvocation) (collected : List CollectedEvidence) (w : World)
      (inv : ToolInvocation)
      → Made calls collected w
      → InTime env deadline w
      → Made
          (calls ++ inv ∷ [])
          (collected ++ collected_of inv (invoke registry incident_id inv w).0 ∷ [])
          (invoke registry incident_id inv w).1
  invoke-Made calls collected w inv made timely =
      elim (Option-cases (find_tool inv.tool_name registry)) [
        | inl e ↦ to_invoke _ (invoke_unknown inv w e) (unknown calls collected w inv made timely e)
        | inr (tool, e) ↦
            to_invoke _ (invoke_found inv tool w e)
              (answered calls collected w inv tool made timely e)
      ]
    where
      to_invoke :
          (r : Result ToolResult × World)
          → r ≡ invoke registry incident_id inv w
          → Made (calls ++ inv ∷ []) (collected ++ collected_of inv r.0 ∷ []) r.1
          → Made
              (calls ++ inv ∷ [])
              (collected ++ collected_of inv (invoke registry incident_id inv w).0 ∷ [])
              (invoke registry incident_id inv w).1
      to_invoke r e m =
          subst
            (λ (r : Result ToolResult × World).
              Made (calls ++ inv ∷ []) (collected ++ collected_of inv r.0 ∷ []) r.1)
            e m

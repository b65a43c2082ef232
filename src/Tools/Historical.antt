-- ===== src/Tools/Historical.antt =====
-- backend/app/tools/historical_tool.py: the tool that looks for similar historical incidents.
-- The index of backend/app/ml/historical.py is used through its search; it is fitted before the
-- investigation. A match's dict is stored and never inspected, and comes as a text.
use lineageiq.Common.{ℕ, String, none, some, List, [], ◌∷◌, map, concat, join, show, length}
use lineageiq.Effects.{Exec, Result, ok, raised, and_then}
use lineageiq.Database.{Payload, text, texts, payload_get}
use lineageiq.Environment.{Env, World}
use lineageiq.Tools.{Tool, ToolContext, ToolResult, tool_result, text_arg, int_arg}
use lineageiq.Tools.Contract.{Adds, Adds-nothing, IsReadOnly, tool_result-Adds}

pub record HistoricalMatch : Type 0 where
  pub incident_type : String
  pub as_text : String

pub record HistoricalIndex : Type 0 where
  -- `search(query, k)`
  pub search : String → ℕ → List HistoricalMatch
  -- `s.strip()`
  pub strip : String → String

-- `kwargs.get("affected_systems") or []`
abbrev systems_arg : Payload → List String
systems_arg args = elim (payload_get "affected_systems" args) [
  | none ↦ []
  | some v ↦ elim v [ texts ss ↦ ss | _ ↦ [] ]
]

abbrev query_of : HistoricalIndex → Payload → String
query_of index args = index.strip (
    join " " (
      text_arg "symptoms" "" args
      ∷ join " " (systems_arg args)
      ∷ text_arg "suspected_incident_type" "" args
      ∷ []))

abbrev top_type : List HistoricalMatch → String
top_type [] = "none"
top_type (m ∷ ms) = m.incident_type

unfoldable pub historical_answer :
    Env → String → List HistoricalMatch → ToolContext → Exec World ToolResult
historical_answer env query matches ctx =
    tool_result env "search_historical_incidents" "historical" ctx
      (concat (
        "Top historical match: "
        ∷ top_type matches
        ∷ " ("
        ∷ show (length matches)
        ∷ " candidates)"
        ∷ []))
      (("query", text query) ∷ ("matches", texts (map (λ m. m.as_text) matches)) ∷ [])

unfoldable pub search_historical_incidents : Env → HistoricalIndex → Tool
unfolding historical_answer
search_historical_incidents env index = record {
  name = "search_historical_incidents";
  description = "Find similar historical incidents by symptoms / affected systems / type.";
  evidence_type = "historical";
  run = λ ctx args.
      and_then (int_arg env "max_results" 5 args) (λ k.
        historical_answer env (query_of index args) (index.search (query_of index args) k) ctx);
}

-- The tool for historical incidents, over any index, only adds evidence of the incident of its
-- context, and its answer names a row that it added.
pub search_historical_incidents-IsReadOnly :
    (env : Env) (index : HistoricalIndex) → IsReadOnly (search_historical_incidents env index)
unfolding search_historical_incidents
search_historical_incidents-IsReadOnly env index = record {
  at = λ ctx args w. by_number ctx args w (int_arg env "max_results" 5 args);
}
  where
    by_number :
        (ctx : ToolContext) (args : Payload) (w : World) (k : Result ℕ)
        → Adds ctx.incident_id "search_historical_incidents" w (
            and_then k
              (λ k.
                historical_answer env
                  (query_of index args)
                  (index.search (query_of index args) k)
                  ctx)
              w)
    by_number ctx args w (raised e) = Adds-nothing ctx.incident_id "search_historical_incidents" e w
    by_number ctx args w (ok k) =
        tool_result-Adds env "search_historical_incidents" "historical" ctx _ _ w

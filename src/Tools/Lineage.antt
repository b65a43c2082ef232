-- ===== src/Tools/Lineage.antt =====
-- backend/app/tools/lineage_tool.py: the tool that asks the lineage graph.
-- The graph of backend/app/lineage/store.py is used through an interface. A traversal's nodes,
-- edges and paths are stored and never inspected, and come as texts.
use lineageiq.Common.{
  ℕ, String, Bool, true, false, some, List, [], ◌∷◌, concat, show, length, str_eq, list_text, not,
  if◌then◌else◌,
}
use lineageiq.Effects.{Exec, Result, ok, raised, and_then, pure, ◌>>=◌}
use lineageiq.Database.{Payload, text, texts}
use lineageiq.Environment.{Env, World}
use lineageiq.Tools.{
  Tool, ToolContext, ToolResult, tool_result, persist_evidence, text_arg, int_arg,
}
use lineageiq.Tools.Contract.{Adds, Adds-nothing, IsReadOnly, tool_result-Adds, persisted-Adds}

pub record LineageResult : Type 0 where
  pub nodes : List String
  pub edges : List String
  pub paths : List String
  pub affected_assets : List String

-- The operations of `LineageStore` that the tool calls.
pub record LineageStore : Type 0 where
  -- `get_node(node) is not None`
  pub has_node : String → Bool
  pub upstream : String → ℕ → LineageResult
  pub downstream : String → ℕ → LineageResult

-- The answer for an unknown node; its evidence type is the default of `ToolResult`.
abbrev unknown_node : Env → String → ToolContext → Exec World ToolResult
unknown_node env start_node ctx = do
  evidence_id ←
      persist_evidence env "query_lineage" "lineage" ctx
        (concat ("Unknown lineage node: " ∷ start_node ∷ []))
        (("start_node", text start_node) ∷ ("error", text "unknown_node") ∷ []) 10_000
  pure (record {
    evidence_id = evidence_id;
    tool_name = "query_lineage";
    summary = concat ("Unknown lineage node: " ∷ start_node ∷ []);
    payload = ("start_node", text start_node) ∷ [];
    reliability = 10_000;
    evidence_type = "tool";
    error = some "unknown_node";
  })

abbrev traverse : LineageStore → String → String → ℕ → LineageResult
traverse store start_node direction max_depth =
    if str_eq direction "upstream"
    then store.upstream start_node max_depth
    else store.downstream start_node max_depth

abbrev lineage_answer : Env → String → String → LineageResult → ToolContext → Exec World ToolResult
lineage_answer env start_node direction result ctx =
    tool_result env "query_lineage" "lineage" ctx
      (concat (
        "Lineage "
        ∷ direction
        ∷ " of "
        ∷ start_node
        ∷ ": "
        ∷ show (length result.nodes)
        ∷ " nodes, "
        ∷ "affected assets: "
        ∷ list_text result.affected_assets
        ∷ []))
      (("start_node", text start_node)
        ∷ ("direction", text direction)
        ∷ ("nodes", texts result.nodes)
        ∷ ("edges", texts result.edges)
        ∷ ("paths", texts result.paths)
        ∷ ("affected_assets", texts result.affected_assets)
        ∷ [])

-- The body of `run`, on the depth that was read.
unfoldable pub ask_lineage :
    Env → LineageStore → String → String → ToolContext → ℕ → Exec World ToolResult
ask_lineage env store start_node direction ctx max_depth =
    if not (store.has_node start_node)
    then unknown_node env start_node ctx
    else lineage_answer env start_node direction (traverse store start_node direction max_depth) ctx

unfoldable pub query_lineage : Env → LineageStore → Tool
unfolding ask_lineage
query_lineage env store = record {
  name = "query_lineage";
  description = "Traverse data lineage upstream/downstream from a node; returns impacted assets.";
  evidence_type = "lineage";
  run = λ ctx args. and_then (int_arg env "max_depth" 6 args) (
      ask_lineage env store (text_arg "start_node" "" args) (text_arg "direction" "downstream" args)
        ctx);
}

ask_lineage-Adds :
    (env : Env) (store : LineageStore) (start_node direction : String) (ctx : ToolContext)
    (max_depth : ℕ) (w : World)
    → Adds ctx.incident_id "query_lineage" w
        (ask_lineage env store start_node direction ctx max_depth w)
unfolding ask_lineage
ask_lineage-Adds env store start_node direction ctx max_depth w =
    by_node (store.has_node start_node)
  where
    by_node :
        (known : Bool)
        → Adds ctx.incident_id "query_lineage" w (
            (if not known
                then unknown_node env start_node ctx
                else lineage_answer env start_node direction
                    (traverse store start_node direction max_depth)
                    ctx)
              w)
    by_node true = tool_result-Adds env "query_lineage" "lineage" ctx _ _ w
    by_node false = persisted-Adds env "query_lineage" "lineage" ctx _ _ _ _ "tool" _ w

-- The lineage tool, over any graph, only adds evidence of the incident of its context, and its
-- answer, for an unknown node too, names a row that it added.
pub query_lineage-IsReadOnly :
    (env : Env) (store : LineageStore) → IsReadOnly (query_lineage env store)
unfolding query_lineage
query_lineage-IsReadOnly env store = record {
  at = λ ctx args w. by_depth ctx args w (int_arg env "max_depth" 6 args);
}
  where
    by_depth :
        (ctx : ToolContext) (args : Payload) (w : World) (depth : Result ℕ)
        → Adds ctx.incident_id "query_lineage" w (
            and_then depth
              (ask_lineage env store
                (text_arg "start_node" "" args)
                (text_arg "direction" "downstream" args)
                ctx)
              w)
    by_depth ctx args w (raised e) = Adds-nothing ctx.incident_id "query_lineage" e w
    by_depth ctx args w (ok depth) = ask_lineage-Adds env store _ _ ctx depth w

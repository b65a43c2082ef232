-- ===== src/Tools/Pipelines.antt =====
-- backend/app/tools/pipeline_tool.py: the tool that inspects pipeline runs.
-- A run's dict is stored and never inspected, and comes as a text.
use lineageiq.Common.{
  ℕ, String, Bool, true, false, ◌&&◌, ◌||◌, Option, none, some, List, [], ◌∷◌, map, keep, concat,
  show, length, take, take_text, leb, ltb, str_eq, if◌then◌else◌,
}
use lineageiq.Effects.{Exec, Result, ok, raised, and_then}
use lineageiq.Database.{PipelineRun, Payload, int, texts, payload_get}
use lineageiq.Environment.{Env, World}
use lineageiq.Tools.{
  Tool, ToolContext, ToolResult, tool_result, int_arg, time_arg, given_text, null_or_text, min_of,
}
use lineageiq.Tools.Contract.{IsReadOnly, tool_result-Adds, lifted-Adds}

pub record RunTexts : Type 0 where
  pub run_text : PipelineRun → String
  -- `round(seconds / 3600.0, 2)` of a run that was completed, in hundredths
  pub hours : ℕ → ℕ → ℕ

pub record RunQuery : Type 0 where
  pub pipeline : Option String
  pub start : Option ℕ
  pub end : Option ℕ
  pub status : Option String
  pub max_results : ℕ

unfoldable pub run_query : Env → Payload → Result RunQuery
run_query env args = elim (time_arg env "start_time" args) [
  | raised e ↦ raised e
  | ok start ↦ elim (time_arg env "end_time" args) [
    | raised e ↦ raised e
    | ok end ↦ elim (int_arg env "max_results" 50 args) [
      | raised e ↦ raised e
      | ok n ↦ ok (record {
        pipeline = given_text "pipeline" args;
        start = start;
        end = end;
        status = given_text "status" args;
        max_results = min_of n 200;
      })
    ]
  ]
]

-- `pipeline if pipeline.startswith("PL-") else f"PL-{pipeline}"`
abbrev pub pipeline_key : String → String
pipeline_key pipeline =
    if str_eq (take_text 3 pipeline) "PL-" then pipeline else concat ("PL-" ∷ pipeline ∷ [])

abbrev pub selects_run : RunQuery → PipelineRun → Bool
selects_run q run =
    (elim q.pipeline [ none ↦ true | some p ↦ str_eq run.pipeline_id (pipeline_key p) ])
    && ((elim q.start [ none ↦ true | some t ↦ leb t run.started_at ])
        && ((elim q.end [ none ↦ true | some t ↦ leb run.started_at t ])
            && (elim q.status [ none ↦ true | some s ↦ str_eq run.status s ])))

-- `ORDER BY started_at`
insert_run : PipelineRun → List PipelineRun → List PipelineRun
insert_run r [] = r ∷ []
insert_run r (x ∷ xs) = if leb r.started_at x.started_at then r ∷ x ∷ xs else x ∷ insert_run r xs

order_runs : List PipelineRun → List PipelineRun
unfolding insert_run
order_runs [] = []
order_runs (r ∷ rs) = insert_run r (order_runs rs)

unfoldable pub selected_runs : RunQuery → List PipelineRun → List PipelineRun
unfolding order_runs insert_run
selected_runs q runs = take q.max_results (order_runs (keep (selects_run q) runs))

-- `r.status == "delayed" or (duration_h is not None and duration_h > 3)`
abbrev pub is_delayed : RunTexts → PipelineRun → Bool
is_delayed ts run =
    str_eq run.status "delayed"
    || (elim run.completed_at [ none ↦ false | some t ↦ ltb 300 (ts.hours run.started_at t) ])

abbrev name_or_all : Option String → String
name_or_all none = "all pipelines"
name_or_all (some p) = p

unfoldable pub runs_answer :
    Env → RunTexts → Payload → ToolContext → RunQuery → Exec World ToolResult
unfolding selected_runs
runs_answer env ts args ctx q w =
    let runs = selected_runs q w.session.pipeline_runs in
    let failures = length (keep (λ r. str_eq r.status "failed") runs) in
    let delays = length (keep (is_delayed ts) runs) in
    tool_result env "inspect_pipeline_runs" "pipeline" ctx
      (concat (
        show (length runs)
        ∷ " run(s) for "
        ∷ name_or_all q.pipeline
        ∷ ": "
        ∷ show failures
        ∷ " failed, "
        ∷ show delays
        ∷ " delayed"
        ∷ []))
      (("pipeline", null_or_text (payload_get "pipeline" args))
        ∷ ("runs", texts (map ts.run_text runs))
        ∷ ("failure_count", int failures)
        ∷ ("delayed_count", int delays)
        ∷ [])
      w

unfoldable pub inspect_pipeline_runs : Env → RunTexts → Tool
unfolding run_query runs_answer
inspect_pipeline_runs env ts = record {
  name = "inspect_pipeline_runs";
  description = "Inspect pipeline runs (by pipeline / time range / status): delays and failures.";
  evidence_type = "pipeline";
  run = λ ctx args. and_then (run_query env args) (runs_answer env ts args ctx);
}

-- The tool for pipeline runs only adds evidence of the incident of its context, and its answer
-- names a row that it added; arguments that cannot be read raise and add nothing.
pub inspect_pipeline_runs-IsReadOnly :
    (env : Env) (ts : RunTexts) → IsReadOnly (inspect_pipeline_runs env ts)
unfolding inspect_pipeline_runs runs_answer
inspect_pipeline_runs-IsReadOnly env ts = record {
  at = λ ctx args w.
      lifted-Adds ctx.incident_id "inspect_pipeline_runs" (run_query env args)
        (runs_answer env ts args ctx) w
        (λ q. tool_result-Adds env "inspect_pipeline_runs" "pipeline" ctx _ _ w);
}

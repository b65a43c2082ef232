-- ===== src/Tools/Logs.antt =====
-- backend/app/tools/log_tool.py: the tool that searches the logs.
-- A negative `max_results`, which no plan asks for, is left out. A record's dict and the dict of the counts are stored and never inspected, and come as texts.
mod Ordered
pub mod Bounds
use lineageiq.Common.{
  ℕ, String, Bool, true, false, not, ◌&&◌, ◌||◌, Option, none, some, List, [], ◌∷◌, map, keep, any,
  concat, show, length, take, leb, ltb, str_eq, is_nil, has, distinct, sort_texts, counter,
  contains_lower, if◌then◌else◌,
}
use lineageiq.Effects.{Exec, Result, ok, raised, and_then, lift, ◌>>=◌, ◌>>◌}
use lineageiq.Database.{
  Session, SystemLog, Payload, Value, null, boolean, int, text, texts, json, payload_get,
}
use lineageiq.Environment.{Env, World}
use lineageiq.Tools.{
  Tool, ToolContext, ToolResult, tool_result, int_arg, time_arg, given_text, texts_arg,
  null_or_text, min_of,
}
use lineageiq.Tools.Contract.{Adds, Adds-nothing, IsReadOnly, tool_result-Adds, lifted-Adds}

pub record LogTexts : Type 0 where
  pub log_text : SystemLog → String
  -- `dict(severity_counts)`, in the summary and in the payload
  pub counts_text : List (String × ℕ) → String

-- What a call asks for.
pub record LogQuery : Type 0 where
  pub service : Option String
  pub start : Option ℕ
  pub end : Option ℕ
  pub terms : List String
  pub levels : List String
  pub max_results : ℕ

-- The arguments; a time that is no ISO text and a number that is none raise.
unfoldable pub log_query : Env → Payload → Result LogQuery
log_query env args = elim (time_arg env "start_time" args) [
  | raised e ↦ raised e
  | ok start ↦ elim (time_arg env "end_time" args) [
    | raised e ↦ raised e
    | ok end ↦ elim (int_arg env "max_results" 50 args) [
      | raised e ↦ raised e
      | ok n ↦ ok (record {
        service = given_text "service" args;
        start = start;
        end = end;
        terms = texts_arg "search_terms" args;
        levels = texts_arg "log_levels" args;
        max_results = min_of n 100;
      })
    ]
  ]
]

-- The conditions of the query, where a missing one holds.
abbrev pub selects : LogQuery → SystemLog → Bool
selects q log =
    (elim q.service [ none ↦ true | some s ↦ str_eq log.service s ])
    && ((elim q.start [ none ↦ true | some t ↦ leb t log.timestamp ])
        && ((elim q.end [ none ↦ true | some t ↦ leb log.timestamp t ])
            && (is_nil q.levels || has log.log_level q.levels)))

-- `not terms or any(t.lower() in log.message.lower() for t in terms)`
abbrev pub mentions : LogQuery → SystemLog → Bool
mentions q log = is_nil q.terms || any (λ t. contains_lower t log.message) q.terms

-- `ORDER BY timestamp`
insert_log : SystemLog → List SystemLog → List SystemLog
insert_log l [] = l ∷ []
insert_log l (x ∷ xs) = if leb l.timestamp x.timestamp then l ∷ x ∷ xs else x ∷ insert_log l xs

pub order_logs : List SystemLog → List SystemLog
unfolding insert_log
order_logs [] = []
order_logs (l ∷ ls) = insert_log l (order_logs ls)

-- All matches among the first 500 rows that the query selects.
unfoldable pub all_matches : LogQuery → List SystemLog → List SystemLog
unfolding order_logs insert_log
all_matches q logs = keep (mentions q) (take 500 (order_logs (keep (selects q) logs)))

-- The records of the answer.
unfoldable pub matched_logs : LogQuery → List SystemLog → List SystemLog
unfolding all_matches
matched_logs q logs = take q.max_results (all_matches q logs)

abbrev run_ids : List SystemLog → List String
run_ids [] = []
run_ids (l ∷ ls) = elim l.pipeline_run_id [
  | none ↦ run_ids ls
  | some id ↦ if str_eq id "" then run_ids ls else id ∷ run_ids ls
]

abbrev service_note : Option String → String
service_note none = ""
service_note (some s) = concat (" for service=" ∷ s ∷ [])

unfoldable pub log_answer :
    Env → LogTexts → Payload → ToolContext → LogQuery → Exec World ToolResult
unfolding matched_logs all_matches
log_answer env ts args ctx q w =
    let matched = matched_logs q w.session.system_logs in
    let counts = counter (map (λ l. l.log_level) matched) in
    tool_result env "search_logs" "log" ctx
      (concat (
        "Found "
        ∷ show (length matched)
        ∷ " log record(s)"
        ∷ service_note q.service
        ∷ "; levels="
        ∷ ts.counts_text counts
        ∷ []))
      (("service", null_or_text (payload_get "service" args))
        ∷ ("records", texts (map ts.log_text matched))
        ∷ ("counts_by_level", json (ts.counts_text counts))
        ∷ ("correlated_pipeline_runs", texts (sort_texts (distinct (run_ids matched))))
        ∷ ("truncated", boolean (ltb q.max_results (length (all_matches q w.session.system_logs))))
        ∷ [])
      w

unfoldable pub search_logs : Env → LogTexts → Tool
unfolding log_query log_answer
search_logs env ts = record {
  name = "search_logs";
  description = "Search application/pipeline logs by service, time range, terms, and levels.";
  evidence_type = "log";
  run = λ ctx args. and_then (log_query env args) (log_answer env ts args ctx);
}

-- The log tool only adds evidence of the incident of its context, and its answer names a row that
-- it added; arguments that cannot be read raise and add nothing.
pub search_logs-IsReadOnly : (env : Env) (ts : LogTexts) → IsReadOnly (search_logs env ts)
unfolding search_logs log_answer
search_logs-IsReadOnly env ts = record {
  at = λ ctx args w.
      lifted-Adds ctx.incident_id "search_logs" (log_query env args) (log_answer env ts args ctx) w
        (λ q. tool_result-Adds env "search_logs" "log" ctx _ _ w);
}

-- ===== src/Agent/Knowledge/Steps.antt =====
-- The helpers of backend/app/agent/knowledge.py: the reported date, and the steps of a plan.
use lineageiq.Common.{
  ℕ, ◌+◌, ◌-◌, String, Option, none, some, List, [], ◌∷◌, concat, show, str_eq, ltb, leb, ◌==◌,
  if◌then◌else◌,
}
use lineageiq.Effects.{Result, ok, raised, overflow_error}
use lineageiq.Database.{
  Value, null, boolean, int, text, texts, json, Payload, payload_get, value_text,
}
use lineageiq.Environment.{Env}
use lineageiq.Agent.Types.{ToolInvocation}

-- `_date(meta)`. A missing or falsy value, and a text that is no ISO date, give no date; no list or
-- structure is written like one.
date_of_value : Env → Option Value → Option ℕ
date_of_value env none = none
date_of_value env (some null) = none
date_of_value env (some (boolean b)) = if b then env.fromisoformat "True" else none
date_of_value env (some (int n)) = if n == 0 then none else env.fromisoformat (show n)
date_of_value env (some (text s)) = if str_eq s "" then none else env.fromisoformat s
date_of_value env (some (texts ss)) = none
date_of_value env (some (json s)) = none

unfoldable pub meta_date : Env → Payload → Option ℕ
unfolding date_of_value
meta_date env meta = date_of_value env (payload_get "date" meta)

-- `meta.get(key, default)` in an f-string
abbrev pub meta_text : String → String → Payload → String
meta_text key default meta = elim (payload_get key meta) [ none ↦ default | some v ↦ value_text v ]

-- `meta.get(key, default)` as an argument
abbrev pub meta_value : String → String → Payload → Value
meta_value key default meta = elim (payload_get key meta) [ none ↦ text default | some v ↦ v ]

-- `d - timedelta(days=n)`, `d + timedelta(days=n)`: a date outside `date.min`..`date.max` raises.
unfoldable pub days_before : ℕ → ℕ → Result ℕ
days_before n d = if ltb d n then raised (overflow_error "date value out of range") else ok (d - n)

unfoldable pub days_after : ℕ → ℕ → Result ℕ
days_after n d =
    if leb (d + n) 3_652_058 then ok (d + n) else raised (overflow_error "date value out of range")

abbrev pub step : String → Payload → String → ToolInvocation
step tool_name args reason = record { tool_name = tool_name; args = args; reason = reason }

-- `_lineage(node, direction)`: no step without a node.
unfoldable pub lineage_step : Option String → String → Option ToolInvocation
lineage_step none direction = none
lineage_step (some node) direction =
    if str_eq node ""
    then none
    else some (
        step "query_lineage" (("start_node", text node) ∷ ("direction", text direction) ∷ [])
          (concat ("Map " ∷ direction ∷ " lineage from " ∷ node ∷ " to find impacted assets" ∷ [])))

-- `_historical(symptoms, incident_type)`
abbrev pub historical_step : String → String → ToolInvocation
historical_step symptoms incident_type =
    step "search_historical_incidents"
      (("symptoms", text symptoms)
        ∷ ("suspected_incident_type", text incident_type)
        ∷ ("max_results", int 3)
        ∷ [])
      "Retrieve similar historical incidents and their remediations"

abbrev pub sql_step : String → String → String → ToolInvocation
sql_step query why reason =
    step "run_readonly_sql" (("query", text query) ∷ ("reason", text why) ∷ []) reason

-- `focus_node or default`
abbrev pub or_default : Option String → String → Option String
or_default none default = some default
or_default (some node) default = if str_eq node "" then some default else some node

-- `[s for s in steps if s is not None]`
abbrev pub present : List (Option ToolInvocation) → List ToolInvocation
present [] = []
present (none ∷ steps) = present steps
present (some s ∷ steps) = s ∷ present steps

-- ===== src/Tools.antt =====
-- backend/app/tools/base.py: what a tool is, how its evidence is stored, and the registry.
-- A tool holds the lineage store and the historical index that `ToolContext` shares; the session is
-- the state, and `ToolContext` keeps the incident.
pub mod Contract
pub mod SqlGuard
pub mod Sql
pub mod Lineage
pub mod Historical
pub mod Schema
pub mod Logs
pub mod Pipelines
pub mod Registry
mod Tests
use lineageiq.Common.{
  ℕ, String, Option, none, some, List, [], ◌∷◌, ◌++◌, map, concat, take_text, sort_texts, str_eq,
  leb, if◌then◌else◌,
}
use lineageiq.Effects.{
  Result, ok, raised, value_error, other_error, Exec, pure, raise, modify, key_error, ◌>>=◌, ◌>>◌,
}
use lineageiq.Database.{
  Session, Evidence, Payload, payload_get, value_text, Value, null, boolean, int, text, texts, json,
}
use lineageiq.Environment.{Env, World, now, fresh_id}

pub record ToolContext : Type 0 where
  pub incident_id : String

pub record ToolResult : Type 0 where
  pub evidence_id : String
  pub tool_name : String
  pub summary : String
  pub payload : Payload
  pub reliability : ℕ
  pub evidence_type : String
  pub error : Option String

pub record Tool : Type 0 where
  pub name : String
  pub description : String
  pub evidence_type : String
  -- `run(ctx, **kwargs)`
  pub run : ToolContext → Payload → Exec World ToolResult

-- `session.add(row)`
abbrev pub add_evidence : Evidence → World → World
add_evidence row w = record w {
  session = record w.session { evidence = w.session.evidence ++ row ∷ [] };
}

-- The row that `_persist_evidence` stores; no tool names another source than itself.
abbrev pub evidence_row :
    String → String → ToolContext → String → Payload → ℕ → String → ℕ → Evidence
evidence_row name evidence_type ctx summary payload reliability evidence_id collected_at = record {
  evidence_id = evidence_id;
  incident_id = ctx.incident_id;
  evidence_type = evidence_type;
  source = name;
  summary = take_text 4000 summary;
  raw_reference = none;
  collected_at = collected_at;
  reliability_score = reliability;
  structured_payload = some payload;
}

-- `_persist_evidence`, for a tool of the given name and evidence type
unfoldable pub persist_evidence :
    Env → String → String → ToolContext → String → Payload → ℕ → Exec World String
persist_evidence env name evidence_type ctx summary payload reliability = do
  evidence_id ← fresh_id env "EV" 10
  collected_at ← now env
  modify (
      add_evidence
        (evidence_row name evidence_type ctx summary payload reliability evidence_id collected_at))
  pure evidence_id

-- `_result`; the default reliability of 1.0 is 10000 ten-thousandths.
unfoldable pub tool_result :
    Env → String → String → ToolContext → String → Payload → Exec World ToolResult
unfolding persist_evidence
tool_result env name evidence_type ctx summary payload = do
  evidence_id ← persist_evidence env name evidence_type ctx summary payload 10_000
  pure (record {
    evidence_id = evidence_id;
    tool_name = name;
    summary = summary;
    payload = payload;
    reliability = 10_000;
    evidence_type = evidence_type;
    error = none;
  })

abbrev pub int_text : Option ℕ → String → Result ℕ
int_text (some n) s = ok n
int_text none s = raised (value_error (concat ("invalid literal for int(): " ∷ s ∷ [])))

-- `int(value)`
abbrev pub int_value : Env → Value → Result ℕ
int_value env (int n) = ok n
int_value env (boolean b) = ok (if b then 1 else 0)
int_value env (text s) = int_text (env.int_of s) s
int_value env null = raised (other_error "int() argument must be a string or a real number")
int_value env (texts ss) = raised (other_error "int() argument must be a string or a real number")
int_value env (json s) = raised (other_error "int() argument must be a string or a real number")

-- `kwargs.get(key, default)` of an argument that is always passed as a text.
abbrev pub text_arg : String → String → Payload → String
text_arg key default args = elim (payload_get key args) [
  | none ↦ default
  | some v ↦ elim v [ text s ↦ s | _ ↦ default ]
]

-- `int(kwargs.get(key, default))`
abbrev pub int_arg : Env → String → ℕ → Payload → Result ℕ
int_arg env key default args = elim (payload_get key args) [
  | none ↦ ok default
  | some v ↦ int_value env v
]

abbrev time_text : Option ℕ → String → Result (Option ℕ)
time_text (some t) s = ok (some t)
time_text none s = raised (value_error (concat ("Invalid isoformat string: " ∷ s ∷ [])))

-- `_parse_dt(kwargs.get(key))`: a missing time is none, and a text that is no ISO datetime raises.
abbrev pub time_arg : Env → String → Payload → Result (Option ℕ)
time_arg env key args = elim (payload_get key args) [
  | none ↦ ok none
  | some v ↦ elim v [
    | null ↦ ok none
    | other ↦ time_text (env.datetime_of (value_text other)) (value_text other)
  ]
]

-- A text under the key that is not empty.
abbrev pub given_text : String → Payload → Option String
given_text key args = elim (payload_get key args) [
  | none ↦ none
  | some v ↦ elim v [ text s ↦ if str_eq s "" then none else some s | _ ↦ none ]
]

-- `kwargs.get(key) or []`
abbrev pub texts_arg : String → Payload → List String
texts_arg key args = elim (payload_get key args) [
  | none ↦ []
  | some v ↦ elim v [ texts ss ↦ ss | _ ↦ [] ]
]

-- `kwargs.get(key)` as a value
abbrev pub null_or_text : Option Value → Value
null_or_text none = null
null_or_text (some v) = v

-- `min(a, b)`
abbrev pub min_of : ℕ → ℕ → ℕ
min_of a b = if leb a b then a else b

-- `ToolRegistry.tools`: a dict from names to tools, in the order of registration.
abbrev pub ToolRegistry : Type 0
ToolRegistry = List Tool

-- A tool of the same name is replaced where it stands.
unfoldable pub register : Tool → ToolRegistry → ToolRegistry
register tool [] = tool ∷ []
register tool (t ∷ ts) = if str_eq t.name tool.name then tool ∷ ts else t ∷ register tool ts

pub find_tool : String → ToolRegistry → Option Tool
find_tool name [] = none
find_tool name (t ∷ ts) = if str_eq t.name name then some t else find_tool name ts

unfoldable pub get_tool : String → ToolRegistry → Exec World Tool
unfolding find_tool
get_tool name registry = elim (find_tool name registry) [
  | none ↦ raise (key_error (concat ("Unknown tool: " ∷ name ∷ [])))
  | some tool ↦ pure tool
]

-- `ToolRegistry.names`
abbrev pub tool_names : ToolRegistry → List String
tool_names registry = sort_texts (map (λ t. t.name) registry)

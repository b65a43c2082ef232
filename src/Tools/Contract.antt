-- ===== src/Tools/Contract.antt =====
-- What every tool promises the investigation: it only adds evidence of its incident, and an answer
-- names a row that it added.
use lineageiq.Common.{
  Option, take_text, concat, String, true, some, List, [], ◌∷◌, ◌++◌, map, All, has, ◌≡◌, ◌≢◌, refl,
  sym, ap, str_eq, eq_refl, eq_iff, concat, take_text, subst, Bool-cases, inl, inr, ◌⊎◌,
  Option-cases,
}
use text.Mathlib.TextLemmas.{append-eq-nil_iff}
use mathlib.Core.List.{append-nil}
use lineageiq.Effects.{Exec, and_then, pure, Error, key_error, Result, ok, raised}
use lineageiq.Database.{Session, Evidence, Payload}
use lineageiq.Environment.{Env, World}
use lineageiq.Tools.{
  persist_evidence, Tool, ToolContext, ToolResult, ToolRegistry, tool_result, evidence_row,
  get_tool, find_tool,
}

-- The session with more evidence, and nothing else changed.
abbrev pub with_evidence : Session → List Evidence → Session
with_evidence s added = record s { evidence = s.evidence ++ added }

abbrev pub AllOf : String → List Evidence → Type 0
AllOf incident_id rows = All (λ e. e.incident_id ≡ incident_id) rows

-- A successful answer names its tool and one of the added rows.
abbrev pub Answers : String → Result ToolResult → List Evidence → Type 0
Answers name (raised e) added = Unit
Answers name (ok result) added =
    (result.tool_name ≡ name)
    × (result.evidence_id ≢ "")
    × (has result.evidence_id (map (λ e. e.evidence_id) added) ≡ true)

pub record Adds (incident_id name : String) (before : World) (r : Result ToolResult × World)
    : Type 0 where
  pub added : List Evidence
  pub session : r.1.session ≡ with_evidence before.session added
  pub mine : AllOf incident_id added
  pub answers : Answers name r.0 added

pub record IsReadOnly (tool : Tool) : Type 0 where
  pub at :
      (ctx : ToolContext) (args : Payload) (w : World)
      → Adds ctx.incident_id tool.name w (tool.run ctx args w)

id-ne-nil : (hex : String) → concat ("EV" ∷ "-" ∷ take_text 10 hex ∷ []) ≢ ""
id-ne-nil hex e = cc ((eq_iff "EV" "").1 (append-eq-nil_iff.0 e).0)

has_self : (x : String) (xs : List String) → has x (x ∷ xs) ≡ true
has_self x xs = rw (eq_refl x)

-- `_result` stores one row, which its answer names.
pub tool_result-Adds :
    (env : Env) (name evidence_type : String) (ctx : ToolContext) (summary : String)
    (payload : Payload) (w : World)
    → Adds ctx.incident_id name w (tool_result env name evidence_type ctx summary payload w)
unfolding tool_result
tool_result-Adds env name evidence_type ctx summary payload w = record {
  added =
      evidence_row name evidence_type ctx summary payload 10_000
        (concat ("EV" ∷ "-" ∷ take_text 10 (env.uuid_hex w.uuids) ∷ [])) (env.clock w.readings)
      ∷ [];
  session = refl;
  mine = (refl, tt);
  answers = (refl, id-ne-nil (env.uuid_hex w.uuids), has_self _ []);
}

-- The same of an answer that a tool builds around a row that it stored.
pub persisted-Adds :
    (env : Env) (name evidence_type : String) (ctx : ToolContext) (summary : String)
    (payload : Payload) (shown : String) (answer : Payload) (answer_type : String)
    (error : Option String) (w : World)
    → Adds ctx.incident_id name w (
        and_then
          (persist_evidence env name evidence_type ctx summary payload 10_000 w).0
          (λ (evidence_id : String). pure (record {
            evidence_id = evidence_id;
            tool_name = name;
            summary = shown;
            payload = answer;
            reliability = 10_000;
            evidence_type = answer_type;
            error = error;
          }))
          (persist_evidence env name evidence_type ctx summary payload 10_000 w).1)
unfolding persist_evidence
persisted-Adds env name evidence_type ctx summary payload shown answer answer_type error w =
    record {
      added =
          evidence_row name evidence_type ctx summary payload 10_000
            (concat ("EV" ∷ "-" ∷ take_text 10 (env.uuid_hex w.uuids) ∷ [])) (env.clock w.readings)
          ∷ [];
      session = refl;
      mine = (refl, tt);
      answers = (refl, id-ne-nil (env.uuid_hex w.uuids), has_self _ []);
    }

with_evidence-nil : (s : Session) → with_evidence s [] ≡ s
with_evidence-nil s = ap (λ (l : List Evidence). record s { evidence = l }) (append-nil s.evidence)

found_here :
    (t tool : Tool) (name : String)
    → IsReadOnly t
    → t.name ≡ name
    → some t ≡ some tool
    → IsReadOnly tool × (tool.name ≡ name)
found_here t tool name h same e =
    let p : t ≡ tool = cc in subst (λ x. IsReadOnly x × (x.name ≡ name)) p (h, same)

find_tool_found :
    (name : String) (registry : ToolRegistry) (tool : Tool)
    → All IsReadOnly registry
    → find_tool name registry ≡ some tool
    → IsReadOnly tool × (tool.name ≡ name)
unfolding find_tool
find_tool_found name [] tool h e = cc
find_tool_found name (t ∷ ts) tool h e = elim (Bool-cases (str_eq t.name name)) [
  | inl same ↦ found_here t tool name h.0 ((eq_iff t.name name).0 same) (rw same at e)
  | inr other ↦ find_tool_found name ts tool h.1 (rw other at e)
]

-- `get_tool` finds a read-only tool of the name, or raises; it changes nothing.
pub get_tool_cases :
    (name : String) (registry : ToolRegistry) (w : World)
    → All IsReadOnly registry
    → ((e : Error) × (get_tool name registry w ≡ (raised e, w)))
      ⊎ ((tool : Tool) × (get_tool name registry w ≡ (ok tool, w))
          × IsReadOnly tool
          × (tool.name ≡ name))
unfolding get_tool
get_tool_cases name registry w h = elim (Option-cases (find_tool name registry)) [
  | inl e ↦ inl (key_error (concat ("Unknown tool: " ∷ name ∷ [])), rw (e, get_tool))
  | inr (tool, e) ↦
      let (r, same) = find_tool_found name registry tool h e in
      inr (tool, rw (e, get_tool), r, same)
]

pub Adds-nothing :
    (incident_id name : String) (e : Error) (w : World) → Adds incident_id name w (raised e, w)
Adds-nothing incident_id name e w = record {
  added = [];
  session = sym (with_evidence-nil w.session);
  mine = tt;
  answers = tt;
}

-- An answer to arguments that may not be readable.
pub lifted-Adds :
    {A : Type 0} (incident_id name : String) (r : Result A) (answer : A → Exec World ToolResult)
    (w : World)
    → ((a : A) → Adds incident_id name w (answer a w))
    → Adds incident_id name w (and_then r answer w)
lifted-Adds incident_id name (ok a) answer w h = h a
lifted-Adds incident_id name (raised e) answer w h = Adds-nothing incident_id name e w

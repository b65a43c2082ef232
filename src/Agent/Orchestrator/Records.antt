-- ===== src/Agent/Orchestrator/Records.antt =====
-- What an investigation of backend/app/agent/orchestrator.py changes in the session, and the rows
-- that it starts from.
use lineageiq.Common.{
  String, Bool, true, false, some, List, [], ◌∷◌, ◌++◌, map, keep, All, any, ◌&&◌, ◌≡◌, refl, sym,
  ap, ◌∙◌, arith, str_eq, eq_iff, eq_refl, inl, inr, Bool-cases, All-mono, All-append,
  if◌then◌else◌, ||-true_right,
}
use mathlib.Core.List.{append-nil, append_assoc}
use lineageiq.Database.{Session, Evidence, AgentRun, Incident}
use lineageiq.Environment.{Env, World}
use lineageiq.Tools.Contract.{AllOf, with_evidence}
use lineageiq.Agent.Types.{InvestigationContext}
use lineageiq.Agent.Llm.{LlmClient}
use lineageiq.Agent.Orchestrator.{Run, find_incident, begin_run}
use lineageiq.Agent.Orchestrator.Trace.{Traced}

-- From one session to another, evidence of the incident was added and runs of the agent changed;
-- every other table, and the evidence that was there, is the same.
pub record OnlyRecords (incident_id : String) (before after : Session) : Type 0 where
  pub added : List Evidence
  pub mine : AllOf incident_id added
  pub runs : List AgentRun
  pub session : after ≡ record before { evidence = before.evidence ++ added; agent_runs = runs }

abbrev pub IsNamed : String → List Evidence → String → Type 0
IsNamed incident_id rows e =
    any (λ row. str_eq row.incident_id incident_id && str_eq e row.evidence_id) rows ≡ true

abbrev pub alerts_in : String → List Evidence → List Evidence
alerts_in incident_id rows =
    keep (λ e. str_eq e.incident_id incident_id && str_eq e.evidence_type "alert") rows

alert-IsNamed :
    (incident_id : String) (row : Evidence) (rows alerts : List Evidence) (mine alert : Bool)
    → str_eq row.incident_id incident_id ≡ mine
    → All (IsNamed incident_id (row ∷ rows)) (map (λ e. e.evidence_id) alerts)
    → All
        (IsNamed incident_id (row ∷ rows))
        (map (λ e. e.evidence_id) (if mine && alert then row ∷ alerts else alerts))
alert-IsNamed incident_id row rows alerts true true q later =
    (ground (arith, eq_refl row.evidence_id), later)
alert-IsNamed incident_id row rows alerts true false q later = later
alert-IsNamed incident_id row rows alerts false alert q later = later

-- The alerts' ids name stored rows.
pub initial_stored :
    (incident_id : String) (rows : List Evidence)
    → All (IsNamed incident_id rows) (map (λ e. e.evidence_id) (alerts_in incident_id rows))
initial_stored incident_id [] = tt
initial_stored incident_id (row ∷ rows) =
    alert-IsNamed incident_id row rows (alerts_in incident_id rows)
      (str_eq row.incident_id incident_id) (str_eq row.evidence_type "alert") refl
      (All-mono (IsNamed incident_id rows) (map (λ e. e.evidence_id) (alerts_in incident_id rows))
        (λ e k. ||-true_right (str_eq row.incident_id incident_id && str_eq e row.evidence_id) _ k)
        (initial_stored incident_id rows))

pub find_incident_id :
    (incident_id : String) (incidents : List Incident) (i : Incident)
    → find_incident incident_id incidents ≡ some i
    → i.incident_id ≡ incident_id
unfolding find_incident
find_incident_id incident_id [] i h = cc
find_incident_id incident_id (j ∷ js) i h = elim (Bool-cases (str_eq j.incident_id incident_id)) [
  | inl e ↦
      let found : some j ≡ some i = (rw e at h) in
      let same : j ≡ i = cc in
      ap (λ i. i.incident_id) (sym same) ∙ (eq_iff j.incident_id incident_id).0 e
  | inr e ↦ find_incident_id incident_id js i (rw e at h)
]

pub OnlyRecords-refl : (incident_id : String) (s : Session) → OnlyRecords incident_id s s
OnlyRecords-refl incident_id s = record {
  added = [];
  mine = tt;
  runs = s.agent_runs;
  session = ap (λ (l : List Evidence). record s { evidence = l }) (sym (append-nil s.evidence));
}

pub OnlyRecords-trans :
    {incident_id : String} {before started_in : Session} {ctx : InvestigationContext} {w : World}
    → OnlyRecords incident_id before started_in
    → Traced started_in incident_id ctx w
    → OnlyRecords incident_id before w.session
OnlyRecords-trans {incident_id} {before} o t = record {
  added = o.added ++ t.added;
  mine = All-append (λ e. e.incident_id ≡ incident_id) o.added t.added o.mine t.mine;
  runs = o.runs;
  session =
      t.session
      ∙ ap (λ s. with_evidence s t.added) o.session
      ∙ ap (λ (rows : List Evidence). record before { evidence = rows; agent_runs = o.runs })
          (append_assoc before.evidence o.added t.added);
}

pub begin_run-OnlyRecords :
    (env : Env) (llm : LlmClient) (incident_id other : String) (run : Run)
    → OnlyRecords other run.world.session (begin_run env llm incident_id run).1.world.session
unfolding begin_run
begin_run-OnlyRecords env llm incident_id other run =
    let runs = (begin_run env llm incident_id run).1.world.session.agent_runs in
    record {
      added = [];
      mine = tt;
      runs = runs;
      session =
          ap (λ (l : List Evidence). record run.world.session { evidence = l; agent_runs = runs })
            (sym (append-nil run.world.session.evidence));
    }

-- ===== src/Agent/Orchestrator/Trace.antt =====
-- What an investigation leaves behind: evidence of its incident, and a collection whose entries
-- name stored rows.
use lineageiq.Common.{
  String, true, List, [], ◌∷◌, ◌++◌, map, All, any, has, ◌&&◌, ◌≡◌, ◌≢◌, refl, sym, ap, ◌∙◌, subst,
  arith, str_eq, eq_iff, any-append, All-append, All-mono, ||-true_right, inl, inr, ◌⊎◌,
}
use mathlib.Core.List.{append_assoc}
use lineageiq.Effects.{Result, ok, raised, and_then}
use lineageiq.Database.{Session, Evidence}
use lineageiq.Environment.{World}
use lineageiq.Tools.{Tool, ToolRegistry, ToolResult}
use lineageiq.Tools.Contract.{
  Adds, Adds-nothing, Answers, AllOf, IsReadOnly, with_evidence, get_tool_cases,
}
use lineageiq.Agent.Types.{ToolInvocation, CollectedEvidence, InvestigationContext}
use lineageiq.Agent.Validation.Grounding.{IsStored}
use lineageiq.Agent.Orchestrator.{invoke, collected_of}
use lineageiq.Agent.Orchestrator.Loop.{next_reading, after_call, with_call}

-- A call of a registry of read-only tools only adds evidence, also when the name is unknown or the
-- tool raises.
pub invoke-Adds :
    (registry : ToolRegistry) (incident_id : String) (inv : ToolInvocation) (w : World)
    → All IsReadOnly registry
    → Adds incident_id inv.tool_name w (invoke registry incident_id inv w)
unfolding invoke
invoke-Adds registry incident_id inv w h = elim (get_tool_cases inv.tool_name registry w h) [
  | inl (e, q) ↦
      subst
        (λ (r : Result Tool × World).
          Adds incident_id inv.tool_name w
            (and_then r.0 (λ tool. tool.run (record { incident_id = incident_id }) inv.args) r.1))
        (sym q) (Adds-nothing incident_id inv.tool_name e w)
  | inr (tool, q, r, same) ↦
      subst
        (λ (r : Result Tool × World).
          Adds incident_id inv.tool_name w
            (and_then r.0 (λ tool. tool.run (record { incident_id = incident_id }) inv.args) r.1))
        (sym q)
        (subst
          (λ n. Adds incident_id n w (tool.run (record { incident_id = incident_id }) inv.args w))
          same (r.at (record { incident_id = incident_id }) inv.args w))
]

-- A collected entry is the record of a failed call, or names a stored row of the incident.
abbrev pub IsTraced : Session → String → CollectedEvidence → Type 0
IsTraced s incident_id c =
    ((c.evidence_type ≡ "error") × (c.evidence_id ≡ ""))
    ⊎ ((c.evidence_id ≢ "") × IsStored s incident_id c.evidence_id)

pub IsStored-append :
    (s : Session) (incident_id e : String) (added : List Evidence)
    → IsStored s incident_id e
    → IsStored (with_evidence s added) incident_id e
IsStored-append s incident_id e added h =
    any-append (λ row. str_eq row.incident_id incident_id && str_eq e row.evidence_id) s.evidence
      added
    ∙ rw h

any-mine :
    (incident_id e : String) (added : List Evidence)
    → AllOf incident_id added
    → has e (map (λ row. row.evidence_id) added) ≡ true
    → any (λ row. str_eq row.incident_id incident_id && str_eq e row.evidence_id) added ≡ true
any-mine incident_id e [] mine h = cc
any-mine incident_id e (row ∷ rows) mine h =
    ground (arith, any-mine incident_id e rows mine.1, eq_iff row.incident_id incident_id, mine.0)

IsStored-added :
    (s : Session) (incident_id e : String) (added : List Evidence)
    → AllOf incident_id added
    → has e (map (λ row. row.evidence_id) added) ≡ true
    → IsStored (with_evidence s added) incident_id e
IsStored-added s incident_id e added mine h =
    any-append (λ row. str_eq row.incident_id incident_id && str_eq e row.evidence_id) s.evidence
      added
    ∙ ||-true_right
        (any (λ row. str_eq row.incident_id incident_id && str_eq e row.evidence_id) s.evidence) _
        (any-mine incident_id e added mine h)

IsTraced-append :
    (s : Session) (incident_id : String) (added : List Evidence) (c : CollectedEvidence)
    → IsTraced s incident_id c
    → IsTraced (with_evidence s added) incident_id c
IsTraced-append s incident_id added c (inl error) = inl error
IsTraced-append s incident_id added c (inr (named, stored)) =
    inr (named, IsStored-append s incident_id c.evidence_id added stored)

collected_of-IsTraced :
    (s : Session) (incident_id : String) (inv : ToolInvocation) (r : Result ToolResult)
    (added : List Evidence)
    → AllOf incident_id added
    → Answers inv.tool_name r added
    → IsTraced (with_evidence s added) incident_id (collected_of inv r)
unfolding collected_of
collected_of-IsTraced s incident_id inv (raised e) added mine answers = inl (refl, refl)
collected_of-IsTraced s incident_id inv (ok result) added mine answers =
    inr (answers.1, IsStored-added s incident_id result.evidence_id added mine answers.2)

-- An investigation of the incident that began with the session `s₀`.
pub record Traced (s₀ : Session) (incident_id : String) (ctx : InvestigationContext) (w : World)
    : Type 0 where
  pub added : List Evidence
  pub session : w.session ≡ with_evidence s₀ added
  pub mine : AllOf incident_id added
  pub same : ctx.incident_id ≡ incident_id
  pub collected : All (IsTraced w.session incident_id) ctx.collected

with_evidence-with_evidence :
    (s : Session) (xs ys : List Evidence)
    → with_evidence (with_evidence s xs) ys ≡ with_evidence s (xs ++ ys)
with_evidence-with_evidence s xs ys =
    ap (λ (l : List Evidence). record s { evidence = l }) (append_assoc s.evidence xs ys)

pub Traced-reads :
    (s₀ : Session) (incident_id : String) (ctx : InvestigationContext) (w : World)
    → Traced s₀ incident_id ctx w
    → Traced s₀ incident_id ctx (next_reading w)
Traced-reads s₀ incident_id ctx w t = record {
  added = t.added;
  session = t.session;
  mine = t.mine;
  same = t.same;
  collected = t.collected;
}

pub Traced-calls :
    (registry : ToolRegistry)
    → All IsReadOnly registry
    → (s₀ : Session) (incident_id : String) (ctx : InvestigationContext) (w : World)
      (inv : ToolInvocation)
    → Traced s₀ incident_id ctx w
    → Traced s₀ incident_id (with_call registry ctx inv w) (after_call registry ctx inv w)
Traced-calls registry h s₀ incident_id ctx w inv t =
    let a = invoke-Adds registry ctx.incident_id inv w h in
    let mine : AllOf incident_id a.added = subst (λ i. AllOf i a.added) t.same a.mine in
    record {
      added = t.added ++ a.added;
      session =
          a.session
          ∙ ap (λ s. with_evidence s a.added) t.session
          ∙ with_evidence-with_evidence s₀ t.added a.added;
      mine = All-append (λ e. e.incident_id ≡ incident_id) t.added a.added t.mine mine;
      same = t.same;
      collected =
          subst (λ s. All (IsTraced s incident_id) (with_call registry ctx inv w).collected)
            (sym a.session)
            (All-append (IsTraced (with_evidence w.session a.added) incident_id) ctx.collected
              (collected_of inv (invoke registry ctx.incident_id inv w).0 ∷ [])
              (All-mono (IsTraced w.session incident_id) ctx.collected
                (IsTraced-append w.session incident_id a.added) t.collected)
              (
                collected_of-IsTraced w.session incident_id inv
                    (invoke registry ctx.incident_id inv w).0 a.added mine a.answers,
                tt,
              ));
    }

-- ===== src/Agent/Context/Leading.antt =====
-- What `build_context` of backend/app/agent/orchestrator.py takes from an incident and its alerts.
use lineageiq.Common.{
  ℕ, ◌≤◌, String, Option, none, some, List, [], count, counter, most_common_one,
  most_common_one-counter, most_common_one-none, most_common_one-occurs, ◌≡◌, refl, Option-cases,
  inl, inr,
}
use lineageiq.Effects.{ok}
use lineageiq.Taxonomy.{RootCauseCode, Severity, root_cause_of_value, severity_of_value}
use lineageiq.Database.{Session, Incident, Evidence}
use lineageiq.Agent.Types.{InvestigationContext}
use lineageiq.Agent.Context.{build_context, context_of, alert_evidence, leading_value, named_causes}

-- The leading cause is a most frequent one of the causes that the alerts name.
pub data IsLeading (alerts : List Evidence) (cause : String) : Type 0 where
  unnamed : named_causes alerts ≡ [] → cause ≡ "UNKNOWN" → IsLeading alerts cause
  most_named :
      1 ≤ count cause (named_causes alerts)
      → ((other : String) → count other (named_causes alerts) ≤ count cause (named_causes alerts))
      → IsLeading alerts cause

-- The leading value is "UNKNOWN" when no alert names a cause; otherwise it is a cause that an alert
-- names, and no cause is named more often.
pub leading_value-IsLeading : (alerts : List Evidence) → IsLeading alerts (leading_value alerts)
unfolding leading_value
leading_value-IsLeading alerts = of_counter (most_common_one (counter (named_causes alerts))) refl
  where
    of_counter :
        (o : Option (String × ℕ))
        → most_common_one (counter (named_causes alerts)) ≡ o
        → IsLeading alerts (elim o [ none ↦ "UNKNOWN" | some (cause, n) ↦ cause ])
    of_counter (some (cause, n)) h =
        most_named (most_common_one-occurs (named_causes alerts) cause n h)
          (most_common_one-counter (named_causes alerts) cause n h).1
    of_counter none h = unnamed (most_common_one-none (named_causes alerts) h) refl

-- A context that is returned: that of some leading cause and severity.
pub build_context-context_of :
    (s : Session) (incident : Incident) (most : ℕ) (ctx : InvestigationContext)
    → build_context s incident most ≡ ok ctx
    → (leading : String) × (cause : RootCauseCode) × (severity : Severity) × (ctx
        ≡ context_of s incident most leading cause severity)
unfolding build_context
build_context-context_of s incident most ctx h =
    let leading = leading_value (alert_evidence incident.incident_id s) in
    elim (Option-cases (root_cause_of_value leading)) [
      | inl e ↦ cc (rw (e, build_context) at h)
      | inr (cause, e) ↦ elim (Option-cases (severity_of_value incident.severity)) [
        | inl e' ↦ cc (rw (e, e', build_context) at h)
        | inr (severity, e') ↦ (leading, cause, severity, cc (rw (e, e', build_context) at h))
      ]
    ]

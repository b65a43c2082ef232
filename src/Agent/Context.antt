-- ===== src/Agent/Context.antt =====
-- `build_context` of backend/app/agent/orchestrator.py: what the alerts of an incident suggest.
pub mod Leading
mod Tests
use lineageiq.Common.{
  ℕ, String, Bool, true, false, not, ◌&&◌, Option, none, some, List, [], ◌∷◌, ◌++◌, map, keep,
  concat, str_eq, counter, most_common_one, if◌then◌else◌,
}
use lineageiq.Effects.{Result, ok, raised, value_error}
use lineageiq.Taxonomy.{RootCauseCode, Severity, root_cause_of_value, severity_of_value}
use lineageiq.Database.{Session, Incident, Evidence, Value, text, Payload, payload_get, value_text}
use lineageiq.Lineage.Focus.{focus_node_for}
use lineageiq.Agent.Types.{InvestigationContext}

abbrev pub meta_keys : List String
meta_keys =
    "date" ∷ "currency" ∷ "region" ∷ "table" ∷ "field" ∷ "next_date" ∷ "count" ∷ "service" ∷ []

-- The alert evidence of an incident.
abbrev pub alert_evidence : String → Session → List Evidence
alert_evidence incident_id s =
    keep (λ e. str_eq e.incident_id incident_id && str_eq e.evidence_type "alert") s.evidence

-- `e.structured_payload or {}`
abbrev pub payload_of : Evidence → Payload
payload_of e = elim e.structured_payload [ none ↦ [] | some p ↦ p ]

-- `payload.get("suspected_root_cause", "UNKNOWN")`
abbrev pub cause_of : Evidence → String
cause_of e = elim (payload_get "suspected_root_cause" (payload_of e)) [
  | none ↦ "UNKNOWN"
  | some v ↦ value_text v
]

-- The causes that the alerts name.
abbrev pub named_causes : List Evidence → List String
named_causes alerts = keep (λ c. not (str_eq c "UNKNOWN")) (map cause_of alerts)

-- `Counter(named).most_common(1)[0][0] if named else "UNKNOWN"`
unfoldable pub leading_value : List Evidence → String
leading_value alerts = elim (most_common_one (counter (named_causes alerts))) [
  | none ↦ "UNKNOWN"
  | some (cause, n) ↦ cause
]

-- `if k in payload and k not in alert_meta: alert_meta[k] = payload[k]`, for each key
copy_meta : List String → Payload → Payload → Payload
copy_meta [] payload meta = meta
copy_meta (k ∷ ks) payload meta = copy_meta ks payload (elim (payload_get k payload) [
  | none ↦ meta
  | some v ↦ elim (payload_get k meta) [ none ↦ meta ++ (k, v) ∷ [] | some old ↦ meta ]
])

-- `payload.get("suspected_root_cause") == leading_value`
abbrev suspects : String → Evidence → Bool
suspects leading e = elim (payload_get "suspected_root_cause" (payload_of e)) [
  | none ↦ false
  | some v ↦ str_eq (value_text v) leading
]

collect_meta : String → List Evidence → Payload → Payload
unfolding copy_meta
collect_meta leading [] meta = meta
collect_meta leading (e ∷ es) meta =
    collect_meta leading es
      (if suspects leading e then copy_meta meta_keys (payload_of e) meta else meta)

abbrev pub affected_system : Incident → String
affected_system incident = elim incident.primary_affected_system [
  | none ↦ "Reporting"
  | some s ↦ if str_eq s "" then "Reporting" else s
]

-- The context that is returned.
unfoldable pub context_of :
    Session → Incident → ℕ → String → RootCauseCode → Severity → InvestigationContext
unfolding collect_meta
context_of s incident max_tool_calls leading cause severity =
    let alerts = alert_evidence incident.incident_id s in
    record {
      incident_id = incident.incident_id;
      title = incident.title;
      severity = severity;
      suspected_root_cause = cause;
      primary_system = affected_system incident;
      focus_node = focus_node_for leading;
      alert_meta = collect_meta leading alerts [];
      initial_evidence_ids = map (λ e. e.evidence_id) alerts;
      collected = [];
      max_tool_calls = max_tool_calls;
    }

unfoldable pub build_context : Session → Incident → ℕ → Result InvestigationContext
unfolding context_of
build_context s incident max_tool_calls =
    let leading = leading_value (alert_evidence incident.incident_id s) in
    elim (root_cause_of_value leading) [
      | none ↦ raised (value_error (concat ("'" ∷ leading ∷ "' is not a valid RootCauseCode" ∷ [])))
      | some cause ↦ elim (severity_of_value incident.severity) [
        | none ↦
            raised
              (value_error (concat ("'" ∷ incident.severity ∷ "' is not a valid Severity" ∷ [])))
        | some severity ↦ ok (context_of s incident max_tool_calls leading cause severity)
      ]
    ]

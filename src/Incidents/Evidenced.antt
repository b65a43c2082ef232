-- ===== src/Incidents/Evidenced.antt =====
-- What `create_incident_from_alerts` of backend/app/incidents/service.py stores of the alerts.
use lineageiq.Common.{
  ℕ, ◌≤◌, String, ◌&&◌, Option, none, some, List, [], ◌∷◌, ◌++◌, map, keep, All, All-mono, length,
  ◌≡◌, refl, sym, ap, ◌∙◌, arith, str_eq, eq_refl, eq_iff, Bool-cases, inl, inr,
}
use mathlib.Core.List.{append_assoc, append-nil}
use lineageiq.Taxonomy.{Severity, root_cause_value, severity_index, max_of}
use lineageiq.Database.{Alert, Evidence, Value, text, Payload, payload_get}
use lineageiq.Environment.{Env, World}
use lineageiq.Agent.Context.{cause_of}
use lineageiq.Detection.Alerts.{AlertDto}
use lineageiq.Incidents.{
  IncidentManifest, payload_set, max_severity, persist_alerts, add_alert_evidence,
  alert_evidence_row, short_id, alert_row, add_alert, next_uuid, next_now, choose_id,
}
use lineageiq.Tools.{add_evidence}

payload_get-payload_set :
    (key : String) (value : Value) (p : Payload)
    → payload_get key (payload_set key value p) ≡ some value
unfolding payload_set
payload_get-payload_set key value [] = rw (eq_refl key) refl
payload_get-payload_set key value ((k, v) ∷ p) = elim (Bool-cases (str_eq k key)) [
  | inl e ↦ rw (e, e) refl
  | inr e ↦ rw (e, e) (payload_get-payload_set key value p)
]

max_of-left : (a b : Severity) → severity_index a ≤ severity_index (max_of a b)
max_of-left a b = ground arith

max_of-right : (a b : Severity) → severity_index b ≤ severity_index (max_of a b)
max_of-right a b = ground arith

-- Rows of the incident that are alerts, and name the causes of the alerts, in their order.
pub record IsEvidenceOf (incident_id : String) (alerts : List AlertDto) (rows : List Evidence)
    : Type 0 where
  pub all_alerts :
      keep (λ e. str_eq e.incident_id incident_id && str_eq e.evidence_type "alert") rows ≡ rows
  pub causes : map cause_of rows ≡ map (λ a. root_cause_value a.suspected_root_cause) alerts

-- The alerts are stored, one row each, and nothing else changes.
pub record IsPersisted (env : Env) (alerts : List AlertDto) (w : World) : Type 0 where
  pub rows : List Alert
  pub session :
      (persist_alerts env alerts w).1.session
      ≡ record w.session { alerts = w.session.alerts ++ rows }
  pub same : (persist_alerts env alerts w).0 ≡ rows
  pub number : length rows ≡ length alerts

pub persist_alerts-IsPersisted :
    (env : Env) (alerts : List AlertDto) (w : World) → IsPersisted env alerts w
unfolding persist_alerts
persist_alerts-IsPersisted env [] w = record {
  rows = [];
  session =
      ap (λ (l : List Alert). record w.session { alerts = l }) (sym (append-nil w.session.alerts));
  same = refl;
  number = refl;
}
persist_alerts-IsPersisted env (a ∷ others) w =
    let row = alert_row (short_id env "ALRT" w) a in
    let rest = persist_alerts-IsPersisted env others (add_alert row (next_uuid w)) in
    record {
      rows = row ∷ rest.rows;
      session =
          rest.session
          ∙ ap (λ (l : List Alert). record w.session { alerts = l })
              (append_assoc w.session.alerts (row ∷ []) rest.rows);
      same = ap (λ (l : List Alert). row ∷ l) rest.same;
      number = omega (arith, rest.number);
    }

-- The evidence rows of the alerts are stored, and nothing else changes.
pub record Evidences (env : Env) (incident_id : String) (alerts : List AlertDto) (rows : List Alert)
    (w : World) : Type 0 where
  pub evidence : List Evidence
  pub session :
      (add_alert_evidence env incident_id alerts rows w).session
      ≡ record w.session { evidence = w.session.evidence ++ evidence }
  pub of_alerts : IsEvidenceOf incident_id alerts evidence

first_of :
    (incident_id : String) (row : Evidence) (rows : List Evidence)
    → row.incident_id ≡ incident_id
    → row.evidence_type ≡ "alert"
    → keep (λ e. str_eq e.incident_id incident_id && str_eq e.evidence_type "alert") rows ≡ rows
    → keep (λ e. str_eq e.incident_id incident_id && str_eq e.evidence_type "alert") (row ∷ rows)
      ≡ row ∷ rows
first_of incident_id row rows p q e =
    rw ((eq_iff row.incident_id incident_id).1 p, (eq_iff row.evidence_type "alert").1 q)
      (ap (λ rows. row ∷ rows) e)

cause_of-alert_evidence_row :
    (evidence_id incident_id : String) (a : AlertDto) (row : Alert) (n : ℕ)
    → cause_of (alert_evidence_row evidence_id incident_id a row n)
      ≡ root_cause_value a.suspected_root_cause
cause_of-alert_evidence_row evidence_id incident_id a row n =
    rw
      (
        payload_get-payload_set "suspected_root_cause"
            (text (root_cause_value a.suspected_root_cause)) a.metadata,
        cause_of,
      )
      refl

pub add_alert_evidence-Evidences :
    (env : Env) (incident_id : String) (alerts : List AlertDto) (rows : List Alert) (w : World)
    → length rows ≡ length alerts
    → Evidences env incident_id alerts rows w
unfolding add_alert_evidence
add_alert_evidence-Evidences env incident_id [] [] w h = record {
  evidence = [];
  session =
      ap (λ (l : List Evidence). record w.session { evidence = l })
        (sym (append-nil w.session.evidence));
  of_alerts = record { all_alerts = refl; causes = refl };
}
add_alert_evidence-Evidences env incident_id [] (row ∷ rows) w h = absurd (omega arith)
add_alert_evidence-Evidences env incident_id (a ∷ others) [] w h = absurd (omega arith)
add_alert_evidence-Evidences env incident_id (a ∷ others) (row ∷ rows) w h =
    let first = alert_evidence_row (short_id env "EV" w) incident_id a row (env.clock w.readings) in
    let after = add_evidence first (next_now (next_uuid w)) in
    let rest = add_alert_evidence-Evidences env incident_id others rows after (omega arith) in
    record {
      evidence = first ∷ rest.evidence;
      session =
          rest.session
          ∙ ap (λ (l : List Evidence). record w.session { evidence = l })
              (append_assoc w.session.evidence (first ∷ []) rest.evidence);
      of_alerts = record {
        all_alerts = first_of incident_id first rest.evidence refl refl rest.of_alerts.all_alerts;
        causes =
            ap (λ (c : String). c ∷ map cause_of rest.evidence)
              (cause_of-alert_evidence_row (short_id env "EV" w) incident_id a row
                (env.clock w.readings))
            ∙ ap (λ (cs : List String). root_cause_value a.suspected_root_cause ∷ cs)
                rest.of_alerts.causes;
      };
    }

-- No alert is more severe than `max_severity`.
pub max_severity-max :
    (alerts : List AlertDto)
    → All (λ a. severity_index a.severity ≤ severity_index (max_severity alerts)) alerts
unfolding max_severity
max_severity-max [] = tt
max_severity-max (a ∷ []) = (omega arith, tt)
max_severity-max (a ∷ b ∷ others) =
    let m = max_severity (b ∷ others) in
    (
      max_of-left a.severity m,
      All-mono (λ c. severity_index c.severity ≤ severity_index m) (b ∷ others)
          (λ c h. omega (arith, max_of-right a.severity m)) (max_severity-max (b ∷ others)),
    )

pub choose_id-session :
    (env : Env) (incident_id : Option String) (manifest : Option IncidentManifest) (w : World)
    → (choose_id env incident_id manifest w).1.session ≡ w.session
choose_id-session env incident_id (some m) w = refl
choose_id-session env none none w = refl
choose_id-session env (some s) none w = elim (Bool-cases (str_eq s "")) [
  | inl e ↦ rw e refl
  | inr e ↦ rw e refl
]

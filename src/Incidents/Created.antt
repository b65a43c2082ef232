-- ===== src/Incidents/Created.antt =====
-- What `create_incident_from_alerts` of backend/app/incidents/service.py leaves behind.
use lineageiq.Common.{
  ◌≤◌, String, Bool, not, ◌&&◌, Option, none, some, List, [], ◌∷◌, ◌++◌, map, keep, All, length,
  ◌≡◌, refl, ap, ◌∙◌, str_eq, Bool-cases, inl, inr,
}
use lineageiq.Taxonomy.{RootCauseCode, Severity, root_cause_value, severity_value, severity_index}
use lineageiq.Database.{Session, Incident, Alert, Evidence, Payload}
use lineageiq.Environment.{Env, World}
use lineageiq.Agent.Context.{alert_evidence, named_causes}
use lineageiq.Detection.Alerts.{AlertDto}
use lineageiq.Incidents.{
  IncidentManifest, max_severity, persist_alerts, add_alert_evidence, add_ground_truth,
  create_incident_from_alerts, primary_cause, next_now, choose_id, add_incident, new_incident,
}
use lineageiq.Incidents.Evidenced.{
  IsEvidenceOf, persist_alerts-IsPersisted, add_alert_evidence-Evidences, max_severity-max,
  choose_id-session,
}

-- The incident is stored with its alerts and their evidence, which name the causes of the alerts,
-- and it is as severe as the most severe alert.
pub record IsCreated (alerts : List AlertDto) (before : Session) (incident : Incident)
    (after : Session) : Type 0 where
  pub incidents : after.incidents ≡ before.incidents ++ incident ∷ []
  pub alert_rows : List Alert
  pub alerts_stored : after.alerts ≡ before.alerts ++ alert_rows
  pub number : length alert_rows ≡ length alerts
  pub rows : List Evidence
  pub evidence : after.evidence ≡ before.evidence ++ rows
  pub of_alerts : IsEvidenceOf incident.incident_id alerts rows
  pub severity : Severity
  pub shown : incident.severity ≡ severity_value severity
  pub severe : All (λ a. severity_index a.severity ≤ severity_index severity) alerts

add_ground_truth-session :
    (env : Env) (dump : IncidentManifest → Payload) (incident_id : String)
    (manifest : Option IncidentManifest) (w : World)
    → ((add_ground_truth env dump incident_id manifest w).session.incidents ≡ w.session.incidents)
      × ((add_ground_truth env dump incident_id manifest w).session.alerts ≡ w.session.alerts)
      × ((add_ground_truth env dump incident_id manifest w).session.evidence ≡ w.session.evidence)
unfolding add_ground_truth
add_ground_truth-session env dump incident_id none w = (refl, refl, refl)
add_ground_truth-session env dump incident_id (some m) w = (refl, refl, refl)

-- From any alerts, manifest, id, title and cause, in any state, the incident is created: its row is
-- the last of the incidents, one alert row and one evidence row per alert are added, the evidence
-- rows name the alerts' causes in their order, and no alert is more severe than the incident.
pub create_incident_from_alerts-IsCreated :
    (env : Env) (dump : IncidentManifest → Payload) (alerts : List AlertDto)
    (manifest : Option IncidentManifest) (incident_id title : Option String)
    (primary : Option RootCauseCode) (w : World)
    → IsCreated alerts w.session
        (create_incident_from_alerts env dump alerts manifest incident_id title primary w).0
        (create_incident_from_alerts env dump alerts manifest incident_id title primary w).1.session
unfolding create_incident_from_alerts
create_incident_from_alerts-IsCreated env dump alerts manifest incident_id title primary w =
    let cause = primary_cause primary manifest alerts in
    let persisted = persist_alerts env alerts w in
    let p = persist_alerts-IsPersisted env alerts w in
    let chosen = choose_id env incident_id manifest persisted.1 in
    let kept = choose_id-session env incident_id manifest persisted.1 ∙ p.session in
    let incident = new_incident env chosen.0 title manifest cause alerts persisted.0 chosen.1 in
    let added = add_incident incident (next_now (next_now chosen.1)) in
    let e =
      add_alert_evidence-Evidences env chosen.0 alerts persisted.0 added
        (ap (λ (l : List Alert). length l) p.same ∙ p.number) in
    let truth =
      add_ground_truth-session env dump chosen.0 manifest
        (add_alert_evidence env chosen.0 alerts persisted.0 added) in
    record {
      incidents =
          truth.0
          ∙ ap (λ (s : Session). s.incidents) e.session
          ∙ ap (λ (s : Session). s.incidents ++ incident ∷ []) kept;
      alert_rows = p.rows;
      alerts_stored =
          truth.1 ∙ ap (λ (s : Session). s.alerts) e.session ∙ ap (λ (s : Session). s.alerts) kept;
      number = p.number;
      rows = e.evidence;
      evidence =
          truth.2
          ∙ ap (λ (s : Session). s.evidence) e.session
          ∙ ap (λ (s : Session). s.evidence ++ e.evidence) kept;
      of_alerts = e.of_alerts;
      severity = max_severity alerts;
      shown = refl;
      severe = max_severity-max alerts;
    }

keep-append :
    (p : Evidence → Bool) (xs ys : List Evidence) → keep p (xs ++ ys) ≡ keep p xs ++ keep p ys
keep-append p [] ys = refl
keep-append p (x ∷ xs) ys = elim (Bool-cases (p x)) [
  | inl e ↦ rw e (ap (λ (l : List Evidence). x ∷ l) (keep-append p xs ys))
  | inr e ↦ rw e (keep-append p xs ys)
]

-- Where the state had no alert evidence under the id of the created incident, the causes that the
-- agent finds named in the incident's evidence are those of the alerts, unknown ones apart, in
-- their order.
pub create_incident_from_alerts-named_causes :
    (env : Env) (dump : IncidentManifest → Payload) (alerts : List AlertDto)
    (manifest : Option IncidentManifest) (incident_id title : Option String)
    (primary : Option RootCauseCode) (w : World)
    → alert_evidence
        (create_incident_from_alerts env dump alerts manifest incident_id title primary
          w).0.incident_id
        w.session
      ≡ []
    → named_causes (
        alert_evidence
          (create_incident_from_alerts env dump alerts manifest incident_id title primary
            w).0.incident_id
          (create_incident_from_alerts env dump alerts manifest incident_id title primary
            w).1.session)
      ≡ keep
          (λ c. not (str_eq c "UNKNOWN"))
          (map (λ a. root_cause_value a.suspected_root_cause) alerts)
create_incident_from_alerts-named_causes env dump alerts manifest incident_id title primary w
      fresh =
    let r = create_incident_from_alerts env dump alerts manifest incident_id title primary w in
    let c =
      create_incident_from_alerts-IsCreated env dump alerts manifest incident_id title primary w in
    let is_alert =
      λ (e : Evidence). str_eq e.incident_id r.0.incident_id && str_eq e.evidence_type "alert" in
    ap named_causes (
      ap (keep is_alert) c.evidence
      ∙ keep-append is_alert w.session.evidence c.rows
      ∙ ap (λ (l : List Evidence). l ++ keep is_alert c.rows) fresh
      ∙ c.of_alerts.all_alerts)
    ∙ ap (keep (λ c. not (str_eq c "UNKNOWN"))) c.of_alerts.causes

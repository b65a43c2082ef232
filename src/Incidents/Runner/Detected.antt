-- ===== src/Incidents/Runner/Detected.antt =====
-- `run_and_create_incidents` of backend/app/detection/runner.py, with the run of the controls.
use lineageiq.Common.{◌+◌, true, false, List, length, ◌≡◌, refl, ap, ◌∙◌, arith, inl, inr}
use lineageiq.Database.{Incident, Payload}
use lineageiq.Environment.{Env, World}
use lineageiq.Detection.Alerts.{AlertDto}
use lineageiq.Simulator.Fx.{FxError, Checked, done, failed, is_failed, Checked-cases}
use lineageiq.Detection.Reconcile.Errors.{lacks_rates}
use lineageiq.Detection.Controls.Suite.{run_all_detectors, run_all_detectors-is_failed}
use lineageiq.Incidents.{IncidentManifest}
use lineageiq.Incidents.Runner.{create_incidents, groups_of, length-create_incidents}

-- `run_detection`
abbrev pub run_detection : Env → World → Checked (List AlertDto) × World
run_detection env w = run_all_detectors env w

-- What follows the run of the controls, unless that raised.
abbrev create_from :
    Env
    → (IncidentManifest → Payload)
    → Checked (List AlertDto) × World
    → Checked (List Incident) × World
create_from env dump (failed e, w) = (failed e, w)
create_from env dump (done alerts, w) =
    let created = create_incidents env dump alerts w in (done created.0, created.1)

unfoldable pub run_and_create_incidents :
    Env → (IncidentManifest → Payload) → World → Checked (List Incident) × World
run_and_create_incidents env dump w = create_from env dump (run_all_detectors env w)

create_from-done :
    (env : Env) (dump : IncidentManifest → Payload) (found : Checked (List AlertDto) × World)
    (alerts : List AlertDto)
    → found.0 ≡ done alerts
    → (create_from env dump found).1 ≡ (create_incidents env dump alerts found.1).1
create_from-done env dump (r, w) alerts h = rw h refl

create_from-failed :
    (env : Env) (dump : IncidentManifest → Payload) (found : Checked (List AlertDto) × World)
    (e : FxError)
    → found.0 ≡ failed e
    → (is_failed (create_from env dump found).0 ≡ true) × ((create_from env dump found).1 ≡ found.1)
create_from-failed env dump (r, w) e h = rw h (refl, refl)

-- What a detection run leaves behind where it gives alerts.
pub record IsDetected (env : Env) (dump : IncidentManifest → Payload) (w : World) : Type 0 where
  pub alerts : List AlertDto
  pub found : (run_all_detectors env w).0 ≡ done alerts
  pub alert_rows :
      length (run_and_create_incidents env dump w).1.session.alerts
      ≡ length w.session.alerts + length alerts
  pub incident_rows :
      length (run_and_create_incidents env dump w).1.session.incidents
      ≡ length w.session.incidents + length (groups_of alerts)

-- Where a rate is lacking, a detection run raises and stores nothing. Otherwise all controls give
-- their alerts, each is stored in one row, and one incident is stored per group of alerts.
pub run_and_create_incidents-IsDetected :
    (env : Env) (dump : IncidentManifest → Payload) (w : World)
    → (lacks_rates w.session ≡ true
        → (is_failed (run_and_create_incidents env dump w).0 ≡ true)
          × ((run_and_create_incidents env dump w).1.session ≡ w.session))
      × (lacks_rates w.session ≡ false → IsDetected env dump w)
unfolding run_and_create_incidents
run_and_create_incidents-IsDetected env dump w =
    let controls = run_all_detectors-is_failed env w in
    let fails = controls.1 in
    elim (Checked-cases (run_all_detectors env w).0) [
      | inr (e, f) ↦ (
        λ h.
            let kept = create_from-failed env dump (run_all_detectors env w) e f in
            (kept.0, ap (λ (v : World). v.session) kept.1 ∙ controls.0),
        λ h. absurd (ground (arith, rw f at fails)),
      )
      | inl (alerts, d) ↦
          let made = length-create_incidents env dump alerts (run_all_detectors env w).1 in
          let same = create_from-done env dump (run_all_detectors env w) alerts d in
          (
            λ h. absurd (ground (arith, rw d at fails)),
            λ h. record {
              alerts = alerts;
              found = d;
              alert_rows =
                  ap (λ (v : World). length v.session.alerts) same
                  ∙ (made.0 ∙ ap (λ s. length s.alerts + length alerts) controls.0);
              incident_rows =
                  ap (λ (v : World). length v.session.incidents) same
                  ∙ (made.1 ∙ ap (λ s. length s.incidents + length (groups_of alerts)) controls.0);
            },
          )
    ]

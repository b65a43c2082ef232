-- ===== src/Incidents/Tests.antt =====
-- An incident of two alerts.
use lineageiq.Common.{[], some, none, keep, map, not, str_eq, ◌≡◌, refl}
use lineageiq.Taxonomy.{root_cause_value}
use lineageiq.Agent.Samples.{small_env, small_session}
use lineageiq.Agent.Context.{alert_evidence, named_causes}
use lineageiq.Incidents.{create_incident_from_alerts}
use lineageiq.Incidents.Created.{
  IsCreated, create_incident_from_alerts-IsCreated, create_incident_from_alerts-named_causes,
}
use lineageiq.Incidents.Samples.{two_alerts, small_world, no_payload}

create_incident_from_alerts-IsCreated_example :
    IsCreated two_alerts small_session
      (create_incident_from_alerts small_env no_payload two_alerts none
        (some "INC-2")
        none
        none
        small_world).0
      (create_incident_from_alerts small_env no_payload two_alerts none
        (some "INC-2")
        none
        none
        small_world).1.session
create_incident_from_alerts-IsCreated_example =
    create_incident_from_alerts-IsCreated small_env no_payload two_alerts none (some "INC-2") none
      none small_world

new_id :
    alert_evidence
      (create_incident_from_alerts small_env no_payload two_alerts none
        (some "INC-2")
        none
        none
        small_world).0.incident_id
      small_session
    ≡ []
unfolding create_incident_from_alerts
new_id = refl

create_incident_from_alerts-named_causes_example :
    named_causes (
      alert_evidence
        (create_incident_from_alerts small_env no_payload two_alerts none
          (some "INC-2")
          none
          none
          small_world).0.incident_id
        (create_incident_from_alerts small_env no_payload two_alerts none
          (some "INC-2")
          none
          none
          small_world).1.session)
    ≡ keep
        (λ c. not (str_eq c "UNKNOWN"))
        (map (λ a. root_cause_value a.suspected_root_cause) two_alerts)
create_incident_from_alerts-named_causes_example =
    create_incident_from_alerts-named_causes small_env no_payload two_alerts none (some "INC-2")
      none none small_world new_id

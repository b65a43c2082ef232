-- ===== src/Incidents/Runner/Tests.antt =====
-- The grouping of no alerts and of two.
use lineageiq.Common.{length, true, false, ◌+◌, ◌≡◌}
use lineageiq.Incidents.Samples.{two_alerts, small_world, no_payload}
use lineageiq.Agent.Samples.{small_env}
use lineageiq.Detection.Samples.{trade_world}
use lineageiq.Detection.Reconcile.Errors.{lacks_rates}
use lineageiq.Simulator.Fx.{is_failed}
use lineageiq.Incidents.Runner.Detected.{
  IsDetected, run_and_create_incidents, run_and_create_incidents-IsDetected,
}
use lineageiq.Incidents.Runner.{create_incidents, groups_of, length-create_incidents}

length-create_incidents_example :
    (length (create_incidents small_env no_payload two_alerts small_world).1.session.alerts
      ≡ length small_world.session.alerts + length two_alerts)
    × (length (create_incidents small_env no_payload two_alerts small_world).1.session.incidents
        ≡ length small_world.session.incidents + length (groups_of two_alerts))
length-create_incidents_example =
    length-create_incidents small_env no_payload two_alerts small_world

run_and_create_incidents-IsDetected_example :
    (lacks_rates trade_world.session ≡ true
      → (is_failed (run_and_create_incidents small_env no_payload trade_world).0 ≡ true)
        × ((run_and_create_incidents small_env no_payload trade_world).1.session
            ≡ trade_world.session))
    × (lacks_rates trade_world.session ≡ false → IsDetected small_env no_payload trade_world)
run_and_create_incidents-IsDetected_example =
    run_and_create_incidents-IsDetected small_env no_payload trade_world

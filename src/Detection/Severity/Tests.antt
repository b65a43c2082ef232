-- ===== src/Detection/Severity/Tests.antt =====
-- The severity of concrete incidents.
use lineageiq.Common.{◌≡◌, refl, ◌≤◌, ◌⊎◌, ◌≤ℤ◌, arith}
use lineageiq.Taxonomy.{IncidentType, Severity, severity_index}
use lineageiq.Detection.Severity.{compute_severity, units}
use lineageiq.Detection.Severity.Bounds.{compute_severity_mono, compute_severity-critical}

-- The plan of a stale rate.
stale_rate_plan : compute_severity 50 (units 250_000) 1 IncidentType.stale_fx_rate ≡ Severity.high
unfolding compute_severity
stale_rate_plan = refl

compute_severity_mono_example :
    severity_index (compute_severity 5 (units 10) 1 IncidentType.partial_load)
    ≤ severity_index (compute_severity 50 (units 30_000) 2 IncidentType.partial_load)
compute_severity_mono_example =
    compute_severity_mono 5 50 (units 10) (units 30_000) 1 2 IncidentType.partial_load (omega arith)
      (omega arith) (omega arith)

large_incident :
    compute_severity 120 (units 250_000) 1 IncidentType.stale_fx_rate ≡ Severity.critical
unfolding compute_severity
large_incident = refl

compute_severity-critical_example :
    (10 ≤ 120) × (units 25_000 ≤ℤ units 250_000) × ((100 ≤ 120) ⊎ (units 100_000 ≤ℤ units 250_000))
compute_severity-critical_example =
    compute_severity-critical 120 (units 250_000) 1 IncidentType.stale_fx_rate large_incident

-- ===== src/Detection/Severity.antt =====
-- backend/app/detection/severity.py: the severity of an incident from its business impact.
-- Money is an integer number of ten-thousandths, the scale of NUMERIC(18, 4).
pub mod Bounds
mod Tests
use lineageiq.Common.{ℕ, ◌+◌, ◌*◌, ℤ, pos, leb, leb_ℤ, ◌==◌, if◌then◌else◌}
use lineageiq.Taxonomy.{IncidentType, Severity}

-- `_BASE_WEIGHT.get(incident_type, 0)`
base_weight : IncidentType → ℕ
base_weight IncidentType.stale_fx_rate = 1
base_weight IncidentType.schema_change = 1
base_weight IncidentType.incorrect_aggregation = 1
base_weight IncidentType.upstream_api_failure = 1
base_weight IncidentType.timezone_conversion_error = 1
base_weight IncidentType.partial_load = 1
base_weight _ = 0

-- Whole units of money.
abbrev pub units : ℕ → ℤ
units n = pos (n * 10_000)

exposure_points : ℤ → ℕ
exposure_points exposure =
    if leb_ℤ (units 100_000) exposure then 2 else if leb_ℤ (units 25_000) exposure then 1 else 0

record_points : ℕ → ℕ
record_points affected = if leb 100 affected then 2 else if leb 10 affected then 1 else 0

report_points : ℕ → ℕ
report_points downstream = if leb 2 downstream then 1 else 0

-- The thresholds at the end of `compute_severity`.
level : ℕ → Severity
level score =
    if leb 5 score
    then Severity.critical
    else if leb 3 score
    then Severity.high
    else if score == 2
    then Severity.medium
    else Severity.low

score : ℕ → ℤ → ℕ → IncidentType → ℕ
score affected exposure downstream kind =
    exposure_points exposure + record_points affected + report_points downstream + base_weight kind

unfoldable pub compute_severity : ℕ → ℤ → ℕ → IncidentType → Severity
unfolding level score base_weight exposure_points record_points report_points
compute_severity affected exposure downstream kind = level (score affected exposure downstream kind)

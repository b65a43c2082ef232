-- ===== src/Detection/Severity/Bounds.antt =====
-- How the severity depends on the impact.
use lineageiq.Common.{ℕ, ◌≤◌, ℤ, ◌≤ℤ◌, ◌≡◌, ◌⊎◌, arith}
use lineageiq.Taxonomy.{IncidentType, Severity, severity_index}
use lineageiq.Detection.Severity.{
  compute_severity, score, level, base_weight, exposure_points, record_points, report_points, units,
}

exposure_points_mono : (a b : ℤ) → a ≤ℤ b → exposure_points a ≤ exposure_points b
unfolding exposure_points
exposure_points_mono a b h = ground arith

record_points_mono : (a b : ℕ) → a ≤ b → record_points a ≤ record_points b
unfolding record_points
record_points_mono a b h = ground arith

report_points_mono : (a b : ℕ) → a ≤ b → report_points a ≤ report_points b
unfolding report_points
report_points_mono a b h = ground arith

level_mono : (a b : ℕ) → a ≤ b → severity_index (level a) ≤ severity_index (level b)
unfolding level
level_mono a b h = ground arith

base_weight-le : (kind : IncidentType) → base_weight kind ≤ 1
unfolding base_weight
base_weight-le IncidentType.stale_fx_rate = omega arith
base_weight-le _ = omega arith

score_mono :
    (records records' : ℕ) (exposure exposure' : ℤ) (reports reports' : ℕ) (kind : IncidentType)
    → records ≤ records'
    → exposure ≤ℤ exposure'
    → reports ≤ reports'
    → score records exposure reports kind ≤ score records' exposure' reports' kind
unfolding score
score_mono records records' exposure exposure' reports reports' kind h k l = omega (
  arith,
  record_points_mono records records' h,
  exposure_points_mono exposure exposure' k,
  report_points_mono reports reports' l,
)

-- The severity never falls when the impact of an incident of one type grows: more affected
-- records, a larger exposure and more downstream reports give the same severity or a higher one.
pub compute_severity_mono :
    (records records' : ℕ) (exposure exposure' : ℤ) (reports reports' : ℕ) (kind : IncidentType)
    → records ≤ records'
    → exposure ≤ℤ exposure'
    → reports ≤ reports'
    → severity_index (compute_severity records exposure reports kind)
      ≤ severity_index (compute_severity records' exposure' reports' kind)
unfolding compute_severity
compute_severity_mono records records' exposure exposure' reports reports' kind h k l =
    level_mono (score records exposure reports kind) (score records' exposure' reports' kind)
      (score_mono records records' exposure exposure' reports reports' kind h k l)

level-critical : (n : ℕ) → level n ≡ Severity.critical → 5 ≤ n
unfolding level
level-critical n h = ground arith

score-ge_five :
    (records : ℕ) (exposure : ℤ) (reports : ℕ) (kind : IncidentType)
    → 5 ≤ score records exposure reports kind
    → (10 ≤ records) × (units 25_000 ≤ℤ exposure) × ((100 ≤ records) ⊎ (units 100_000 ≤ℤ exposure))
unfolding score exposure_points record_points report_points
score-ge_five records exposure reports kind h = ground (arith, base_weight-le kind)

-- A critical incident has at least 10 affected records and at least 25,000 of exposure, and it
-- reaches the upper threshold of one of them: 100 records or 100,000 of exposure.
pub compute_severity-critical :
    (records : ℕ) (exposure : ℤ) (reports : ℕ) (kind : IncidentType)
    → compute_severity records exposure reports kind ≡ Severity.critical
    → (10 ≤ records) × (units 25_000 ≤ℤ exposure) × ((100 ≤ records) ⊎ (units 100_000 ≤ℤ exposure))
compute_severity-critical records exposure reports kind h =
    score-ge_five records exposure reports kind
      (level-critical (score records exposure reports kind) (unfold compute_severity in h))

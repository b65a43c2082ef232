-- ===== src/Incidents/Injected/Delays.antt =====
-- The day without a report that `DelayedPipelineInjector` makes is found by
-- `DelayedPipelineDetector`.
use lineageiq.Common.{ℕ, ◌==◌, not, ◌&&◌, ◌||◌, List, [], ◌∷◌, map, keep, ◌≡◌, refl, arith}
use lineageiq.Effects.{ok}
use lineageiq.Database.{Session, DailyRevenueReport}
use lineageiq.Environment.{Env}
use lineageiq.Detection.Controls.Days.{has_day, order_days}
use lineageiq.Detection.Controls.Runs.{unreported_days, has_day-unreported_days}
use lineageiq.Incidents.{IncidentManifest}
use lineageiq.Incidents.Injectors.Params.{date_param}
use lineageiq.Incidents.Injectors.Delays.{apply_delay, delay_day}

has_day-other_reports :
    (e d : ℕ) (rs : List DailyRevenueReport)
    → has_day e (map (λ r. r.report_date) (keep (λ r. not (r.report_date == d)) rs))
      ≡ (not (e == d) && has_day e (map (λ r. r.report_date) rs))
has_day-other_reports e d [] = ground arith
has_day-other_reports e d (r ∷ rs) = ground (arith, has_day-other_reports e d rs)

-- When the manifest names a date, the injection succeeds, and the days that the control then alerts
-- for a missing report are those of before, and this date where it has orders.
pub apply_delay-unreported :
    (env : Env) (manifest : IncidentManifest) (s : Session) (d e : ℕ)
    → date_param env "date" manifest.params ≡ ok d
    → ((apply_delay env manifest s).0 ≡ ok (env.isoformat d ∷ []))
      × (has_day e (unreported_days (apply_delay env manifest s).1)
          ≡ (has_day e (unreported_days s) || ((e == d) && has_day e (order_days s))))
unfolding apply_delay
apply_delay-unreported env manifest s d e h = rw h (
  refl,
  ground (
    arith,
    has_day-unreported_days (delay_day env manifest.manifest_id d s) e,
    has_day-unreported_days s e,
    has_day-other_reports e d s.daily_revenue_report,
  ),
)

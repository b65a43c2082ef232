-- ===== src/Detection/Controls/Runs.antt =====
-- `DelayedPipelineDetector` of backend/app/detection/detectors.py: slow runs, and days of orders
-- without a report. A time is in microseconds, three hours are 10_800_000_000 of them.
use lineageiq.Common.{
  ℕ, ◌+◌, String, Bool, false, not, ◌&&◌, ◌||◌, ℤ, pos, sub_ℕ, eq_ℤ, Option, none, some, List, [],
  ◌∷◌, ◌++◌, map, keep, str_eq, ltb, ◌==◌, ◌≡◌, refl, arith, if◌then◌else◌, Bool-cases, inl, inr,
  &&-left,
}
use lineageiq.Taxonomy.{RootCauseCode, Severity}
use lineageiq.Database.{Session, PipelineRun, DailyRevenueReport, text}
use lineageiq.Environment.{Env}
use lineageiq.Detection.Reconcile.DayKeys.{same_key}
use lineageiq.Detection.Reconcile.{load_reports, report_key, set_report, set_reports}
use lineageiq.Detection.Controls.{Draft}
use lineageiq.Detection.Controls.Days.{has_day, days_of, order_days, has_day-keep, has_day-days_of}

-- `duration_h`, in microseconds
abbrev pub duration_of : PipelineRun → Option ℤ
duration_of r = elim r.completed_at [
  | none ↦ none
  | some completed ↦ some (sub_ℕ completed r.started_at)
]

abbrev pub exceeds_hours : PipelineRun → Bool
exceeds_hours r = elim r.completed_at [
  | none ↦ false
  | some completed ↦ ltb (r.started_at + 10_800_000_000) completed
]

abbrev pub is_late : PipelineRun → Bool
is_late r = str_eq r.status "delayed" || str_eq r.status "running" || exceeds_hours r

-- `f"{duration_h:.1f}" if duration_h else run.status`
abbrev duration_text : Env → PipelineRun → String
duration_text env r = elim (duration_of r) [
  | none ↦ r.status
  | some d ↦ if eq_ℤ d (pos 0) then r.status else env.hours_text d
]

abbrev late_draft : Env → PipelineRun → Draft
late_draft env r detected_at = record {
  detector_name = "delayed_pipeline_control";
  entity_type = "pipeline_run";
  entity_id = r.pipeline_run_id;
  metric_name = "run_duration_hours";
  observed_value = some (duration_text env r);
  expected_value = some "<3";
  anomaly_score = some 9000;
  severity = Severity.medium;
  suspected_root_cause = RootCauseCode.delayed_pipeline;
  detected_at = detected_at;
  metadata = ("pipeline_id", text r.pipeline_id) ∷ ("status", text r.status) ∷ [];
}

abbrev missing_report_draft : Env → ℕ → Draft
missing_report_draft env d detected_at = record {
  detector_name = "delayed_pipeline_control";
  entity_type = "daily_revenue_report";
  entity_id = env.isoformat d;
  metric_name = "report_present";
  observed_value = some "missing";
  expected_value = some "present";
  anomaly_score = some 9500;
  severity = Severity.medium;
  suspected_root_cause = RootCauseCode.delayed_pipeline;
  detected_at = detected_at;
  metadata = ("date", text (env.isoformat d)) ∷ [];
}

abbrev pub report_days : Session → List ℕ
report_days s = map (λ r. r.report_date) (load_reports s)

-- `sorted(source_dates - report_dates)`
unfoldable pub unreported_days : Session → List ℕ
unreported_days s = keep (λ d. not (has_day d (report_days s))) (days_of (order_days s))

unfoldable pub delayed_pipelines : Env → Session → List Draft
unfolding unreported_days
delayed_pipelines env s =
    map (late_draft env) (keep is_late s.pipeline_runs)
    ++ map (missing_report_draft env) (unreported_days s)

has_day-set_report :
    (d : ℕ) (r : DailyRevenueReport) (rs : List DailyRevenueReport)
    → has_day d (map (λ r. r.report_date) (set_report r rs))
      ≡ (d == r.report_date || has_day d (map (λ r. r.report_date) rs))
has_day-set_report d r [] = refl
has_day-set_report d r (x ∷ xs) = elim (Bool-cases (same_key (report_key x) (report_key r))) [
  | inl e ↦
      rw e (ground (arith, &&-left (x.report_date == r.report_date) (str_eq x.region r.region) e))
  | inr e ↦ rw e (ground (arith, has_day-set_report d r xs))
]

has_day-set_reports :
    (d : ℕ) (known rs : List DailyRevenueReport)
    → has_day d (map (λ r. r.report_date) (set_reports known rs))
      ≡ (has_day d (map (λ r. r.report_date) known) || has_day d (map (λ r. r.report_date) rs))
has_day-set_reports d known [] = ground arith
has_day-set_reports d known (r ∷ rs) =
    ground (arith, has_day-set_reports d (set_report r known) rs, has_day-set_report d r known)

-- The days alerted for a missing report are the days of the orders that no report row is of.
pub has_day-unreported_days :
    (s : Session) (d : ℕ)
    → has_day d (unreported_days s) ≡ (
        has_day d (order_days s)
        && not (has_day d (map (λ r. r.report_date) s.daily_revenue_report)))
unfolding unreported_days load_reports
has_day-unreported_days s d = ground (
  arith,
  has_day-keep d (λ d. not (has_day d (report_days s))) (days_of (order_days s)),
  has_day-days_of d (order_days s),
  has_day-set_reports d [] s.daily_revenue_report,
)

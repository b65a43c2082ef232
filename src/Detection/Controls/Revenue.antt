-- ===== src/Detection/Controls/Revenue.antt =====
-- `RevenueReconciliationDetector` of backend/app/detection/detectors.py.
use lineageiq.Common.{
  Bool, false, not, ◌&&◌, ◌||◌, eq_ℤ, none, some, List, [], ◌∷◌, map, keep, concat, ◌==◌, ◌≡◌, refl,
  ap, arith, if◌then◌else◌, Bool-cases, inl, inr, ◌∙◌,
}
use lineageiq.Taxonomy.{RootCauseCode, Severity}
use lineageiq.Database.{Session, DailyRevenueReport, text, int}
use lineageiq.Environment.{Env}
use lineageiq.Simulator.Fx.{Checked, done, Checked-cases, ◌>>=◌}
use lineageiq.Detection.Reconcile.DayKeys.{DayKey, Dict, dict_get}
use lineageiq.Detection.Reconcile.Totals.{has_source, totals_of, recompute_from_source-totals_of}
use lineageiq.Detection.Reconcile.Errors.{lacks_rates, recompute_from_source-is_failed}
use lineageiq.Detection.Reconcile.{Recomputed, recompute_from_source, load_reports, report_key}
use lineageiq.Detection.Controls.{Draft}

abbrev pub disagrees : DailyRevenueReport → Recomputed → Bool
disagrees report r =
    not (eq_ℤ report.gross_revenue r.gross)
    || not (eq_ℤ report.refund_total r.refund_total)
    || not (report.order_count == r.order_count)
    || not (report.payment_count == r.payment_count)

-- The reports, in order, that are alerted, each with what was recomputed for it.
unfoldable pub mismatches :
    Dict Recomputed → List DailyRevenueReport → List (DailyRevenueReport × Recomputed)
mismatches recomputed [] = []
mismatches recomputed (report ∷ reports) =
    let rest = mismatches recomputed reports in
    elim (dict_get (report_key report) recomputed) [
      | none ↦ rest
      | some r ↦ if disagrees report r then (report, r) ∷ rest else rest
    ]

abbrev pub mismatch_draft : Env → DailyRevenueReport × Recomputed → Draft
mismatch_draft env (report, r) detected_at = record {
  detector_name = "revenue_reconciliation_control";
  entity_type = "daily_revenue_report";
  entity_id = concat (report.region ∷ ":" ∷ env.isoformat report.report_date ∷ []);
  metric_name = "revenue_reconciliation";
  observed_value = some (env.money_text report.gross_revenue);
  expected_value = some (env.money_text r.gross);
  anomaly_score = some 8000;
  severity = Severity.medium;
  suspected_root_cause = RootCauseCode.unknown;
  detected_at = detected_at;
  metadata =
      ("region", text report.region)
      ∷ ("date", text (env.isoformat report.report_date))
      ∷ ("report_orders", int report.order_count)
      ∷ ("source_orders", int r.order_count)
      ∷ [];
}

unfoldable pub revenue_mismatches : Env → Session → Checked (List Draft)
unfolding mismatches
revenue_mismatches env s = recompute_from_source s >>= λ recomputed.
    done (map (mismatch_draft env) (mismatches recomputed (load_reports s)))

-- A report shows the totals.
abbrev pub matches_totals : DailyRevenueReport → Recomputed → Bool
matches_totals report t =
    (eq_ℤ report.gross_revenue t.gross && eq_ℤ report.refund_total t.refund_total)
    && ((report.order_count == t.order_count) && (report.payment_count == t.payment_count))

disagrees-matches_totals :
    (report : DailyRevenueReport) (t : Recomputed)
    → disagrees report t ≡ not (matches_totals report t)
disagrees-matches_totals report t = ground arith

-- A report with source rows whose totals it does not show.
abbrev pub is_mismatch : Session → DailyRevenueReport → Bool
is_mismatch s report =
    has_source s (report_key report)
    && not (matches_totals report (totals_of s (report_key report)))

mismatches-keep :
    (s : Session) (recomputed : Dict Recomputed) (reports : List DailyRevenueReport)
    → ((key : DayKey)
        → dict_get key recomputed ≡ (if has_source s key then some (totals_of s key) else none))
    → mismatches recomputed reports
      ≡ map (λ r. (r, totals_of s (report_key r))) (keep (is_mismatch s) reports)
unfolding mismatches
mismatches-keep s recomputed [] h = refl
mismatches-keep s recomputed (r ∷ reports) h =
    let rest = mismatches-keep s recomputed reports h in
    let key = report_key r in
    elim (Bool-cases (has_source s key)) [
      | inr n ↦
          let found : dict_get key recomputed ≡ none = h key ∙ rw n refl in
          rw (found, n, mismatches) rest
      | inl y ↦
          let found : dict_get key recomputed ≡ some (totals_of s key) = h key ∙ rw y refl in
          elim (Bool-cases (not (matches_totals r (totals_of s key)))) [
            | inl d ↦
                rw (found, y, disagrees-matches_totals r (totals_of s key) ∙ d, d, mismatches)
                  (ap (λ es. (r, totals_of s key) ∷ es) rest)
            | inr d ↦
                rw (found, y, disagrees-matches_totals r (totals_of s key) ∙ d, d, mismatches) rest
          ]
    ]

-- Where no rate is lacking, the reconciliation alerts, in order, exactly the reports of a date and
-- region with source rows that differ from these rows' totals in the gross revenue, the refunds,
-- the number of orders or the number of payments.
pub revenue_mismatches-is_mismatch :
    (env : Env) (s : Session)
    → lacks_rates s ≡ false
    → revenue_mismatches env s
      ≡ done (
          map
            (mismatch_draft env)
            (map (λ r. (r, totals_of s (report_key r))) (keep (is_mismatch s) (load_reports s))))
unfolding revenue_mismatches
revenue_mismatches-is_mismatch env s h = elim (Checked-cases (recompute_from_source s)) [
  | inr (e, f) ↦
      let fails = recompute_from_source-is_failed s in absurd (ground (arith, rw f at fails))
  | inl (recomputed, d) ↦
      rw
        (
          d,
          mismatches-keep s recomputed (load_reports s)
              (λ key. recompute_from_source-totals_of s key recomputed d),
        )
        refl
]

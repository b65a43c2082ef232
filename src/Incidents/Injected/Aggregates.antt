-- ===== src/Incidents/Injected/Aggregates.antt =====
-- The report that `IncorrectAggregationInjector` falsifies is found by
-- `IncorrectAggregationDetector`.
use lineageiq.Common.{
  ℕ, ◌==◌, ◌&&◌, true, false, ℤ, pos, negsuc, ◌+ℤ◌, ◌-ℤ◌, eq_ℤ, ltb_ℤ, String, str_eq, some, List,
  [], ◌∷◌, map, ◌≡◌, refl, sym, ap, ◌∙◌, arith, Bool-cases, inl, inr,
}
use lineageiq.Effects.{ok}
use lineageiq.Database.{Session, DailyRevenueReport}
use lineageiq.Environment.{Env}
use lineageiq.Detection.Reconcile.DayKeys.{DayKey, same_key}
use lineageiq.Detection.Reconcile.{load_reports, report_at, report_key, set_report, set_reports}
use lineageiq.Detection.Controls.{is_inconsistent}
use lineageiq.Incidents.{IncidentManifest}
use lineageiq.Incidents.Injectors.Params.{text_param, date_param}
use lineageiq.Incidents.Injectors.Aggregates.{apply_aggregation, flip_refunds}

flip_refunds-key :
    (d : ℕ) (region : String) (r : DailyRevenueReport)
    → report_key (flip_refunds d region r) ≡ report_key r
flip_refunds-key d region r = elim (Bool-cases ((r.report_date == d) && str_eq r.region region)) [
  | inl e ↦ rw e refl
  | inr e ↦ rw e refl
]

same_key-flip :
    (d : ℕ) (region : String) (x r : DailyRevenueReport)
    → same_key (report_key (flip_refunds d region x)) (report_key (flip_refunds d region r))
      ≡ same_key (report_key x) (report_key r)
same_key-flip d region x r =
    ap (λ k. same_key k (report_key (flip_refunds d region r))) (flip_refunds-key d region x)
    ∙ ap (λ k. same_key (report_key x) k) (flip_refunds-key d region r)

set_report-flip :
    (d : ℕ) (region : String) (r : DailyRevenueReport) (rs : List DailyRevenueReport)
    → set_report (flip_refunds d region r) (map (flip_refunds d region) rs)
      ≡ map (flip_refunds d region) (set_report r rs)
set_report-flip d region r [] = refl
set_report-flip d region r (x ∷ rs) = elim (Bool-cases (same_key (report_key x) (report_key r))) [
  | inl e ↦ rw (same_key-flip d region x r ∙ e, e) refl
  | inr e ↦
      rw (same_key-flip d region x r ∙ e, e)
        (ap (λ rs. flip_refunds d region x ∷ rs) (set_report-flip d region r rs))
]

shifted_sum : (g t : ℤ) → ltb_ℤ (pos 0) t ≡ true → eq_ℤ (g +ℤ t) (g -ℤ t) ≡ false
unfolding ◌+ℤ◌ ◌-ℤ◌
shifted_sum (pos g) (pos t) h = ground arith
shifted_sum (negsuc g) (pos t) h = ground arith
shifted_sum g (negsuc t) h = ground arith

set_reports-flip :
    (d : ℕ) (region : String) (known rs : List DailyRevenueReport)
    → set_reports (map (flip_refunds d region) known) (map (flip_refunds d region) rs)
      ≡ map (flip_refunds d region) (set_reports known rs)
set_reports-flip d region known [] = refl
set_reports-flip d region known (r ∷ rs) =
    ap (λ known. set_reports known (map (flip_refunds d region) rs))
      (set_report-flip d region r known)
    ∙ set_reports-flip d region (set_report r known) rs

report_at-flip :
    (d : ℕ) (region : String) (key : DayKey) (rs : List DailyRevenueReport) (r : DailyRevenueReport)
    → report_at key rs ≡ some r
    → report_at key (map (flip_refunds d region) rs) ≡ some (flip_refunds d region r)
report_at-flip d region key [] r h = cc
report_at-flip d region key (x ∷ rs) r h =
    let flipped = ap (λ k. same_key k key) (flip_refunds-key d region x) in
    elim (Bool-cases (same_key (report_key x) key)) [
      | inl e ↦
          let found : some x ≡ some r = rw e at h in
          let same : x ≡ r = cc in
          rw (flipped ∙ e) (ap (λ (r : DailyRevenueReport). some (flip_refunds d region r)) same)
      | inr e ↦ rw (flipped ∙ e) (report_at-flip d region key rs r (rw e at h))
    ]

report_at-key :
    (key : DayKey) (rs : List DailyRevenueReport) (r : DailyRevenueReport)
    → report_at key rs ≡ some r
    → same_key (report_key r) key ≡ true
report_at-key key [] r h = cc
report_at-key key (x ∷ rs) r h = elim (Bool-cases (same_key (report_key x) key)) [
  | inl e ↦
      let found : some x ≡ some r = rw e at h in
      let same : x ≡ r = cc in
      sym (ap (λ (r : DailyRevenueReport). same_key (report_key r) key) same) ∙ e
  | inr e ↦ report_at-key key rs r (rw e at h)
]

-- When the manifest names the date and the region of a report with refunds, the report is
-- inconsistent after the injection, so that the control alerts it: its net revenue is the gross
-- revenue plus the refunds.
pub apply_aggregation-is_inconsistent :
    (env : Env) (manifest : IncidentManifest) (s : Session) (d : ℕ) (region : String)
    (r : DailyRevenueReport)
    → date_param env "date" manifest.params ≡ ok d
    → text_param "region" manifest.params ≡ ok region
    → report_at (d, region) (load_reports s) ≡ some r
    → ltb_ℤ (pos 0) r.refund_total ≡ true
    → (report_at (d, region) (load_reports (apply_aggregation env manifest s).1)
        ≡ some (record r { net_revenue = r.gross_revenue +ℤ r.refund_total }))
      × (is_inconsistent (record r { net_revenue = r.gross_revenue +ℤ r.refund_total }) ≡ true)
unfolding apply_aggregation load_reports
apply_aggregation-is_inconsistent env manifest s d region r e f h p =
    let flipped : flip_refunds d region r
        ≡ record r { net_revenue = r.gross_revenue +ℤ r.refund_total } =
      rw (report_at-key (d, region) (load_reports s) r h) refl in
    rw (e, f)
      (
        ap (report_at (d, region)) (set_reports-flip d region [] s.daily_revenue_report)
            ∙ (report_at-flip d region (d, region) (load_reports s) r h
                ∙ ap (λ (r : DailyRevenueReport). some r) flipped),
        rw (shifted_sum r.gross_revenue r.refund_total p) refl,
      )

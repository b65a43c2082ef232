-- ===== src/Detection/Controls/Shifts.antt =====
-- `TimezoneShiftDetector` of backend/app/detection/detectors.py.
use lineageiq.Common.{
  ℕ, suc, ◌+◌, ◌-◌, ◌/◌, ℤ, pos, negsuc, abs, sub_ℕ, ltb_ℤ, String, Bool, ◌&&◌, none, some, List,
  [], ◌∷◌, ◌++◌, concat, show, str_eq, leb, ltb, ◌==◌, if◌then◌else◌,
}
use lineageiq.Taxonomy.{RootCauseCode, Severity}
use lineageiq.Database.{Session, DailyRevenueReport, text}
use lineageiq.Environment.{Env}
use lineageiq.Simulator.Fx.{Checked, done, ◌>>=◌}
use lineageiq.Detection.Reconcile.DayKeys.{Dict}
use lineageiq.Detection.Reconcile.{Recomputed, recompute_from_source, load_reports, report_at}
use lineageiq.Detection.Controls.{Draft}

-- A region's differences by date.
abbrev pub RegionDiffs : Type 0
RegionDiffs = String × List (ℕ × ℤ)

-- `diffs[region][d] = diff`
abbrev pub add_diff : String → ℕ × ℤ → List RegionDiffs → List RegionDiffs
add_diff region e [] = (region, e ∷ []) ∷ []
add_diff region e (g ∷ gs) =
    if str_eq g.0 region then (g.0, g.1 ++ e ∷ []) ∷ gs else g ∷ add_diff region e gs

abbrev pub diffs_of :
    List DailyRevenueReport → List RegionDiffs → Dict Recomputed → List RegionDiffs
diffs_of reports diffs [] = diffs
diffs_of reports diffs ((key, r) ∷ rs) = elim (report_at key reports) [
  | none ↦ diffs_of reports diffs rs
  | some report ↦
      diffs_of reports (add_diff key.1 (key.0, sub_ℕ report.order_count r.order_count) diffs) rs
]

-- `sorted(by_date)`, with the differences
abbrev pub insert_diff : ℕ × ℤ → List (ℕ × ℤ) → List (ℕ × ℤ)
insert_diff e [] = e ∷ []
insert_diff e (x ∷ xs) = if leb e.0 x.0 then e ∷ x ∷ xs else x ∷ insert_diff e xs

abbrev pub sort_diffs : List (ℕ × ℤ) → List (ℕ × ℤ)
sort_diffs [] = []
sort_diffs (e ∷ es) = insert_diff e (sort_diffs es)

-- `max(2, int(0.5 * abs(a)))`
abbrev tolerance : ℤ → ℕ
tolerance a = if ltb 2 (abs a / 2) then abs a / 2 else 2

abbrev pub is_shift : ℤ → ℤ → Bool
is_shift a b =
    ltb_ℤ (pos 0) a && (ltb_ℤ b (pos 0) && leb (abs a - abs b + (abs b - abs a)) (tolerance a))

-- A number in an f-string.
abbrev int_text : ℤ → String
int_text (pos n) = show n
int_text (negsuc n) = concat ("-" ∷ show (suc n) ∷ [])

abbrev shift_draft : Env → String → ℕ × ℤ → ℕ × ℤ → Draft
shift_draft env region e f detected_at = record {
  detector_name = "timezone_shift_control";
  entity_type = "daily_revenue_report";
  entity_id = concat (region ∷ ":" ∷ env.isoformat e.0 ∷ []);
  metric_name = "order_count_shift";
  observed_value = some (concat (int_text e.1 ∷ "/" ∷ int_text f.1 ∷ []));
  expected_value = some "0/0";
  anomaly_score = some 8500;
  severity = Severity.medium;
  suspected_root_cause = RootCauseCode.timezone_conversion_error;
  detected_at = detected_at;
  metadata =
      ("region", text region)
      ∷ ("date", text (env.isoformat e.0))
      ∷ ("next_date", text (env.isoformat f.0))
      ∷ [];
}

unfoldable pub region_shifts : Env → String → List (ℕ × ℤ) → List Draft
region_shifts env region [] = []
region_shifts env region (e ∷ []) = []
region_shifts env region (e ∷ f ∷ es) =
    let rest = region_shifts env region (f ∷ es) in
    if (f.0 == e.0 + 1) && is_shift e.1 f.1 then shift_draft env region e f ∷ rest else rest

abbrev shift_drafts : Env → List RegionDiffs → List Draft
shift_drafts env [] = []
shift_drafts env (g ∷ gs) = region_shifts env g.0 (sort_diffs g.1) ++ shift_drafts env gs

unfoldable pub shifted_days : Env → Session → Checked (List Draft)
unfolding region_shifts
shifted_days env s = recompute_from_source s >>= λ recomputed.
    done (shift_drafts env (diffs_of (load_reports s) [] recomputed))

-- ===== src/Simulator/Validator/Silent.antt =====
-- On a baseline that passes the checks of backend/app/simulator/validator.py, controls of
-- backend/app/detection/detectors.py are silent.
use lineageiq.Common.{
  ℕ, true, false, not, String, List, [], ◌∷◌, ◌++◌, map, keep, length, ◌≡◌, refl, ap, ◌∙◌, arith,
  Option-cases, inl, inr,
}
use lineageiq.Database.{Session, Customer, DailyRevenueReport}
use lineageiq.Environment.{Env}
use lineageiq.Simulator.Fx.{done}
use lineageiq.Detection.Reconcile.{
  Sums, recomputed_at, summed_keys, recompute_from_source, load_reports,
}
use lineageiq.Detection.Controls.{
  duplicate_payments, repeated_keys, missing_mappings, is_unmapped, incorrect_aggregations,
  is_inconsistent, duplicate_draft, aggregation_draft,
}
use lineageiq.Detection.Controls.Revenue.{revenue_mismatches, mismatch_draft}
use lineageiq.Simulator.Validator.{
  CheckResult, valid, validate_clean_baseline, report_passed, source_sums, reconciles, row_checks,
  lacks_mapping, duplicate_keys, report_check,
}
use lineageiq.Simulator.Validator.SourceSums.{Validated-cases, source_sums-summed}
use lineageiq.Simulator.Validator.ReportCheck.{
  nil_of_length, all-keep_none, all_double_negated, keep-absent, all-set_reports,
  reconciles-consistent, dict_get-found, mismatches-none,
}

-- The checks that the controls depend on, as far as they pass.
record Passes (s : Session) (sums : Sums) : Type 0 where
  mapped : length (keep (lacks_mapping s) s.customers) ≡ 0
  unique_keys : length (duplicate_keys s) ≡ 0
  reconciled : length (keep (λ r. not (reconciles sums r)) s.daily_revenue_report) ≡ 0

passed-Passes :
    (s : Session) (sums : Sums)
    → report_passed (row_checks s ++ report_check s sums ∷ []) ≡ true
    → Passes s sums
passed-Passes s sums h = record {
  mapped = ground (arith, h);
  unique_keys = ground (arith, h);
  reconciled = ground (arith, h);
}

unmapped-lacks :
    (s : Session) (c : Customer) → not (lacks_mapping s c) ≡ true → is_unmapped c ≡ false
unmapped-lacks s c h = elim (Option-cases c.crm_customer_id) [
  | inl n ↦ cc (rw n at h)
  | inr (id, e) ↦ rw e refl
]

-- What the controls give on a session.
pub record IsSilent (env : Env) (s : Session) : Type 0 where
  pub duplicates : duplicate_payments s ≡ []
  pub mappings : missing_mappings s ≡ []
  pub aggregations : incorrect_aggregations env s ≡ []
  pub revenue : revenue_mismatches env s ≡ done []

missing_mappings-none : (s : Session) → keep is_unmapped s.customers ≡ [] → missing_mappings s ≡ []
unfolding missing_mappings
missing_mappings-none s h = rw h refl

Passes-IsSilent :
    (env : Env) (s : Session) (sums : Sums)
    → source_sums s ≡ valid sums
    → Passes s sums
    → IsSilent env s
unfolding duplicate_payments repeated_keys incorrect_aggregations revenue_mismatches
    recompute_from_source load_reports
Passes-IsSilent env s sums h p =
    let no_keys = nil_of_length (duplicate_keys s) p.unique_keys in
    let table =
      all_double_negated (reconciles sums) s.daily_revenue_report
        (all-keep_none (λ r. not (reconciles sums r)) s.daily_revenue_report p.reconciled) in
    let reports = all-set_reports (reconciles sums) [] s.daily_revenue_report refl table in
    let found = source_sums-summed s sums h in
    record {
      duplicates = ap (λ (es : List (String × ℕ)). map duplicate_draft es) no_keys;
      mappings = missing_mappings-none s (
          keep-absent is_unmapped (λ c. not (lacks_mapping s c)) s.customers (unmapped-lacks s)
            (all-keep_none (lacks_mapping s) s.customers p.mapped));
      aggregations =
          ap (λ (rs : List DailyRevenueReport). map (aggregation_draft env) rs)
            (keep-absent is_inconsistent (reconciles sums) (load_reports s)
              (reconciles-consistent sums) reports);
      revenue = rw found (
          ap (λ es. done (map (mismatch_draft env) es))
            (mismatches-none sums (map (λ key. (key, recomputed_at sums key)) (summed_keys sums))
              (load_reports s) (dict_get-found (recomputed_at sums) (summed_keys sums)) reports));
    }

-- On a dataset that the validator passes, four of the controls are silent: no key is repeated, no
-- customer lacks a mapping, no report is inconsistent, and the recomputed revenue agrees with
-- every report, without an exception.
pub validate_clean_baseline-IsSilent :
    (env : Env) (s : Session) (checks : List CheckResult)
    → validate_clean_baseline s ≡ valid checks
    → report_passed checks ≡ true
    → IsSilent env s
unfolding validate_clean_baseline
validate_clean_baseline-IsSilent env s checks h p = elim (Validated-cases (source_sums s)) [
  | inr (e, f) ↦ cc (rw (f, validate_clean_baseline) at h)
  | inl (sums, f) ↦
      let built : valid (row_checks s ++ report_check s sums ∷ []) ≡ valid checks =
        rw (f, validate_clean_baseline) at h in
      let same : row_checks s ++ report_check s sums ∷ [] ≡ checks = cc in
      Passes-IsSilent env s sums f (passed-Passes s sums (ap (λ cs. report_passed cs) same ∙ p))
]

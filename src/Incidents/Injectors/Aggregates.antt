-- ===== src/Incidents/Injectors/Aggregates.antt =====
-- `IncorrectAggregationInjector` of backend/app/incidents/injectors.py.
use lineageiq.Common.{
  ℕ, ◌==◌, ◌&&◌, Bool, pos, ◌+ℤ◌, ltb_ℤ, String, some, List, [], ◌∷◌, concat, map, keep, str_eq,
  if◌then◌else◌,
}
use lineageiq.Taxonomy.{IncidentType}
use lineageiq.Effects.{Result, ok, Exec}
use lineageiq.Database.{Session, DailyRevenueReport, text}
use lineageiq.Environment.{Env}
use lineageiq.Detection.Severity.{compute_severity, units}
use lineageiq.Incidents.{IncidentManifest}
use lineageiq.Incidents.Injectors.{
  Draws, Injector, Story, rng_seed, choose, manifest_of, finish, ◌>>=◌,
}
use lineageiq.Incidents.Injectors.Params.{text_param, date_param}
use Prim.Native.String.{compare}
use Prim.Native.Nat.{Ordering}

-- A date's text and a region.
abbrev pub TextKey : Type 0
TextKey = String × String

abbrev same_text_key : TextKey → TextKey → Bool
same_text_key a b = str_eq a.0 b.0 && str_eq a.1 b.1

abbrev insert_key : TextKey → List TextKey → List TextKey
insert_key a [] = a ∷ []
insert_key a (b ∷ bs) =
    let rest = insert_key a bs in
    elim (compare a.0 b.0) [
      | Ordering.lt ↦ a ∷ b ∷ bs
      | Ordering.gt ↦ b ∷ rest
      | Ordering.eq ↦ elim (compare a.1 b.1) [
        | Ordering.lt ↦ a ∷ b ∷ bs
        | Ordering.gt ↦ b ∷ rest
        | Ordering.eq ↦ b ∷ bs
      ]
    ]

-- `sorted({...})`
abbrev pub sorted_keys : List TextKey → List TextKey
sorted_keys [] = []
sorted_keys (a ∷ as_left) = insert_key a (sorted_keys as_left)

abbrev pub refund_keys : Env → Session → List TextKey
refund_keys env s = sorted_keys (
    map (λ r. (env.isoformat r.report_date, r.region))
      (keep (λ r. ltb_ℤ (pos 0) r.refund_total) s.daily_revenue_report))

abbrev pub aggregation_story : TextKey → Story
aggregation_story target = record {
  title = "Refund sign error in revenue aggregation";
  params = ("date", text target.0) ∷ ("region", text target.1) ∷ [];
  changed_tables = "daily_revenue_report" ∷ [];
  affected_pipeline = some "revenue_aggregation_pipeline";
  expected_symptoms =
      "net_revenue != gross_revenue - refund_total in the report"
      ∷ "Report does not reconcile to source" ∷ [];
  root_cause_description =
      "The aggregation added refunds instead of subtracting them, so net revenue is overstated by twice the refund total.";
  expected_affected_systems = "Reporting" ∷ [];
  expected_affected_reports = "daily_revenue_report" ∷ [];
  expected_evidence = "sql:net_revenue_inconsistent" ∷ "sql:reconciliation_mismatch" ∷ [];
  expected_remediation = "Fix the aggregation refund sign and recompute the report.";
  severity = compute_severity 1 (units 120_000) 1 IncidentType.incorrect_aggregation;
}

unfoldable pub plan_aggregation : Draws → Env → Session → ℕ → ℕ → Result IncidentManifest
plan_aggregation draws env s seed index =
    choose draws (rng_seed draws IncidentType.incorrect_aggregation seed index) 0
      (refund_keys env s)
    >>= λ target.
        ok (manifest_of IncidentType.incorrect_aggregation index seed (aggregation_story target))

-- The report of the date and region adds its refunds.
abbrev pub flip_refunds : ℕ → String → DailyRevenueReport → DailyRevenueReport
flip_refunds d region r =
    if (r.report_date == d) && str_eq r.region region
    then record r { net_revenue = r.gross_revenue +ℤ r.refund_total }
    else r

unfoldable pub apply_aggregation : Env → IncidentManifest → Exec Session (List String)
apply_aggregation env manifest s = finish s (
    date_param env "date" manifest.params >>= λ d. text_param "region" manifest.params >>= λ region.
    ok (
      concat (env.isoformat d ∷ ":" ∷ region ∷ []) ∷ [],
      record s { daily_revenue_report = map (flip_refunds d region) s.daily_revenue_report },
    ))

abbrev pub incorrect_aggregation_injector : Draws → Env → Injector
incorrect_aggregation_injector draws env = record {
  incident_type = IncidentType.incorrect_aggregation;
  plan = plan_aggregation draws env;
  apply = apply_aggregation env;
}

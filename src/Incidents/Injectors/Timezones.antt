-- ===== src/Incidents/Injectors/Timezones.antt =====
-- `TimezoneConversionErrorInjector` of backend/app/incidents/injectors.py.
use lineageiq.Common.{
  ℕ, ◌+◌, ◌*◌, ◌/◌, ◌%◌, ◌&&◌, Bool, String, some, List, [], ◌∷◌, map, keep, any, str_eq, leb, ltb,
  if◌then◌else◌,
}
use lineageiq.Taxonomy.{IncidentType}
use lineageiq.Effects.{Result, ok, Exec}
use lineageiq.Database.{Session, Order, date_of, text, int}
use lineageiq.Environment.{Env}
use lineageiq.Detection.Severity.{compute_severity, units}
use lineageiq.Detection.Controls.Days.{has_day, days_of}
use lineageiq.Incidents.{IncidentManifest}
use lineageiq.Incidents.Injectors.{
  Draws, Injector, Story, rng_seed, choose, inner, order_dates, utc, manifest_of, finish, ◌>>=◌,
}
use lineageiq.Incidents.Injectors.Params.{text_param, date_param, int_param}

abbrev pub timezone_story : Env → ℕ → Story
timezone_story env d = record {
  title = "Timezone conversion shifts revenue across day boundary";
  params =
      ("date", text (env.isoformat d)) ∷ ("offset_hours", int 6) ∷ ("region", text "Asia") ∷ [];
  changed_tables = "orders" ∷ [];
  affected_pipeline = some "revenue_aggregation_pipeline";
  expected_symptoms =
      "Adjacent report days disagree with source (one over-, one under-counts)"
      ∷ "Late-night orders shifted into the next day" ∷ [];
  root_cause_description =
      "Local source timestamps were treated as UTC, shifting late-night orders into the next day so daily revenue is misallocated across the day boundary.";
  expected_affected_systems = "Orders" ∷ "Reporting" ∷ [];
  expected_affected_reports = "daily_revenue_report" ∷ [];
  expected_evidence = "sql:order_count_shift" ∷ "sql:reconciliation_mismatch" ∷ [];
  expected_remediation = "Normalize source timestamps to UTC and re-aggregate.";
  severity = compute_severity 20 (units 80_000) 2 IncidentType.timezone_conversion_error;
}

-- `customer_id in region_customers`
abbrev pub is_in_region : String → Session → String → Bool
is_in_region region s customer_id =
    any (λ c. str_eq c.region region && str_eq c.customer_id customer_id) s.customers

-- `t.hour`
abbrev hour_of : ℕ → ℕ
hour_of t = t % 86_400_000_000 / 3_600_000_000

abbrev is_late_order : Session → Order → Bool
is_late_order s o = is_in_region "Asia" s o.customer_id && leb 20 (hour_of o.order_timestamp)

-- The days with late orders of the region, among those that can be chosen.
abbrev pub late_days : Session → List ℕ
late_days s =
    keep (λ d. has_day d (inner (order_dates s)))
      (days_of (map (λ o. date_of o.order_timestamp) (keep (is_late_order s) s.orders)))

-- `rng.choice(candidates) if candidates else rng.choice(dates[5:-5])`
abbrev pub candidate_days : Session → List ℕ → List ℕ
candidate_days s [] = inner (order_dates s)
candidate_days s (d ∷ ds) = d ∷ ds

unfoldable pub plan_timezone : Draws → Env → Session → ℕ → ℕ → Result IncidentManifest
plan_timezone draws env s seed index =
    choose draws (rng_seed draws IncidentType.timezone_conversion_error seed index) 0
      (candidate_days s (late_days s))
    >>= λ d.
        ok (manifest_of IncidentType.timezone_conversion_error index seed (timezone_story env d))

-- Late on the day, and of a customer of the region.
abbrev pub is_shifted : Session → ℕ → String → Order → Bool
is_shifted s d region o =
    (leb (utc d 20) o.order_timestamp && ltb o.order_timestamp (utc d 24))
    && is_in_region region s o.customer_id

abbrev pub shift_order : Session → ℕ → ℕ → String → Order → Order
shift_order s d offset region o =
    if is_shifted s d region o
    then record o { order_timestamp = o.order_timestamp + offset * 3_600_000_000 }
    else o

abbrev pub shift_orders : ℕ → ℕ → String → Session → Session
shift_orders d offset region s = record s { orders = map (shift_order s d offset region) s.orders }

unfoldable pub apply_timezone : Env → IncidentManifest → Exec Session (List String)
apply_timezone env manifest s = finish s (
    date_param env "date" manifest.params >>= λ d.
    int_param env "offset_hours" manifest.params >>= λ offset.
    text_param "region" manifest.params >>= λ region.
    ok (
      map (λ o. o.order_id) (keep (is_shifted s d region) s.orders),
      shift_orders d offset region s,
    ))

abbrev pub timezone_conversion_error_injector : Draws → Env → Injector
timezone_conversion_error_injector draws env = record {
  incident_type = IncidentType.timezone_conversion_error;
  plan = plan_timezone draws env;
  apply = apply_timezone env;
}

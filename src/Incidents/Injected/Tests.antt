-- ===== src/Incidents/Injected/Tests.antt =====
-- Injections into two days of business, and the plans for eleven days of it.
use lineageiq.Common.{
  suc, ◌+◌, ◌==◌, ◌&&◌, ◌||◌, pos, ◌+ℤ◌, true, String, str_eq, has, count, any, none, some, List,
  [], ◌∷◌, map, length, show, tally_of, ◌≡◌, refl, arith, if◌then◌else◌,
}
use lineageiq.Taxonomy.{IncidentType}
use lineageiq.Effects.{ok, raised}
use lineageiq.Database.{Session, Customer, DailyRevenueReport}
use lineageiq.Environment.{Env}
use lineageiq.Agent.Samples.{small_env}
use lineageiq.Detection.Samples.{trade_session, a_payment, a_customer, an_order, a_report}
use lineageiq.Detection.Controls.{
  repeated_keys, payment_keys, null_counts, missing_mappings, is_inconsistent,
}
use lineageiq.Detection.Controls.Days.{has_day, order_days, burst_keys, days_of}
use lineageiq.Detection.Controls.Runs.{unreported_days}
use lineageiq.Detection.Reconcile.{load_reports, report_at}
use lineageiq.Incidents.{IncidentManifest}
use lineageiq.Incidents.Injectors.{Draws, manifest_of}
use lineageiq.Incidents.Injectors.Payments.{
  apply_duplicate, plan_duplicate, duplicate_id, duplicate_story,
}
use lineageiq.Incidents.Injectors.Delays.{apply_delay, plan_delay, delay_story}
use lineageiq.Incidents.Injectors.Nulls.{apply_null, plan_null, null_story, null_records}
use lineageiq.Incidents.Injectors.Outages.{apply_outage, plan_outage, outage_story}
use lineageiq.Incidents.Injectors.Customers.{apply_mapping, plan_mapping, mapping_story}
use lineageiq.Incidents.Injectors.Aggregates.{
  apply_aggregation, plan_aggregation, aggregation_story,
}
use lineageiq.Incidents.Injectors.Loads.{load_story, plan_load}
use lineageiq.Incidents.Injectors.Rates.{plan_stale}
use lineageiq.Incidents.Injectors.Schemas.{plan_schema}
use lineageiq.Incidents.Injectors.Timezones.{plan_timezone}
use lineageiq.Incidents.Injectors.Registry.{get_injector, generate_manifests, all_incident_types}
use lineageiq.Incidents.Injected.Links.{IsLinked}
use lineageiq.Incidents.Injected.Linked.{get_injector-IsLinked}
use lineageiq.Incidents.Injected.Duplicates.{apply_duplicate-repeated}
use lineageiq.Incidents.Injected.Delays.{apply_delay-unreported}
use lineageiq.Incidents.Injected.Nulls.{apply_null-counted}
use lineageiq.Incidents.Injected.Outages.{apply_outage-burst, same_service}
use lineageiq.Incidents.Injected.Mappings.{apply_mapping-missing, unmap_in}
use lineageiq.Incidents.Injected.Aggregates.{apply_aggregation-is_inconsistent}
use lineageiq.Incidents.Injected.Planned.{IsGenerated, generate_manifests-IsGenerated}

-- Draws that take the first elements, and an environment that reads the date of day 7.
abbrev first_draws : Draws
first_draws = record {
  hash = λ t. 0;
  choice = λ seed k n. 0;
  sample = λ seed n k. 0 ∷ 1 ∷ 2 ∷ 3 ∷ 4 ∷ [];
  shuffle = λ seed ids. ids;
  scaled = λ n value. n;
}

abbrev day_env : Env
day_env = record small_env { fromisoformat = λ t. if str_eq t "7" then some 7 else none }

abbrev duplicate_manifest : IncidentManifest
duplicate_manifest =
    manifest_of IncidentType.duplicate_transaction 0 1
      (duplicate_story "P-1" (a_payment "P-1" "k1" 7))

trade_session-IsLinked : IsLinked trade_session
trade_session-IsLinked = record {
  payments_linked = refl;
  refunds_linked = refl;
  shipments_linked = refl;
}

get_injector-IsLinked_example :
    IsLinked
      ((get_injector first_draws day_env IncidentType.partial_load).apply
        (manifest_of IncidentType.partial_load 0 1 (load_story day_env 7))
        trade_session).1
get_injector-IsLinked_example =
    get_injector-IsLinked first_draws day_env IncidentType.partial_load
      (manifest_of IncidentType.partial_load 0 1 (load_story day_env 7)) trade_session
      trade_session-IsLinked

apply_duplicate-repeated_example :
    ((apply_duplicate duplicate_manifest trade_session).0
      ≡ ok (duplicate_id (a_payment "P-1" "k1" 7) ∷ []))
    × (count "k1" (payment_keys (apply_duplicate duplicate_manifest trade_session).1)
        ≡ suc (count "k1" (payment_keys trade_session)))
    × (has "k1"
          (map (λ e. e.0) (repeated_keys (apply_duplicate duplicate_manifest trade_session).1))
        ≡ true)
unfolding manifest_of
apply_duplicate-repeated_example =
    apply_duplicate-repeated duplicate_manifest trade_session "P-1" (a_payment "P-1" "k1" 7) refl
      refl

abbrev delay_manifest : IncidentManifest
delay_manifest = manifest_of IncidentType.delayed_pipeline 0 1 (delay_story day_env 7)

apply_delay-unreported_example :
    ((apply_delay day_env delay_manifest trade_session).0 ≡ ok ("7" ∷ []))
    × (has_day 7 (unreported_days (apply_delay day_env delay_manifest trade_session).1) ≡ (
        has_day 7 (unreported_days trade_session)
        || ((7 == 7) && has_day 7 (order_days trade_session))))
unfolding manifest_of show
apply_delay-unreported_example =
    apply_delay-unreported day_env delay_manifest trade_session 7 7 refl

abbrev null_manifest : IncidentManifest
null_manifest = manifest_of IncidentType.null_contamination 0 1 (null_story day_env 7)

apply_null-counted_example :
    ((apply_null day_env null_manifest trade_session).0
      ≡ ok (map (λ r. r.staging_id) (null_records day_env null_manifest.manifest_id 7 0 8)))
    × (tally_of "order.gross_amount"
          (null_counts (apply_null day_env null_manifest trade_session).1)
        ≡ tally_of "order.gross_amount" (null_counts trade_session) + 8)
unfolding manifest_of show
apply_null-counted_example = apply_null-counted day_env null_manifest trade_session 7 8 refl refl

abbrev outage_manifest : IncidentManifest
outage_manifest = manifest_of IncidentType.upstream_api_failure 0 1 (outage_story day_env 7)

apply_outage-burst_example :
    any
      (λ e. same_service e.0 ("payment_provider_api", 7))
      (burst_keys (apply_outage day_env outage_manifest trade_session).1)
    ≡ true
unfolding manifest_of show
apply_outage-burst_example =
    apply_outage-burst day_env outage_manifest trade_session 7 25 refl refl (omega arith)
      (omega arith)

abbrev mapping_manifest : IncidentManifest
mapping_manifest =
    manifest_of IncidentType.missing_customer_mapping 0 1 (mapping_story ("C-1" ∷ []))

apply_mapping-missing_example :
    ((apply_mapping mapping_manifest trade_session).0 ≡ ok ("C-1" ∷ []))
    × ((apply_mapping mapping_manifest trade_session).1.customers
        ≡ map (unmap_in ("C-1" ∷ [])) trade_session.customers)
    × (length (missing_mappings (apply_mapping mapping_manifest trade_session).1) ≡ 1)
unfolding manifest_of days_of
apply_mapping-missing_example =
    apply_mapping-missing mapping_manifest trade_session "C-1" [] 7 (8 ∷ []) refl refl refl

abbrev aggregation_manifest : IncidentManifest
aggregation_manifest =
    manifest_of IncidentType.incorrect_aggregation 0 1 (aggregation_story ("7", "Europe"))

abbrev false_report : DailyRevenueReport
false_report = record (a_report 7 (pos 16_500)) { net_revenue = pos 16_500 +ℤ pos 45 }

apply_aggregation-is_inconsistent_example :
    (report_at
        (7, "Europe")
        (load_reports (apply_aggregation day_env aggregation_manifest trade_session).1)
      ≡ some false_report)
    × (is_inconsistent false_report ≡ true)
unfolding manifest_of load_reports
apply_aggregation-is_inconsistent_example =
    apply_aggregation-is_inconsistent day_env aggregation_manifest trade_session 7 "Europe"
      (a_report 7 (pos 16_500)) refl refl refl refl

abbrev customer_named : String → Customer
customer_named customer_id = record a_customer { customer_id = customer_id }

abbrev eleven_days : Session
eleven_days = record trade_session {
  customers = map customer_named ("C-1" ∷ "C-2" ∷ "C-3" ∷ "C-4" ∷ "C-5" ∷ []);
  orders = map (λ d. an_order "O-1" d (pos 100)) (1 ∷ 2 ∷ 3 ∷ 4 ∷ 5 ∷ 6 ∷ 7 ∷ 8 ∷ 9 ∷ 10 ∷ 11 ∷ []);
}

abbrev eleven_plans : List IncidentManifest
eleven_plans = elim (generate_manifests first_draws day_env eleven_days 1 1) [
  | ok ms ↦ ms
  | raised e ↦ []
]

eleven_planned : generate_manifests first_draws day_env eleven_days 1 1 ≡ ok eleven_plans
unfolding generate_manifests manifest_of days_of plan_duplicate plan_stale plan_mapping plan_schema
    plan_delay plan_timezone plan_null plan_load plan_aggregation plan_outage
eleven_planned = refl

generate_manifests-IsGenerated_example : IsGenerated 1 1 all_incident_types eleven_plans
generate_manifests-IsGenerated_example =
    generate_manifests-IsGenerated first_draws day_env eleven_days 1 1 eleven_plans eleven_planned

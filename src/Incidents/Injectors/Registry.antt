-- ===== src/Incidents/Injectors/Registry.antt =====
-- `INJECTORS` and `get_injector` of backend/app/incidents/injectors.py, and their use by
-- backend/app/incidents/service.py: planned manifests, and the injection of one. Saving a manifest
-- to a file is not modelled.
use lineageiq.Common.{ℕ, zero, suc, ◌+◌, String, some, List, [], ◌∷◌, ◌++◌}
use lineageiq.Taxonomy.{IncidentType}
use lineageiq.Effects.{Result, ok, raised, Exec}
use lineageiq.Database.{Session}
use lineageiq.Environment.{Env, World}
use lineageiq.Incidents.{IncidentManifest}
use lineageiq.Incidents.Injectors.{Draws, Injector, ◌>>=◌}
use lineageiq.Incidents.Injectors.Payments.{duplicate_transaction_injector}
use lineageiq.Incidents.Injectors.Rates.{stale_fx_rate_injector}
use lineageiq.Incidents.Injectors.Customers.{missing_customer_mapping_injector}
use lineageiq.Incidents.Injectors.Schemas.{schema_change_injector}
use lineageiq.Incidents.Injectors.Delays.{delayed_pipeline_injector}
use lineageiq.Incidents.Injectors.Timezones.{timezone_conversion_error_injector}
use lineageiq.Incidents.Injectors.Nulls.{null_contamination_injector}
use lineageiq.Incidents.Injectors.Loads.{partial_load_injector}
use lineageiq.Incidents.Injectors.Aggregates.{incorrect_aggregation_injector}
use lineageiq.Incidents.Injectors.Outages.{upstream_api_failure_injector}

unfoldable pub get_injector : Draws → Env → IncidentType → Injector
get_injector draws env IncidentType.duplicate_transaction = duplicate_transaction_injector draws
get_injector draws env IncidentType.stale_fx_rate = stale_fx_rate_injector draws env
get_injector draws env IncidentType.missing_customer_mapping =
    missing_customer_mapping_injector draws
get_injector draws env IncidentType.schema_change = schema_change_injector draws env
get_injector draws env IncidentType.delayed_pipeline = delayed_pipeline_injector draws env
get_injector draws env IncidentType.timezone_conversion_error =
    timezone_conversion_error_injector draws env
get_injector draws env IncidentType.null_contamination = null_contamination_injector draws env
get_injector draws env IncidentType.partial_load = partial_load_injector draws env
get_injector draws env IncidentType.incorrect_aggregation = incorrect_aggregation_injector draws env
get_injector draws env IncidentType.upstream_api_failure = upstream_api_failure_injector draws env

-- `for incident_type in IncidentType`
abbrev pub all_incident_types : List IncidentType
all_incident_types =
    IncidentType.duplicate_transaction ∷ IncidentType.stale_fx_rate
    ∷ IncidentType.missing_customer_mapping ∷ IncidentType.schema_change
    ∷ IncidentType.delayed_pipeline ∷ IncidentType.timezone_conversion_error
    ∷ IncidentType.null_contamination ∷ IncidentType.partial_load
    ∷ IncidentType.incorrect_aggregation ∷ IncidentType.upstream_api_failure ∷ []

-- The plans of one injector that are left, from the index on.
abbrev pub plan_each : Injector → Session → ℕ → ℕ → ℕ → Result (List IncidentManifest)
plan_each injector s seed index zero = ok []
plan_each injector s seed index (suc n) =
    let rest = plan_each injector s seed (index + 1) n in
    injector.plan s seed index >>= λ manifest. rest >>= λ manifests. ok (manifest ∷ manifests)

abbrev pub plan_types :
    Draws → Env → Session → ℕ → ℕ → List IncidentType → Result (List IncidentManifest)
plan_types draws env s seed per_type [] = ok []
plan_types draws env s seed per_type (kind ∷ kinds) =
    plan_each (get_injector draws env kind) s seed 0 per_type >>= λ manifests.
    plan_types draws env s seed per_type kinds >>= λ others. ok (manifests ++ others)

unfoldable pub generate_manifests : Draws → Env → Session → ℕ → ℕ → Result (List IncidentManifest)
unfolding get_injector
generate_manifests draws env s seed per_type =
    plan_types draws env s seed per_type all_incident_types

abbrev mark_injected :
    Env → IncidentManifest → Result (List String) × Session → Exec World IncidentManifest
mark_injected env manifest (raised e, s) w = (raised e, record w { session = s })
mark_injected env manifest (ok changed, s) w = (
  ok (record manifest {
    changed_record_ids = changed;
    injected_at = some (env.time_text (env.clock w.readings));
  }),
  record w { session = s; readings = suc w.readings },
)

-- `inject_manifest`, which gives the manifest as it is then.
unfoldable pub inject_manifest : Draws → Env → IncidentManifest → Exec World IncidentManifest
unfolding get_injector
inject_manifest draws env manifest w =
    mark_injected env manifest
      ((get_injector draws env manifest.incident_type).apply manifest w.session) w

-- ===== src/Incidents/Injected/Linked.antt =====
-- Every injector of backend/app/incidents/injectors.py keeps the references between the tables.
use lineageiq.Common.{
  ℕ, ◌-◌, String, str_eq, Option, none, some, List, [], ◌∷◌, any, ◌≡◌, refl, inl, inr, Bool-cases,
}
use lineageiq.Taxonomy.{IncidentType}
use lineageiq.Effects.{Result, ok, raised}
use lineageiq.Database.{Session}
use lineageiq.Environment.{Env}
use lineageiq.Incidents.{IncidentManifest}
use lineageiq.Incidents.Injectors.{Draws, bind-Gives, finish-rule, order_dates}
use lineageiq.Incidents.Injectors.Params.{text_param, date_param, int_param, texts_param, param}
use lineageiq.Incidents.Injectors.Payments.{payment_with, asserted, apply_duplicate}
use lineageiq.Incidents.Injectors.Rates.{apply_stale, rate_on}
use lineageiq.Incidents.Injectors.Customers.{
  apply_mapping, unmap_all, drop_mappings, log_mapping, log_first_day,
}
use lineageiq.Incidents.Injectors.Schemas.{apply_schema}
use lineageiq.Incidents.Injectors.Delays.{apply_delay}
use lineageiq.Incidents.Injectors.Timezones.{apply_timezone}
use lineageiq.Incidents.Injectors.Nulls.{apply_null}
use lineageiq.Incidents.Injectors.Loads.{apply_load, delete_orders, dropped_ids}
use lineageiq.Incidents.Injectors.Aggregates.{apply_aggregation}
use lineageiq.Incidents.Injectors.Outages.{apply_outage, delete_payments, lost_ids}
use lineageiq.Incidents.Injectors.Registry.{get_injector}
use lineageiq.Incidents.Injected.Links.{
  IsLinked, delete_orders-IsLinked, delete_payments-IsLinked, shift_orders-IsLinked,
  add_duplicate-IsLinked,
}

asserted-some : {A : Type 0} (o : Option A) (a : A) → asserted o ≡ ok a → o ≡ some a
asserted-some none a h = cc
asserted-some (some b) a h = cc

relinked :
    (s t : Session)
    → IsLinked s
    → t.orders ≡ s.orders
    → t.payments ≡ s.payments
    → t.refunds ≡ s.refunds
    → t.shipments ≡ s.shipments
    → IsLinked t
relinked s t l o p r h = record {
  payments_linked = rw (o, p) l.payments_linked;
  refunds_linked = rw (p, r) l.refunds_linked;
  shipments_linked = rw (o, h) l.shipments_linked;
}

apply_duplicate-IsLinked :
    (manifest : IncidentManifest) (s : Session)
    → IsLinked s
    → IsLinked (apply_duplicate manifest s).1
unfolding apply_duplicate
apply_duplicate-IsLinked manifest s l = finish-rule IsLinked s _ l (
    bind-Gives _ (text_param "payment_id" manifest.params) _ (λ payment_id e.
      bind-Gives _ (asserted (payment_with payment_id s.payments)) _ (λ p f.
        add_duplicate-IsLinked payment_id s p
          (asserted-some (payment_with payment_id s.payments) p f) l)))

apply_delay-IsLinked :
    (env : Env) (manifest : IncidentManifest) (s : Session)
    → IsLinked s
    → IsLinked (apply_delay env manifest s).1
unfolding apply_delay
apply_delay-IsLinked env manifest s l = finish-rule IsLinked s _ l (
    bind-Gives _ (date_param env "date" manifest.params) _
      (λ d e. relinked s _ l refl refl refl refl))

apply_stale-IsLinked :
    (env : Env) (manifest : IncidentManifest) (s : Session)
    → IsLinked s
    → IsLinked (apply_stale env manifest s).1
unfolding apply_stale
apply_stale-IsLinked env manifest s l = finish-rule IsLinked s _ l (
    bind-Gives _ (date_param env "date" manifest.params) _ (λ d e.
      bind-Gives _ (text_param "currency" manifest.params) _ (λ currency f.
        bind-Gives _ (rate_on (d - 1) currency s) _ (λ previous g.
          bind-Gives _ (rate_on d currency s) _
            (λ current h. relinked s _ l refl refl refl refl)))))

unmap_all-IsLinked : (ids : List String) (s : Session) → IsLinked s → IsLinked (unmap_all ids s).1
unfolding unmap_all
unmap_all-IsLinked [] s l = l
unmap_all-IsLinked (customer_id ∷ ids) s l =
    elim (Bool-cases (any (λ c. str_eq c.customer_id customer_id) s.customers)) [
      | inl e ↦ rw (e, unmap_all) (unmap_all-IsLinked ids _ (relinked s _ l refl refl refl refl))
      | inr e ↦ rw (e, unmap_all) l
    ]

log_first_day-IsLinked :
    (manifest_id : String) (ids : List String) (ds : List ℕ) (s : Session)
    → IsLinked s
    → IsLinked (log_first_day manifest_id ids ds s).1
log_first_day-IsLinked manifest_id ids [] s l = l
log_first_day-IsLinked manifest_id ids (d ∷ ds) s l = relinked s _ l refl refl refl refl

log_mapping-IsLinked :
    (manifest_id : String) (ids : List String) (r : Result {0} Unit) (s : Session)
    → IsLinked s
    → IsLinked (log_mapping manifest_id ids r s).1
log_mapping-IsLinked manifest_id ids (raised e) s l = l
log_mapping-IsLinked manifest_id ids (ok t) s l =
    log_first_day-IsLinked manifest_id ids (order_dates s) s l

drop_mappings-IsLinked :
    (manifest_id : String) (r : Result (List String)) (s : Session)
    → IsLinked s
    → IsLinked (drop_mappings manifest_id r s).1
drop_mappings-IsLinked manifest_id (raised e) s l = l
drop_mappings-IsLinked manifest_id (ok ids) s l =
    log_mapping-IsLinked manifest_id ids (unmap_all ids s).0 (unmap_all ids s).1
      (unmap_all-IsLinked ids s l)

apply_mapping-IsLinked :
    (manifest : IncidentManifest) (s : Session) → IsLinked s → IsLinked (apply_mapping manifest s).1
unfolding apply_mapping
apply_mapping-IsLinked manifest s l =
    drop_mappings-IsLinked manifest.manifest_id (texts_param "customer_ids" manifest.params) s l

apply_schema-IsLinked :
    (env : Env) (manifest : IncidentManifest) (s : Session)
    → IsLinked s
    → IsLinked (apply_schema env manifest s).1
unfolding apply_schema
apply_schema-IsLinked env manifest s l = finish-rule IsLinked s _ l (
    bind-Gives _ (date_param env "date" manifest.params) _ (λ d e.
      bind-Gives _ (text_param "table" manifest.params) _ (λ table f.
        bind-Gives _ (text_param "field" manifest.params) _ (λ field g.
          bind-Gives _ (text_param "new_field" manifest.params) _
            (λ new_field h. relinked s _ l refl refl refl refl)))))

apply_timezone-IsLinked :
    (env : Env) (manifest : IncidentManifest) (s : Session)
    → IsLinked s
    → IsLinked (apply_timezone env manifest s).1
unfolding apply_timezone
apply_timezone-IsLinked env manifest s l = finish-rule IsLinked s _ l (
    bind-Gives _ (date_param env "date" manifest.params) _ (λ d e.
      bind-Gives _ (int_param env "offset_hours" manifest.params) _ (λ offset f.
        bind-Gives _ (text_param "region" manifest.params) _
          (λ region g. shift_orders-IsLinked d offset region s l))))

apply_null-IsLinked :
    (env : Env) (manifest : IncidentManifest) (s : Session)
    → IsLinked s
    → IsLinked (apply_null env manifest s).1
unfolding apply_null
apply_null-IsLinked env manifest s l = finish-rule IsLinked s _ l (
    bind-Gives _ (date_param env "date" manifest.params) _ (λ d e.
      bind-Gives _ (int_param env "count" manifest.params) _
        (λ n f. relinked s _ l refl refl refl refl)))

apply_load-IsLinked :
    (draws : Draws) (env : Env) (manifest : IncidentManifest) (s : Session)
    → IsLinked s
    → IsLinked (apply_load draws env manifest s).1
unfolding apply_load
apply_load-IsLinked draws env manifest s l = finish-rule IsLinked s _ l (
    bind-Gives _ (date_param env "date" manifest.params) _ (λ d e.
      bind-Gives _ (param "drop_fraction" manifest.params) _ (λ fraction f.
        let dropped = dropped_ids draws manifest d fraction s in
        relinked (delete_orders dropped s) _ (delete_orders-IsLinked dropped s l) refl refl refl
          refl)))

apply_aggregation-IsLinked :
    (env : Env) (manifest : IncidentManifest) (s : Session)
    → IsLinked s
    → IsLinked (apply_aggregation env manifest s).1
unfolding apply_aggregation
apply_aggregation-IsLinked env manifest s l = finish-rule IsLinked s _ l (
    bind-Gives _ (date_param env "date" manifest.params) _ (λ d e.
      bind-Gives _ (text_param "region" manifest.params) _
        (λ region f. relinked s _ l refl refl refl refl)))

apply_outage-IsLinked :
    (env : Env) (manifest : IncidentManifest) (s : Session)
    → IsLinked s
    → IsLinked (apply_outage env manifest s).1
unfolding apply_outage
apply_outage-IsLinked env manifest s l = finish-rule IsLinked s _ l (
    bind-Gives _ (date_param env "date" manifest.params) _ (λ d e.
      bind-Gives _ (int_param env "error_count" manifest.params) _ (λ n f.
        let ids = lost_ids manifest.manifest_id d s in
        relinked (delete_payments manifest.manifest_id d ids s) _
          (delete_payments-IsLinked manifest.manifest_id d ids s l) refl refl refl refl)))

-- Where payments and shipments are of stored orders and every refund of a stored payment of its
-- order, they still are after any injector, with any manifest, whether it raises or not.
pub get_injector-IsLinked :
    (draws : Draws) (env : Env) (kind : IncidentType) (manifest : IncidentManifest) (s : Session)
    → IsLinked s
    → IsLinked ((get_injector draws env kind).apply manifest s).1
unfolding get_injector
get_injector-IsLinked draws env IncidentType.duplicate_transaction = apply_duplicate-IsLinked
get_injector-IsLinked draws env IncidentType.stale_fx_rate = apply_stale-IsLinked env
get_injector-IsLinked draws env IncidentType.missing_customer_mapping = apply_mapping-IsLinked
get_injector-IsLinked draws env IncidentType.schema_change = apply_schema-IsLinked env
get_injector-IsLinked draws env IncidentType.delayed_pipeline = apply_delay-IsLinked env
get_injector-IsLinked draws env IncidentType.timezone_conversion_error = apply_timezone-IsLinked env
get_injector-IsLinked draws env IncidentType.null_contamination = apply_null-IsLinked env
get_injector-IsLinked draws env IncidentType.partial_load = apply_load-IsLinked draws env
get_injector-IsLinked draws env IncidentType.incorrect_aggregation = apply_aggregation-IsLinked env
get_injector-IsLinked draws env IncidentType.upstream_api_failure = apply_outage-IsLinked env

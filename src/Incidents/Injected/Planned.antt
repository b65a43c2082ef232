-- ===== src/Incidents/Injected/Planned.antt =====
-- What `generate_manifests` of backend/app/incidents/service.py plans.
use lineageiq.Common.{
  ℕ, zero, suc, ◌+◌, List, [], ◌∷◌, ◌++◌, map, length, sort_texts, ◌≡◌, refl, arith,
}
use lineageiq.Taxonomy.{IncidentType, root_cause_for}
use lineageiq.Effects.{Result, ok}
use lineageiq.Database.{Session}
use lineageiq.Environment.{Env}
use lineageiq.Incidents.{IncidentManifest}
use lineageiq.Incidents.Injectors.{
  Draws, Injector, Story, manifest_of, manifest_id_of, is_serious, Gives, bind-Gives, choose,
  sample_of, rng_seed, inner, order_dates, ◌>>=◌,
}
use lineageiq.Incidents.Injectors.Payments.{
  plan_duplicate, payment_with, asserted, successful_ids, duplicate_story,
}
use lineageiq.Incidents.Injectors.Rates.{plan_stale, stale_story}
use lineageiq.Incidents.Injectors.Customers.{plan_mapping, mapping_story}
use lineageiq.Incidents.Injectors.Schemas.{plan_schema, renames, schema_story}
use lineageiq.Incidents.Injectors.Delays.{plan_delay, delay_story}
use lineageiq.Incidents.Injectors.Timezones.{
  plan_timezone, candidate_days, late_days, timezone_story,
}
use lineageiq.Incidents.Injectors.Nulls.{plan_null, null_story}
use lineageiq.Incidents.Injectors.Loads.{plan_load, load_story}
use lineageiq.Incidents.Injectors.Aggregates.{plan_aggregation, refund_keys, aggregation_story}
use lineageiq.Incidents.Injectors.Outages.{plan_outage, outage_story}
use lineageiq.Incidents.Injectors.Registry.{
  get_injector, plan_each, plan_types, generate_manifests, all_incident_types,
}

-- A manifest of a type, an index and a seed: its ground truth follows from the type and the
-- severity.
pub record IsPlanned (kind : IncidentType) (index seed : ℕ) (m : IncidentManifest) : Type 0 where
  pub manifest_id : m.manifest_id ≡ manifest_id_of kind index
  pub incident_type : m.incident_type ≡ kind
  pub root_cause_code : m.root_cause_code ≡ root_cause_for kind
  pub indexed : m.index ≡ index
  pub seeded : m.seed ≡ seed
  pub should_escalate : m.should_escalate ≡ is_serious m.severity

manifest_of-IsPlanned :
    (kind : IncidentType) (index seed : ℕ) (story : Story)
    → IsPlanned kind index seed (manifest_of kind index seed story)
unfolding manifest_of
manifest_of-IsPlanned kind index seed story = record {
  manifest_id = refl;
  incident_type = refl;
  root_cause_code = refl;
  indexed = refl;
  seeded = refl;
  should_escalate = refl;
}

-- What an injector plans, if it plans anything.
abbrev Plans : Injector → IncidentType → Session → Type 0
Plans injector kind s =
    (seed index : ℕ) → Gives (IsPlanned kind index seed) (injector.plan s seed index)

module _ {A : Type 0} (kind : IncidentType) (index seed : ℕ) where
  one_draw :
      (m : Result A) (story : A → Story)
      → Gives (IsPlanned kind index seed) (m >>= λ a. ok (manifest_of kind index seed (story a)))
  one_draw m story =
      bind-Gives (IsPlanned kind index seed) m (λ a. ok (manifest_of kind index seed (story a)))
        (λ a e. manifest_of-IsPlanned kind index seed (story a))

  two_draws :
      {B : Type 0} (m : Result B) (n : B → Result A) (story : B → A → Story)
      → Gives
          (IsPlanned kind index seed)
          (m >>= λ b. (n b >>= λ a. ok (manifest_of kind index seed (story b a))))
  two_draws m n story =
      bind-Gives (IsPlanned kind index seed) m
        (λ b. n b >>= λ a. ok (manifest_of kind index seed (story b a)))
        (λ b e. one_draw (n b) (story b))

get_injector-Plans :
    (draws : Draws) (env : Env) (kind : IncidentType) (s : Session)
    → Plans (get_injector draws env kind) kind s
unfolding get_injector plan_duplicate plan_stale plan_mapping plan_schema plan_delay plan_timezone
    plan_null plan_load plan_aggregation plan_outage
get_injector-Plans draws env IncidentType.duplicate_transaction s seed index =
    let kind = IncidentType.duplicate_transaction in
    two_draws kind index seed
      (choose draws (rng_seed draws kind seed index) 0 (sort_texts (successful_ids s)))
      (λ target. asserted (payment_with target s.payments)) duplicate_story
get_injector-Plans draws env IncidentType.stale_fx_rate s seed index =
    let rng = rng_seed draws IncidentType.stale_fx_rate seed index in
    two_draws IncidentType.stale_fx_rate index seed (choose draws rng 0 (inner (order_dates s)))
      (λ d. choose draws rng 1 ("EUR" ∷ "GBP" ∷ "JPY" ∷ "TRY" ∷ [])) (stale_story env)
get_injector-Plans draws env IncidentType.missing_customer_mapping s seed index =
    let kind = IncidentType.missing_customer_mapping in
    one_draw kind index seed
      (sample_of draws (rng_seed draws kind seed index)
        (sort_texts (map (λ c. c.customer_id) s.customers)) 5)
      mapping_story
get_injector-Plans draws env IncidentType.schema_change s seed index =
    let rng = rng_seed draws IncidentType.schema_change seed index in
    two_draws IncidentType.schema_change index seed (choose draws rng 0 renames)
      (λ c. choose draws rng 1 (inner (order_dates s))) (schema_story env)
get_injector-Plans draws env IncidentType.timezone_conversion_error s seed index =
    let kind = IncidentType.timezone_conversion_error in
    one_draw kind index seed
      (choose draws (rng_seed draws kind seed index) 0 (candidate_days s (late_days s)))
      (timezone_story env)
get_injector-Plans draws env IncidentType.incorrect_aggregation s seed index =
    let kind = IncidentType.incorrect_aggregation in
    one_draw kind index seed (choose draws (rng_seed draws kind seed index) 0 (refund_keys env s))
      aggregation_story
get_injector-Plans draws env IncidentType.delayed_pipeline s seed index =
    let kind = IncidentType.delayed_pipeline in
    one_draw kind index seed
      (choose draws (rng_seed draws kind seed index) 0 (inner (order_dates s))) (delay_story env)
get_injector-Plans draws env IncidentType.null_contamination s seed index =
    let kind = IncidentType.null_contamination in
    one_draw kind index seed
      (choose draws (rng_seed draws kind seed index) 0 (inner (order_dates s))) (null_story env)
get_injector-Plans draws env IncidentType.partial_load s seed index =
    let kind = IncidentType.partial_load in
    one_draw kind index seed
      (choose draws (rng_seed draws kind seed index) 0 (inner (order_dates s))) (load_story env)
get_injector-Plans draws env IncidentType.upstream_api_failure s seed index =
    let kind = IncidentType.upstream_api_failure in
    one_draw kind index seed
      (choose draws (rng_seed draws kind seed index) 0 (inner (order_dates s))) (outage_story env)

Gives-value : {A : Type 0} (P : A → Type 0) (m : Result A) (a : A) → Gives P m → m ≡ ok a → P a
Gives-value P m a g h = rw h at g

-- The manifests of a type, from an index on.
abbrev pub IsPlannedFrom : IncidentType → ℕ → ℕ → List IncidentManifest → Type 0
IsPlannedFrom kind index seed [] = Unit
IsPlannedFrom kind index seed (m ∷ ms) =
    IsPlanned kind index seed m × IsPlannedFrom kind (index + 1) seed ms

plan_each-IsPlannedFrom :
    (injector : Injector) (kind : IncidentType) (s : Session) (seed index n : ℕ)
    → Plans injector kind s
    → Gives
        (λ ms. (length ms ≡ n) × IsPlannedFrom kind index seed ms)
        (plan_each injector s seed index n)
plan_each-IsPlannedFrom injector kind s seed index zero p = (refl, tt)
plan_each-IsPlannedFrom injector kind s seed index (suc n) p =
    let rest = plan_each-IsPlannedFrom injector kind s seed (index + 1) n p in
    let front = p seed index in
    bind-Gives (λ ms. (length ms ≡ suc n) × IsPlannedFrom kind index seed ms)
      (injector.plan s seed index)
      (λ m. plan_each injector s seed (index + 1) n >>= λ ms. ok (m ∷ ms))
      (λ m e.
        bind-Gives (λ ms. (length ms ≡ suc n) × IsPlannedFrom kind index seed ms)
          (plan_each injector s seed (index + 1) n) (λ ms. ok (m ∷ ms))
          (λ ms f.
            let tail =
              Gives-value (λ ms. (length ms ≡ n) × IsPlannedFrom kind (index + 1) seed ms)
                (plan_each injector s seed (index + 1) n) ms rest f in
            (
              omega (arith, tail.0),
              (
                Gives-value (IsPlanned kind index seed) (injector.plan s seed index) m front e,
                tail.1,
              ),
            )))

-- For each of the types in order, as many manifests as were asked for, from the index 0 on.
pub data IsGenerated (per_type seed : ℕ) : List IncidentType → List IncidentManifest → Type 0 where
  no_types : IsGenerated per_type seed [] []
  one_type :
      (kind : IncidentType) (kinds : List IncidentType) (front rest : List IncidentManifest)
      → length front ≡ per_type
      → IsPlannedFrom kind 0 seed front
      → IsGenerated per_type seed kinds rest
      → IsGenerated per_type seed (kind ∷ kinds) (front ++ rest)

plan_types-IsGenerated :
    (draws : Draws) (env : Env) (s : Session) (seed per_type : ℕ) (kinds : List IncidentType)
    → Gives (IsGenerated per_type seed kinds) (plan_types draws env s seed per_type kinds)
plan_types-IsGenerated draws env s seed per_type [] = no_types
plan_types-IsGenerated draws env s seed per_type (kind ∷ kinds) =
    let injector = get_injector draws env kind in
    let rest = plan_types-IsGenerated draws env s seed per_type kinds in
    let front =
      plan_each-IsPlannedFrom injector kind s seed 0 per_type
        (get_injector-Plans draws env kind s) in
    bind-Gives (IsGenerated per_type seed (kind ∷ kinds)) (plan_each injector s seed 0 per_type)
      (λ ms. plan_types draws env s seed per_type kinds >>= λ others. ok (ms ++ others))
      (λ ms e.
        bind-Gives (IsGenerated per_type seed (kind ∷ kinds))
          (plan_types draws env s seed per_type kinds) (λ others. ok (ms ++ others))
          (λ others f.
            let head =
              Gives-value (λ ms. (length ms ≡ per_type) × IsPlannedFrom kind 0 seed ms)
                (plan_each injector s seed 0 per_type) ms front e in
            one_type kind kinds ms others head.0 head.1 (
              Gives-value (IsGenerated per_type seed kinds)
                (plan_types draws env s seed per_type kinds) others rest f)))

-- Where planning raises nothing, it gives for each of the ten types in order as many manifests as
-- were asked for; each has the id, the index and the seed of its place, the root cause of its type,
-- and is escalated exactly when its severity is high or critical.
pub generate_manifests-IsGenerated :
    (draws : Draws) (env : Env) (s : Session) (seed per_type : ℕ) (ms : List IncidentManifest)
    → generate_manifests draws env s seed per_type ≡ ok ms
    → IsGenerated per_type seed all_incident_types ms
unfolding generate_manifests
generate_manifests-IsGenerated draws env s seed per_type ms h =
    Gives-value (IsGenerated per_type seed all_incident_types)
      (plan_types draws env s seed per_type all_incident_types) ms
      (plan_types-IsGenerated draws env s seed per_type all_incident_types) h

-- ===== src/Incidents/Runner.antt =====
-- `run_and_create_incidents` of backend/app/detection/runner.py, on the alerts of the controls.
pub mod Detected
mod Tests
use lineageiq.Common.{
  ℕ, suc, ◌+◌, Bool, true, false, not, ◌&&◌, Option, none, some, List, [], ◌∷◌, ◌++◌, map, length,
  length-append, ◌==◌, ==_iff, ◌≡◌, refl, sym, ap, ◌∙◌, arith, Bool-cases, inl, inr, if◌then◌else◌,
}
use lineageiq.Taxonomy.{RootCauseCode, same_cause}
use lineageiq.Database.{Incident, Payload, Session}
use lineageiq.Environment.{Env, World}
use lineageiq.Detection.Alerts.{AlertDto}
use lineageiq.Incidents.{IncidentManifest, create_incident_from_alerts}
use lineageiq.Incidents.Created.{IsCreated, create_incident_from_alerts-IsCreated}

abbrev pub Group : Type 0
Group = RootCauseCode × List AlertDto

-- `by_cause[a.suspected_root_cause].append(a)`
add_to_group : AlertDto → List Group → List Group
add_to_group a [] = (a.suspected_root_cause, a ∷ []) ∷ []
add_to_group a ((c, alerts) ∷ gs) =
    if same_cause c a.suspected_root_cause
    then (c, alerts ++ a ∷ []) ∷ gs
    else (c, alerts) ∷ add_to_group a gs

add_to_groups : List Group → List AlertDto → List Group
unfolding add_to_group
add_to_groups gs [] = gs
add_to_groups gs (a ∷ others) = add_to_groups (add_to_group a gs) others

abbrev is_named : Group → Bool
is_named g = not (same_cause g.0 RootCauseCode.unknown)

named_groups : List Group → List Group
named_groups [] = []
named_groups (g ∷ gs) = if is_named g then g ∷ named_groups gs else named_groups gs

-- The alerts of the unknown cause; there are none without a group for it.
unknown_alerts : List Group → List AlertDto
unknown_alerts [] = []
unknown_alerts (g ∷ gs) = if is_named g then unknown_alerts gs else g.1 ++ unknown_alerts gs

-- With exactly one named cause, its group takes the unknown alerts, and their group is gone.
fold_unknown : List Group → List Group → List AlertDto → List Group
fold_unknown gs ((c, alerts) ∷ []) unknown = (c, alerts ++ unknown) ∷ []
fold_unknown gs named unknown = gs

unfoldable pub groups_of : List AlertDto → List Group
unfolding add_to_groups add_to_group named_groups unknown_alerts fold_unknown
groups_of alerts =
    let gs = add_to_groups [] alerts in fold_unknown gs (named_groups gs) (unknown_alerts gs)

-- The loop that creates the incidents.
create_each : Env → (IncidentManifest → Payload) → List Group → World → List Incident × World
create_each env dump [] w = ([], w)
create_each env dump ((c, alerts) ∷ gs) w =
    let created = create_incident_from_alerts env dump alerts none none none (some c) w in
    let rest = create_each env dump gs created.1 in (created.0 ∷ rest.0, rest.1)

unfoldable pub create_incidents :
    Env → (IncidentManifest → Payload) → List AlertDto → World → List Incident × World
unfolding create_each groups_of
create_incidents env dump alerts w = create_each env dump (groups_of alerts) w

size : List Group → ℕ
size [] = 0
size (g ∷ gs) = length g.1 + size gs

size-add_to_group : (a : AlertDto) (gs : List Group) → size (add_to_group a gs) ≡ suc (size gs)
unfolding add_to_group size
size-add_to_group a [] = refl
size-add_to_group a ((c, alerts) ∷ gs) =
    ground (arith, size-add_to_group a gs, length-append alerts (a ∷ []))

size-add_to_groups :
    (gs : List Group) (alerts : List AlertDto)
    → size (add_to_groups gs alerts) ≡ size gs + length alerts
unfolding add_to_groups
size-add_to_groups gs [] = omega arith
size-add_to_groups gs (a ∷ others) =
    omega (arith, size-add_to_groups (add_to_group a gs) others, size-add_to_group a gs)

size-split : (gs : List Group) → size gs ≡ size (named_groups gs) + length (unknown_alerts gs)
unfolding size named_groups unknown_alerts
size-split [] = refl
size-split (g ∷ gs) = ground (arith, size-split gs, length-append g.1 (unknown_alerts gs))

size-fold_unknown :
    (gs named : List Group) (unknown : List AlertDto)
    → size gs ≡ size named + length unknown
    → size (fold_unknown gs named unknown) ≡ size gs
unfolding size fold_unknown
size-fold_unknown gs [] unknown h = refl
size-fold_unknown gs ((c, alerts) ∷ []) unknown h = omega (arith, length-append alerts unknown)
size-fold_unknown gs (g ∷ h ∷ named) unknown e = refl

size-groups_of : (alerts : List AlertDto) → size (groups_of alerts) ≡ length alerts
unfolding groups_of size
size-groups_of alerts =
    let gs = add_to_groups [] alerts in
    omega (
      arith,
      size-fold_unknown gs (named_groups gs) (unknown_alerts gs) (size-split gs),
      size-add_to_groups [] alerts,
    )

length-create_each :
    (env : Env) (dump : IncidentManifest → Payload) (gs : List Group) (w : World)
    → (length (create_each env dump gs w).1.session.alerts ≡ length w.session.alerts + size gs)
      × (length (create_each env dump gs w).1.session.incidents
          ≡ length w.session.incidents + length gs)
unfolding create_each size
length-create_each env dump [] w = (omega arith, omega arith)
length-create_each env dump ((c, alerts) ∷ gs) w =
    let created = create_incident_from_alerts env dump alerts none none none (some c) w in
    let i = create_incident_from_alerts-IsCreated env dump alerts none none none (some c) w in
    let rest = length-create_each env dump gs created.1 in
    (
      omega (
        arith,
        rest.0,
        ap (λ l. length l) i.alerts_stored,
        length-append w.session.alerts i.alert_rows,
        i.number,
      ),
      omega (
        arith,
        rest.1,
        ap (λ l. length l) i.incidents,
        length-append w.session.incidents (created.0 ∷ []),
      ),
    )

-- When alerts are grouped and incidents created from the groups, one alert row is added per alert,
-- also where the unknown ones are folded into the only named cause, and one incident per group.
pub length-create_incidents :
    (env : Env) (dump : IncidentManifest → Payload) (alerts : List AlertDto) (w : World)
    → (length (create_incidents env dump alerts w).1.session.alerts
        ≡ length w.session.alerts + length alerts)
      × (length (create_incidents env dump alerts w).1.session.incidents
          ≡ length w.session.incidents + length (groups_of alerts))
unfolding create_incidents
length-create_incidents env dump alerts w =
    let made = length-create_each env dump (groups_of alerts) w in
    (omega (arith, made.0, size-groups_of alerts), made.1)

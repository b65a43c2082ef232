-- ===== src/Detection/Controls/Suite.antt =====
-- `run_all_detectors` of backend/app/detection/detectors.py. A control that raises ends the run.
use lineageiq.Common.{suc, Bool, List, [], ◌∷◌, ◌++◌, any, ◌≡◌, refl, ap, ◌∙◌, arith, inl, inr}
use lineageiq.Database.{Session}
use lineageiq.Environment.{Env, World}
use lineageiq.Detection.Alerts.{AlertDto}
use lineageiq.Simulator.Fx.{Checked, done, failed, is_failed, Checked-cases}
use lineageiq.Detection.Reconcile.{recompute_from_source}
use lineageiq.Detection.Reconcile.Errors.{lacks_rates, recompute_from_source-is_failed}
use lineageiq.Detection.Controls.{
  Draft, emit, duplicate_payments, missing_mappings, schema_changes, null_contamination,
  incorrect_aggregations,
}
use lineageiq.Detection.Controls.Days.{partial_loads, error_bursts}
use lineageiq.Detection.Controls.Rates.{stale_rates}
use lineageiq.Detection.Controls.Runs.{delayed_pipelines}
use lineageiq.Detection.Controls.Shifts.{shifted_days}
use lineageiq.Detection.Controls.Revenue.{revenue_mismatches}

abbrev pub Control : Type 0
Control = Env → Session → Checked (List Draft)

-- A control that cannot raise.
abbrev pub safe : (Env → Session → List Draft) → Control
safe control env s = done (control env s)

unfoldable pub all_detectors : List Control
all_detectors =
    safe (λ env s. duplicate_payments s)
    ∷ safe stale_rates
    ∷ safe (λ env s. missing_mappings s)
    ∷ safe (λ env s. schema_changes s)
    ∷ safe delayed_pipelines
    ∷ shifted_days
    ∷ safe (λ env s. null_contamination s)
    ∷ safe partial_loads
    ∷ safe incorrect_aggregations
    ∷ safe error_bursts
    ∷ revenue_mismatches
    ∷ []

-- `alerts.extend(detector.run(session))` for each control
unfoldable pub run_controls : Env → List Control → World → Checked (List AlertDto) × World
run_controls env [] w = (done [], w)
run_controls env (control ∷ controls) w = elim (control env w.session) [
  | failed e ↦ (failed e, w)
  | done drafts ↦
      let emitted = emit env drafts w in
      let rest = run_controls env controls emitted.1 in
      (elim rest.0 [ failed e ↦ failed e | done alerts ↦ done (emitted.0 ++ alerts) ], rest.1)
]

unfoldable pub run_all_detectors : Env → World → Checked (List AlertDto) × World
unfolding run_controls all_detectors
run_all_detectors env w = run_controls env all_detectors w

emit-session : (env : Env) (ds : List Draft) (w : World) → (emit env ds w).1.session ≡ w.session
unfolding emit
emit-session env [] w = refl
emit-session env (d ∷ ds) w = emit-session env ds (record w { readings = suc w.readings })

-- A control raises on a session.
abbrev raises : Env → Session → Control → Bool
raises env s control = is_failed (control env s)

run_controls-session :
    (env : Env) (controls : List Control) (w : World)
    → (run_controls env controls w).1.session ≡ w.session
unfolding run_controls
run_controls-session env [] w = refl
run_controls-session env (control ∷ controls) w = elim (Checked-cases (control env w.session)) [
  | inr (e, f) ↦ rw (f, run_controls) refl
  | inl (drafts, d) ↦
      rw (d, run_controls)
        (run_controls-session env controls (emit env drafts w).1 ∙ emit-session env drafts w)
]

is_failed-run_controls :
    (env : Env) (controls : List Control) (w : World)
    → is_failed (run_controls env controls w).0 ≡ any (raises env w.session) controls
unfolding run_controls
is_failed-run_controls env [] w = refl
is_failed-run_controls env (control ∷ controls) w = elim (Checked-cases (control env w.session)) [
  | inr (e, f) ↦ rw (f, run_controls) refl
  | inl (drafts, d) ↦
      let emitted = emit env drafts w in
      let rest =
        is_failed-run_controls env controls emitted.1
        ∙ ap (λ s. any (raises env s) controls) (emit-session env drafts w) in
      elim (Checked-cases (run_controls env controls emitted.1).0) [
        | inl (alerts, a) ↦ rw (d, run_controls, a) (rw a at rest)
        | inr (e, f) ↦ rw (d, run_controls, f) (rw f at rest)
      ]
]

-- A control that raises exactly when `recompute_from_source` does.
is_failed-shifted_days :
    (env : Env) (s : Session) → is_failed (shifted_days env s) ≡ is_failed (recompute_from_source s)
unfolding shifted_days
is_failed-shifted_days env s = elim (Checked-cases (recompute_from_source s)) [
  | inr (e, f) ↦ rw f refl
  | inl (recomputed, d) ↦ rw d refl
]

is_failed-revenue_mismatches :
    (env : Env) (s : Session)
    → is_failed (revenue_mismatches env s) ≡ is_failed (recompute_from_source s)
unfolding revenue_mismatches
is_failed-revenue_mismatches env s = elim (Checked-cases (recompute_from_source s)) [
  | inr (e, f) ↦ rw f refl
  | inl (recomputed, d) ↦ rw d refl
]

-- Running all controls leaves the session as it is, and raises exactly when an order that is not
-- cancelled, or a refund, of a customer with a region lacks a rate of its day; otherwise it gives
-- alerts.
pub run_all_detectors-is_failed :
    (env : Env) (w : World)
    → ((run_all_detectors env w).1.session ≡ w.session)
      × (is_failed (run_all_detectors env w).0 ≡ lacks_rates w.session)
unfolding run_all_detectors all_detectors
run_all_detectors-is_failed env w = (
  run_controls-session env all_detectors w,
  ground (
    arith,
    is_failed-run_controls env all_detectors w,
    is_failed-shifted_days env w.session,
    is_failed-revenue_mismatches env w.session,
    recompute_from_source-is_failed w.session,
  ),
)

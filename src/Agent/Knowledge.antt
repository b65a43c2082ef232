-- ===== src/Agent/Knowledge.antt =====
-- backend/app/agent/knowledge.py: the tool plan and the remediation of each root cause.
mod Steps
mod Fixed
mod Remedies
pub mod Plans
mod Tests
unfoldable pub use Remedies.{remediation_for}
pub use Remedies.{Remediation}
use lineageiq.Common.{ℕ, String, Option, none, some, List, [], ◌∷◌, concat}
use lineageiq.Effects.{Result, ok, raised}
use lineageiq.Taxonomy.{RootCauseCode}
use lineageiq.Database.{Payload, text, texts}
use lineageiq.Environment.{Env}
use lineageiq.Agent.Types.{ToolInvocation}
use Fixed.{fixed_steps}
use Steps.{
  meta_date, meta_text, days_before, days_after, step, lineage_step, historical_step, sql_step,
  or_default, present,
}

-- The pieces of the rate query's condition that depend on the date.
fx_window : Env → Option ℕ → Result (List String)
fx_window env none = ok []
fx_window env (some d) = elim (days_before 3 d) [
  | raised e ↦ raised e
  | ok lo ↦ elim (days_after 1 d) [
    | raised e ↦ raised e
    | ok hi ↦
        ok (" AND rate_date BETWEEN '" ∷ env.isoformat lo ∷ "' AND '" ∷ env.isoformat hi ∷ "'" ∷ [])
  ]
]

fx_steps : String → Option String → List String → List (Option ToolInvocation)
fx_steps currency focus_node window =
    some (
      sql_step
        (concat (
          "SELECT rate_date, source_currency, exchange_rate FROM fx_rates "
          ∷ "WHERE "
          ∷ "source_currency = '"
          ∷ currency
          ∷ "' AND target_currency = 'USD'"
          ∷ concat window
          ∷ " ORDER BY rate_date"
          ∷ []))
        "Compare FX rates around the suspected date for missing drift"
        "Check whether the FX rate failed to update")
    ∷ some (
        step "inspect_pipeline_runs" (("pipeline", text "fx_rate_pipeline") ∷ [])
          "Inspect FX pipeline runs for reuse/low row counts")
    ∷ some (
        step "search_logs"
          (("service", text "PL-fx_rate_pipeline")
            ∷ ("search_terms", texts ("stale" ∷ "reuse" ∷ "rate" ∷ []))
            ∷ [])
          "Find logs indicating the FX rate was reused")
    ∷ lineage_step (or_default focus_node "fx_rates") "downstream"
    ∷ some (historical_step "stale fx rate revenue overstated" "stale_fx_rate")
    ∷ []

-- The condition of the order query on the suspected day.
load_window : Env → Option ℕ → Result (List String)
load_window env none = ok []
load_window env (some d) = elim (days_after 1 d) [
  | raised e ↦ raised e
  | ok nxt ↦ ok (
      " WHERE order_timestamp >= '"
      ∷ env.isoformat d
      ∷ "' AND order_timestamp < '"
      ∷ env.isoformat nxt
      ∷ "'"
      ∷ [])
]

load_steps : Option String → List String → List (Option ToolInvocation)
load_steps focus_node where_clause =
    some (
      sql_step (concat ("SELECT order_id FROM orders" ∷ where_clause))
        "Count orders loaded for the suspected day" "Check for a truncated load")
    ∷ some (
        step "inspect_pipeline_runs" (("pipeline", text "orders_ingest") ∷ [])
          "Inspect ingest run row counts")
    ∷ lineage_step (or_default focus_node "orders") "downstream"
    ∷ some (historical_step "partial load truncated file" "partial_load")
    ∷ []

-- The branches of `build_playbook`.
steps_for : Env → RootCauseCode → Payload → Option String → Result (List (Option ToolInvocation))
steps_for env RootCauseCode.stale_fx_rate meta focus_node =
    elim (fx_window env (meta_date env meta)) [
      | raised e ↦ raised e
      | ok window ↦ ok (fx_steps (meta_text "currency" "EUR" meta) focus_node window)
    ]
steps_for env RootCauseCode.partial_load meta focus_node =
    elim (load_window env (meta_date env meta)) [
      | raised e ↦ raised e
      | ok where_clause ↦ ok (load_steps focus_node where_clause)
    ]
steps_for env cause meta focus_node = ok (fixed_steps cause meta focus_node)

unfoldable pub build_playbook :
    Env → RootCauseCode → Payload → Option String → Result (List ToolInvocation)
unfolding steps_for fixed_steps fx_steps fx_window load_steps load_window lineage_step meta_date
    days_before days_after
build_playbook env cause meta focus_node = elim (steps_for env cause meta focus_node) [
  | raised e ↦ raised e
  | ok steps ↦ ok (present steps)
]

-- ===== src/Agent/Knowledge/Fixed.antt =====
-- The plans of backend/app/agent/knowledge.py that use no date.
use lineageiq.Common.{String, Option, some, List, [], ◌∷◌, concat}
use lineageiq.Taxonomy.{RootCauseCode}
use lineageiq.Database.{Payload, text, texts}
use lineageiq.Agent.Types.{ToolInvocation}
use lineageiq.Agent.Knowledge.Steps.{
  meta_value, step, lineage_step, historical_step, sql_step, or_default,
}

-- The branches of `build_playbook` for the causes whose plan uses no date.
unfoldable pub fixed_steps : RootCauseCode → Payload → Option String → List (Option ToolInvocation)
unfolding lineage_step
fixed_steps RootCauseCode.duplicate_transaction meta focus_node =
    some (
      sql_step
        (concat (
          "SELECT idempotency_key, COUNT(*) AS c FROM payments "
          ∷ "GROUP BY idempotency_key HAVING COUNT(*) > 1" ∷ []))
        "Find payments sharing an idempotency key (duplicates)" "Detect duplicate payments")
    ∷ some (
        step "search_logs"
          (("service", text "PL-payment_reconciliation_pipeline")
            ∷ ("search_terms", texts ("retry" ∷ "idempotency" ∷ []))
            ∷ [])
          "Look for retry logs without dedupe")
    ∷ lineage_step (or_default focus_node "payments") "downstream"
    ∷ some (historical_step "duplicate payment double counted" "duplicate_transaction")
    ∷ []
fixed_steps RootCauseCode.missing_customer_mapping meta focus_node =
    some (
      sql_step "SELECT customer_id FROM customers WHERE crm_customer_id IS NULL"
        "List customers missing a CRM mapping" "Quantify unmapped customers")
    ∷ some (
        step "inspect_pipeline_runs" (("pipeline", text "customer_mapping_pipeline") ∷ [])
          "Inspect the customer mapping pipeline")
    ∷ lineage_step (or_default focus_node "customers") "downstream"
    ∷ some (historical_step "missing customer mapping unattributed" "missing_customer_mapping")
    ∷ []
fixed_steps RootCauseCode.schema_contract_change meta focus_node =
    some (
      step "inspect_schema" (("table", meta_value "table" "orders" meta) ∷ [])
        "Inspect the table schema + recent schema events")
    ∷ some (step "inspect_pipeline_runs" (("status", text "failed") ∷ []) "Find failed ingest runs")
    ∷ some (
        step "search_logs" (("search_terms", texts ("schema" ∷ "column" ∷ [])) ∷ [])
          "Find schema-contract violation logs")
    ∷ lineage_step (or_default focus_node "orders") "downstream"
    ∷ some (historical_step "schema contract change ingestion failed" "schema_change")
    ∷ []
fixed_steps RootCauseCode.delayed_pipeline meta focus_node =
    some (
      step "inspect_pipeline_runs" (("pipeline", text "revenue_aggregation_pipeline") ∷ [])
        "Inspect the aggregation pipeline for delays")
    ∷ some (
        step "search_logs" (("search_terms", texts ("delay" ∷ "sla" ∷ "skipped" ∷ [])) ∷ [])
          "Find SLA/delay logs")
    ∷ lineage_step (or_default focus_node "revenue_aggregation_pipeline") "downstream"
    ∷ some (historical_step "delayed pipeline report missing" "delayed_pipeline")
    ∷ []
fixed_steps RootCauseCode.timezone_conversion_error meta focus_node =
    some (
      sql_step
        (concat (
          "SELECT report_date, region, order_count FROM daily_revenue_report "
          ∷ "ORDER BY region, report_date" ∷ []))
        "Inspect order counts by day/region for a shift pattern" "Look for a day-boundary shift")
    ∷ lineage_step (or_default focus_node "orders") "downstream"
    ∷ some (historical_step "timezone conversion shifted revenue" "timezone_conversion_error")
    ∷ []
fixed_steps RootCauseCode.null_contamination meta focus_node =
    some (
      step "search_logs"
        (("service", text "PL-orders_ingest")
          ∷ ("search_terms", texts ("null" ∷ "validation" ∷ []))
          ∷ [])
        "Find null-field validation errors")
    ∷ some
        (step "inspect_schema" (("table", text "orders") ∷ []) "Confirm required (non-null) fields")
    ∷ lineage_step (or_default focus_node "staging_records") "downstream"
    ∷ some (historical_step "null contamination required field" "null_contamination")
    ∷ []
fixed_steps RootCauseCode.incorrect_aggregation meta focus_node =
    some (
      sql_step
        (concat (
          "SELECT report_date, region, gross_revenue, refund_total, net_revenue "
          ∷ "FROM daily_revenue_report " ∷ "WHERE net_revenue <> gross_revenue - refund_total"
          ∷ []))
        "Find report rows where net != gross - refund" "Detect aggregation inconsistency")
    ∷ lineage_step (or_default focus_node "revenue_aggregation_pipeline") "downstream"
    ∷ some (historical_step "incorrect aggregation net revenue" "incorrect_aggregation")
    ∷ []
fixed_steps RootCauseCode.upstream_api_failure meta focus_node =
    some (
      step "search_logs"
        (("service", text "payment_provider_api") ∷ ("log_levels", texts ("ERROR" ∷ [])) ∷ [])
        "Find the API error burst")
    ∷ some (
        step "inspect_pipeline_runs" (("status", text "failed") ∷ [])
          "Find the failed reconciliation run")
    ∷ lineage_step (or_default focus_node "payment_provider_api") "downstream"
    ∷ some (historical_step "upstream api failure missing payments" "upstream_api_failure")
    ∷ []
fixed_steps _ meta focus_node =
    some (
      sql_step
        (concat (
          "SELECT report_date, region, gross_revenue, net_revenue "
          ∷ "FROM daily_revenue_report ORDER BY report_date" ∷ []))
        "Inspect the revenue report" "Examine the affected report")
    ∷ lineage_step (or_default focus_node "daily_revenue_report") "upstream"
    ∷ some (historical_step "revenue reconciliation mismatch" "unknown")
    ∷ []

-- ===== src/Lineage/Focus.antt =====
-- `ROOT_CAUSE_FOCUS_NODE` of backend/app/lineage/graph_config.py and `focus_node_for` of
-- backend/app/lineage/service.py.
use lineageiq.Common.{String, Option, none, some}
use lineageiq.Taxonomy.{RootCauseCode, root_cause_of_value}

unfoldable pub focus_node : RootCauseCode → String
focus_node RootCauseCode.duplicate_transaction = "payments"
focus_node RootCauseCode.stale_fx_rate = "fx_rates"
focus_node RootCauseCode.missing_customer_mapping = "customers"
focus_node RootCauseCode.schema_contract_change = "orders"
focus_node RootCauseCode.delayed_pipeline = "revenue_aggregation_pipeline"
focus_node RootCauseCode.timezone_conversion_error = "orders"
focus_node RootCauseCode.null_contamination = "staging_records"
focus_node RootCauseCode.partial_load = "orders"
focus_node RootCauseCode.incorrect_aggregation = "revenue_aggregation_pipeline"
focus_node RootCauseCode.upstream_api_failure = "payment_provider_api"
focus_node RootCauseCode.unknown = "daily_revenue_report"

-- The ValueError of an unknown code is caught, and gives no node.
unfoldable pub focus_node_for : String → Option String
unfolding focus_node
focus_node_for root_cause = elim (root_cause_of_value root_cause) [
  | none ↦ none
  | some c ↦ some (focus_node c)
]

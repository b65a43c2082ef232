-- ===== src/Lineage/Atlas.antt =====
-- backend/app/lineage/graph_config.py: the graph of the shop's assets.
mod Tests
use lineageiq.Common.{ℕ, suc, String, str_eq, has, true, false, List, [], ◌∷◌, ◌≡◌, refl, ◌↔◌}
use lineageiq.Taxonomy.{RootCauseCode}
use lineageiq.Effects.{Result, ok, raised}
use lineageiq.Lineage.Focus.{focus_node}
use lineageiq.Lineage.Store.{
  NodeType, EdgeType, LineageNode, LineageEdge, LineageQueryResult, Graph, NetworkX, add_node,
  add_edge, downstream, has_edge, node_ids, subgraph_result,
}
use lineageiq.Lineage.Store.Reach.{Within, stop, step, IsNetworkX, traversal-Within}

abbrev node : String → NodeType → String → LineageNode
node id type label = record { id = id; type = type; label = label }

abbrev edge : String → String → EdgeType → LineageEdge
edge source target type = record { source = source; target = target; type = type }

-- `_NODES`
abbrev pub atlas_nodes : List LineageNode
atlas_nodes =
    node "crm_api" NodeType.api "CRM API"
    ∷ node "fx_api" NodeType.api "FX Rates API"
    ∷ node "payment_provider_api" NodeType.api "Payment Provider API"
    ∷ node "orders_system" NodeType.system "Orders System"
    ∷ node "shipments_system" NodeType.system "Shipments System"
    ∷ node "atlas_postgres" NodeType.database "AtlasCommerce Postgres"
    ∷ node "crm_customers" NodeType.table "crm_customers"
    ∷ node "customers" NodeType.table "customers"
    ∷ node "customer_limits" NodeType.table "customer_limits"
    ∷ node "orders" NodeType.table "orders"
    ∷ node "payments" NodeType.table "payments"
    ∷ node "refunds" NodeType.table "refunds"
    ∷ node "fx_rates" NodeType.table "fx_rates"
    ∷ node "shipments" NodeType.table "shipments"
    ∷ node "staging_records" NodeType.table "staging_records"
    ∷ node "crm_sync" NodeType.pipeline "crm_sync"
    ∷ node "customer_mapping_pipeline" NodeType.pipeline "customer_mapping_pipeline"
    ∷ node "orders_ingest" NodeType.pipeline "orders_ingest"
    ∷ node "payment_reconciliation_pipeline" NodeType.pipeline "payment_reconciliation_pipeline"
    ∷ node "refund_pipeline" NodeType.pipeline "refund_pipeline"
    ∷ node "fx_rate_pipeline" NodeType.pipeline "fx_rate_pipeline"
    ∷ node "shipment_pipeline" NodeType.pipeline "shipment_pipeline"
    ∷ node "revenue_aggregation_pipeline" NodeType.pipeline "revenue_aggregation_pipeline"
    ∷ node "daily_revenue_report" NodeType.report "daily_revenue_report"
    ∷ node "executive_revenue_dashboard" NodeType.dashboard "Executive Revenue Dashboard"
    ∷ node "finance_reconciliation_dashboard" NodeType.dashboard "Finance Reconciliation Dashboard"
    ∷ node "usd_net_revenue" NodeType.business_metric "USD Net Revenue"
    ∷ node "refund_rate_metric" NodeType.business_metric "Refund Rate"
    ∷ []

-- `_EDGES`
abbrev pub atlas_edges : List LineageEdge
atlas_edges =
    edge "crm_api" "crm_sync" EdgeType.calls
    ∷ edge "crm_sync" "crm_customers" EdgeType.writes_to
    ∷ edge "crm_customers" "customer_mapping_pipeline" EdgeType.reads_from
    ∷ edge "customer_mapping_pipeline" "customers" EdgeType.writes_to
    ∷ edge "customers" "customer_limits" EdgeType.maps_to
    ∷ edge "orders_system" "orders_ingest" EdgeType.calls
    ∷ edge "orders_ingest" "staging_records" EdgeType.writes_to
    ∷ edge "staging_records" "orders" EdgeType.transforms
    ∷ edge "customers" "orders" EdgeType.depends_on
    ∷ edge "payment_provider_api" "payment_reconciliation_pipeline" EdgeType.calls
    ∷ edge "orders" "payment_reconciliation_pipeline" EdgeType.reads_from
    ∷ edge "payment_reconciliation_pipeline" "payments" EdgeType.writes_to
    ∷ edge "payments" "refund_pipeline" EdgeType.reads_from
    ∷ edge "refund_pipeline" "refunds" EdgeType.writes_to
    ∷ edge "fx_api" "fx_rate_pipeline" EdgeType.calls
    ∷ edge "fx_rate_pipeline" "fx_rates" EdgeType.writes_to
    ∷ edge "shipments_system" "shipment_pipeline" EdgeType.calls
    ∷ edge "orders" "shipment_pipeline" EdgeType.reads_from
    ∷ edge "shipment_pipeline" "shipments" EdgeType.writes_to
    ∷ edge "orders" "revenue_aggregation_pipeline" EdgeType.aggregates_into
    ∷ edge "payments" "revenue_aggregation_pipeline" EdgeType.aggregates_into
    ∷ edge "refunds" "revenue_aggregation_pipeline" EdgeType.aggregates_into
    ∷ edge "fx_rates" "revenue_aggregation_pipeline" EdgeType.aggregates_into
    ∷ edge "revenue_aggregation_pipeline" "daily_revenue_report" EdgeType.writes_to
    ∷ edge "daily_revenue_report" "executive_revenue_dashboard" EdgeType.publishes
    ∷ edge "daily_revenue_report" "finance_reconciliation_dashboard" EdgeType.publishes
    ∷ edge "daily_revenue_report" "usd_net_revenue" EdgeType.aggregates_into
    ∷ edge "refunds" "refund_rate_metric" EdgeType.aggregates_into
    ∷ []

abbrev pub add_nodes : List LineageNode → Graph → Graph
add_nodes [] g = g
add_nodes (n ∷ ns) g = add_nodes ns (add_node n g)

abbrev add_to : List LineageEdge → Result Graph → Result Graph
add_to [] r = r
add_to (e ∷ es) (raised error) = raised error
add_to (e ∷ es) (ok g) = add_to es (add_edge e g)

abbrev pub build_lineage : List LineageNode → List LineageEdge → Result Graph
build_lineage ns es = add_to es (ok (add_nodes ns (record { nodes = []; edges = [] })))

unfoldable pub build_atlas_lineage : Result Graph
build_atlas_lineage = build_lineage atlas_nodes atlas_edges

abbrev pub atlas : Graph
atlas = record { nodes = atlas_nodes; edges = atlas_edges }

pub build_atlas_lineage-ok : build_atlas_lineage ≡ ok atlas
unfolding build_atlas_lineage
build_atlas_lineage-ok = refl

abbrev dashboard : String
dashboard = "executive_revenue_dashboard"

from_report : Within atlas 2 "daily_revenue_report" dashboard
from_report = step 1 "daily_revenue_report" dashboard dashboard refl (stop 1 dashboard)

from_aggregation : Within atlas 3 "revenue_aggregation_pipeline" dashboard
from_aggregation =
    step 2 "revenue_aggregation_pipeline" "daily_revenue_report" dashboard refl from_report

-- What feeds the aggregation.
from_source :
    (n : String)
    → has_edge atlas n "revenue_aggregation_pipeline" ≡ true
    → Within atlas 4 n dashboard
from_source n e = step 3 n "revenue_aggregation_pipeline" dashboard e from_aggregation

from_tables :
    (n m : String)
    → has_edge atlas n m ≡ true
    → has_edge atlas m "revenue_aggregation_pipeline" ≡ true
    → Within atlas 5 n dashboard
from_tables n m e f = step 4 n m dashboard e (from_source m f)

longer : (g : Graph) (r : ℕ) (n a : String) → Within g r n a → Within g (suc r) n a
longer g _ _ _ (stop r n) = stop (suc r) n
longer g _ _ _ (step r n m k h w) = step (suc r) n m k h (longer g r m k w)

focus_node-Within : (c : RootCauseCode) → Within atlas 6 (focus_node c) dashboard
unfolding focus_node
focus_node-Within RootCauseCode.duplicate_transaction =
    longer atlas 5 _ _ (longer atlas 4 _ _ (from_source "payments" refl))
focus_node-Within RootCauseCode.stale_fx_rate =
    longer atlas 5 _ _ (longer atlas 4 _ _ (from_source "fx_rates" refl))
focus_node-Within RootCauseCode.missing_customer_mapping =
    longer atlas 5 _ _ (from_tables "customers" "orders" refl refl)
focus_node-Within RootCauseCode.schema_contract_change =
    longer atlas 5 _ _ (longer atlas 4 _ _ (from_source "orders" refl))
focus_node-Within RootCauseCode.timezone_conversion_error =
    longer atlas 5 _ _ (longer atlas 4 _ _ (from_source "orders" refl))
focus_node-Within RootCauseCode.partial_load =
    longer atlas 5 _ _ (longer atlas 4 _ _ (from_source "orders" refl))
focus_node-Within RootCauseCode.null_contamination =
    longer atlas 5 _ _ (from_tables "staging_records" "orders" refl refl)
focus_node-Within RootCauseCode.upstream_api_failure =
    step 5 "payment_provider_api" "payment_reconciliation_pipeline" dashboard refl
      (from_tables "payment_reconciliation_pipeline" "payments" refl refl)
focus_node-Within RootCauseCode.delayed_pipeline =
    longer atlas 5 _ _ (longer atlas 4 _ _ (longer atlas 3 _ _ from_aggregation))
focus_node-Within RootCauseCode.incorrect_aggregation =
    longer atlas 5 _ _ (longer atlas 4 _ _ (longer atlas 3 _ _ from_aggregation))
focus_node-Within RootCauseCode.unknown =
    longer atlas 5 _ _ (longer atlas 4 _ _ (longer atlas 3 _ _ (longer atlas 2 _ _ from_report)))

focus_node-known : (c : RootCauseCode) → has (focus_node c) (node_ids atlas) ≡ true
unfolding focus_node
focus_node-known RootCauseCode.duplicate_transaction = refl
focus_node-known RootCauseCode.stale_fx_rate = refl
focus_node-known RootCauseCode.missing_customer_mapping = refl
focus_node-known RootCauseCode.schema_contract_change = refl
focus_node-known RootCauseCode.timezone_conversion_error = refl
focus_node-known RootCauseCode.partial_load = refl
focus_node-known RootCauseCode.null_contamination = refl
focus_node-known RootCauseCode.upstream_api_failure = refl
focus_node-known RootCauseCode.delayed_pipeline = refl
focus_node-known RootCauseCode.incorrect_aggregation = refl
focus_node-known RootCauseCode.unknown = refl

focus_node-other : (c : RootCauseCode) → str_eq dashboard (focus_node c) ≡ false
unfolding focus_node
focus_node-other RootCauseCode.duplicate_transaction = refl
focus_node-other RootCauseCode.stale_fx_rate = refl
focus_node-other RootCauseCode.missing_customer_mapping = refl
focus_node-other RootCauseCode.schema_contract_change = refl
focus_node-other RootCauseCode.timezone_conversion_error = refl
focus_node-other RootCauseCode.partial_load = refl
focus_node-other RootCauseCode.null_contamination = refl
focus_node-other RootCauseCode.upstream_api_failure = refl
focus_node-other RootCauseCode.delayed_pipeline = refl
focus_node-other RootCauseCode.incorrect_aggregation = refl
focus_node-other RootCauseCode.unknown = refl

downstream-known :
    (nx : NetworkX) (g : Graph) (n : String) (r : ℕ)
    → has n (node_ids g) ≡ true
    → (result : LineageQueryResult) × (downstream nx g n r ≡ ok result)
unfolding downstream
downstream-known nx g n r h = (subgraph_result nx g (λ p. p) (λ e. e) n g "downstream" r, rw h refl)

-- In the graph that is built from the configuration, where networkx gives the nodes within the
-- radius, the downstream traversal from the focus node of any root cause, to the default depth 6,
-- succeeds and reports the executive revenue dashboard as affected.
pub focus_node-affects_dashboard :
    (nx : NetworkX) (l : IsNetworkX nx) (c : RootCauseCode)
    → (g : Graph) × (build_atlas_lineage ≡ ok g)
      × (result : LineageQueryResult) × (downstream nx g (focus_node c) 6 ≡ ok result)
      × (has "executive_revenue_dashboard" result.affected_assets ≡ true)
focus_node-affects_dashboard nx l c =
    let found = downstream-known nx atlas (focus_node c) 6 (focus_node-known c) in
    (
      atlas,
      build_atlas_lineage-ok,
      found.0,
      found.1,
      ((traversal-Within nx l atlas (focus_node c) 6 dashboard).0 found.0 found.1).1
          (focus_node-other c, refl, focus_node-Within c),
    )

-- ===== src/Lineage/Atlas/Tests.antt =====
-- Traversals of the shop's assets with a concrete graph library.
use lineageiq.Common.{str_eq, has, true, false, ◌≡◌, ◌↔◌}
use lineageiq.Taxonomy.{RootCauseCode}
use lineageiq.Effects.{ok}
use lineageiq.Lineage.Focus.{focus_node}
use lineageiq.Lineage.Store.{Graph, LineageQueryResult, downstream, upstream, is_impact_node}
use lineageiq.Lineage.Store.Reach.{Within, traversal-Within}
use lineageiq.Lineage.Store.Search.{search_library, search_library-IsNetworkX}
use lineageiq.Lineage.Atlas.{atlas, build_atlas_lineage, focus_node-affects_dashboard}

traversal-Within_example :
    ((result : LineageQueryResult)
      → downstream search_library atlas "refunds" 6 ≡ ok result
      → (has "refund_rate_metric" result.affected_assets ≡ true) ↔ (
          (str_eq "refund_rate_metric" "refunds" ≡ false)
          × (is_impact_node atlas "refund_rate_metric" ≡ true)
          × Within atlas 6 "refunds" "refund_rate_metric"))
    × ((result : LineageQueryResult)
        → upstream search_library atlas "refunds" 6 ≡ ok result
        → (has "refund_rate_metric" result.affected_assets ≡ true) ↔ (
            (str_eq "refund_rate_metric" "refunds" ≡ false)
            × (is_impact_node atlas "refund_rate_metric" ≡ true)
            × Within atlas 6 "refund_rate_metric" "refunds"))
traversal-Within_example =
    traversal-Within search_library search_library-IsNetworkX atlas "refunds" 6 "refund_rate_metric"

focus_node-affects_dashboard_example :
    (g : Graph) × (build_atlas_lineage ≡ ok g)
    × (result : LineageQueryResult) × (downstream search_library g
          (focus_node RootCauseCode.stale_fx_rate)
          6
        ≡ ok result)
    × (has "executive_revenue_dashboard" result.affected_assets ≡ true)
focus_node-affects_dashboard_example =
    focus_node-affects_dashboard search_library search_library-IsNetworkX
      RootCauseCode.stale_fx_rate

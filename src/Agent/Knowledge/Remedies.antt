-- ===== src/Agent/Knowledge/Remedies.antt =====
-- The remediation table of backend/app/agent/knowledge.py.
use lineageiq.Common.{String}
use lineageiq.Taxonomy.{RootCauseCode}

pub record Remediation : Type 0 where
  pub action : String
  pub target_system : String
  pub risk : String

abbrev remedy : String → String → String → Remediation
remedy action target_system risk = record {
  action = action;
  target_system = target_system;
  risk = risk;
}

-- `REMEDIATION`, which has an entry for every code.
unfoldable pub remediation_for : RootCauseCode → Remediation
remediation_for RootCauseCode.stale_fx_rate =
    remedy "Refresh FX rates for the affected date and regenerate affected revenue reports"
      "ForeignExchange" "medium"
remediation_for RootCauseCode.duplicate_transaction =
    remedy "Deduplicate payments by idempotency_key and rebuild affected aggregates" "Payments"
      "high"
remediation_for RootCauseCode.missing_customer_mapping =
    remedy "Backfill customer-to-CRM mapping and reprocess attribution" "CRM" "medium"
remediation_for RootCauseCode.schema_contract_change =
    remedy "Update the schema contract / staging field mapping and reprocess the staged batch"
      "Orders" "high"
remediation_for RootCauseCode.delayed_pipeline =
    remedy "Re-run the aggregation once the delayed upstream ingest completes" "Reporting" "low"
remediation_for RootCauseCode.timezone_conversion_error =
    remedy "Normalize source timestamps to UTC and re-aggregate the affected days" "Orders" "medium"
remediation_for RootCauseCode.null_contamination =
    remedy "Quarantine null staged rows, fix the source feed, and reload" "Orders" "medium"
remediation_for RootCauseCode.partial_load =
    remedy "Reload the complete source file and verify row counts" "Orders" "high"
remediation_for RootCauseCode.incorrect_aggregation =
    remedy "Fix the aggregation logic (refund sign) and recompute the report" "Reporting" "high"
remediation_for RootCauseCode.upstream_api_failure =
    remedy "Replay the failed payment windows once the provider recovers" "Payments" "medium"
remediation_for RootCauseCode.unknown =
    remedy "Escalate for manual investigation; insufficient evidence for automated remediation"
      "Reporting" "low"

-- ===== src/Database.antt =====
-- backend/app/models: the rows of the tables, and the session as the tables' contents.
-- A datetime is the number of microseconds since 0001-01-01T00:00 UTC, a date the number of days
-- since then. Money is an integer number of ten-thousandths, an exchange rate a number of
-- hundred-millionths.
mod Values
mod Business
mod Operational
pub use Values.*
pub use Business.*
pub use Operational.*
use lineageiq.Common.{ℕ, String, List, ◌+◌, ◌/◌}

-- What one database session sees: each table's rows, oldest first.
pub record Session : Type 0 where
  pub crm_customers : List CrmCustomer
  pub customers : List Customer
  pub customer_limits : List CustomerLimit
  pub orders : List Order
  pub payments : List Payment
  pub refunds : List Refund
  pub fx_rates : List FxRate
  pub shipments : List Shipment
  pub daily_revenue_report : List DailyRevenueReport
  pub pipeline_definitions : List PipelineDefinition
  pub pipeline_runs : List PipelineRun
  pub system_logs : List SystemLog
  pub incidents : List Incident
  pub alerts : List Alert
  pub evidence : List Evidence
  pub agent_runs : List AgentRun
  pub incident_ground_truth : List IncidentGroundTruth
  pub historical_incidents : List HistoricalIncident
  pub staging_records : List StagingRecord
  pub schema_events : List SchemaEvent

-- `t.date()`
abbrev pub date_of : ℕ → ℕ
date_of t = t / 86_400_000_000

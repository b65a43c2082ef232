-- ===== src/Detection/Samples.antt =====
-- Two days of one customer's business, for the tests of backend/app/detection.
use lineageiq.Common.{ℕ, ◌+◌, ◌*◌, ℤ, pos, String, [], ◌∷◌, none, some}
use lineageiq.Database.{
  Session, Customer, Order, Payment, Refund, FxRate, DailyRevenueReport, PipelineRun,
}
use lineageiq.Environment.{World}
use lineageiq.Agent.Samples.{small_session}

abbrev pub a_customer : Customer
a_customer = record {
  customer_id = "C-1";
  legal_name = "Ada";
  country = "DE";
  region = "Europe";
  base_currency = "EUR";
  crm_customer_id = some "CRM-1";
  created_at = 0;
  status = "active";
}

abbrev pub an_order : String → ℕ → ℤ → Order
an_order order_id day amount = record {
  order_id = order_id;
  customer_id = "C-1";
  order_timestamp = day * 86_400_000_000;
  order_currency = "EUR";
  gross_amount = amount;
  net_amount = amount;
  tax_amount = pos 0;
  order_status = "completed";
  source_system = "shop";
  updated_at = 0;
}

abbrev pub a_payment : String → String → ℕ → Payment
a_payment payment_id key day = record {
  payment_id = payment_id;
  order_id = "O-1";
  customer_id = "C-1";
  payment_timestamp = day * 86_400_000_000;
  payment_currency = "EUR";
  payment_amount = pos 100;
  payment_status = "successful";
  payment_provider = "provider";
  idempotency_key = key;
  updated_at = 0;
}

abbrev pub a_refund : ℕ → Refund
a_refund day = record {
  refund_id = "R-1";
  payment_id = "P-1";
  order_id = "O-1";
  customer_id = "C-1";
  refund_timestamp = day * 86_400_000_000;
  refund_currency = "EUR";
  refund_amount = pos 30;
  refund_reason = "late";
  refund_status = "completed";
  updated_at = 0;
}

abbrev pub a_rate : ℕ → ℕ → FxRate
a_rate day rate = record {
  rate_date = day;
  source_currency = "EUR";
  target_currency = "USD";
  provider = "ecb";
  exchange_rate = rate;
  retrieved_at = 0;
}

abbrev pub a_report : ℕ → ℤ → DailyRevenueReport
a_report day gross = record {
  report_date = day;
  region = "Europe";
  reporting_currency = "USD";
  gross_revenue = gross;
  refund_total = pos 45;
  net_revenue = pos 120;
  order_count = 1;
  payment_count = 1;
  generated_at = 0;
  source_pipeline_run_id = none;
}

abbrev pub a_run : ℕ → String → PipelineRun
a_run day status = record {
  pipeline_run_id = "PR-1";
  pipeline_id = "PL-orders_ingest";
  started_at = day * 86_400_000_000;
  completed_at = some (day * 86_400_000_000 + 3_600_000_000);
  status = status;
  rows_read = 10;
  rows_written = 10;
  error_message = none;
  run_metadata = none;
}

-- A rate of 1.5 on days 7 and 8; one report, of day 7, where the order was of 1.65 in dollars.
abbrev pub trade_session : Session
trade_session = record small_session {
  customers = a_customer ∷ [];
  orders = an_order "O-1" 7 (pos 11_001) ∷ an_order "O-2" 8 (pos 200) ∷ [];
  payments = a_payment "P-1" "k1" 7 ∷ a_payment "P-2" "k2" 8 ∷ [];
  refunds = a_refund 7 ∷ [];
  fx_rates = a_rate 7 150_000_000 ∷ a_rate 8 150_000_000 ∷ [];
  daily_revenue_report = a_report 7 (pos 16_500) ∷ [];
  pipeline_runs = a_run 7 "success" ∷ [];
}

abbrev pub trade_world : World
trade_world = record { session = trade_session; uuids = 0; readings = 0 }

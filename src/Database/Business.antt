-- ===== src/Database/Business.antt =====
-- backend/app/models/business.py
use lineageiq.Common.{ℕ, ℤ, String, Option}

pub record CrmCustomer : Type 0 where
  pub crm_customer_id : String
  pub external_customer_reference : String
  pub legal_name : String
  pub country : String
  pub segment : String
  pub updated_at : ℕ

pub record Customer : Type 0 where
  pub customer_id : String
  pub legal_name : String
  pub country : String
  pub region : String
  pub base_currency : String
  pub crm_customer_id : Option String
  pub created_at : ℕ
  pub status : String

pub record CustomerLimit : Type 0 where
  pub limit_id : String
  pub customer_id : String
  pub currency : String
  pub credit_limit : ℤ
  pub effective_from : ℕ
  pub effective_to : Option ℕ
  pub updated_at : ℕ

pub record Order : Type 0 where
  pub order_id : String
  pub customer_id : String
  pub order_timestamp : ℕ
  pub order_currency : String
  pub gross_amount : ℤ
  pub net_amount : ℤ
  pub tax_amount : ℤ
  pub order_status : String
  pub source_system : String
  pub updated_at : ℕ

pub record Payment : Type 0 where
  pub payment_id : String
  pub order_id : String
  pub customer_id : String
  pub payment_timestamp : ℕ
  pub payment_currency : String
  pub payment_amount : ℤ
  pub payment_status : String
  pub payment_provider : String
  pub idempotency_key : String
  pub updated_at : ℕ

pub record Refund : Type 0 where
  pub refund_id : String
  pub payment_id : String
  pub order_id : String
  pub customer_id : String
  pub refund_timestamp : ℕ
  pub refund_currency : String
  pub refund_amount : ℤ
  pub refund_reason : String
  pub refund_status : String
  pub updated_at : ℕ

pub record FxRate : Type 0 where
  pub rate_date : ℕ
  pub source_currency : String
  pub target_currency : String
  pub provider : String
  pub exchange_rate : ℕ
  pub retrieved_at : ℕ

pub record Shipment : Type 0 where
  pub shipment_id : String
  pub order_id : String
  pub warehouse_region : String
  pub carrier : String
  pub shipment_status : String
  pub shipped_at : Option ℕ
  pub delivered_at : Option ℕ
  pub updated_at : ℕ

pub record DailyRevenueReport : Type 0 where
  pub report_date : ℕ
  pub region : String
  pub reporting_currency : String
  pub gross_revenue : ℤ
  pub refund_total : ℤ
  pub net_revenue : ℤ
  pub order_count : ℕ
  pub payment_count : ℕ
  pub generated_at : ℕ
  pub source_pipeline_run_id : Option String

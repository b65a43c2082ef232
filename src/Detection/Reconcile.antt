-- ===== src/Detection/Reconcile.antt =====
-- backend/app/detection/reconcile.py: revenue recomputed from the source rows with the stored rates.
-- A dict by date and region is a list in the order of insertion; so is the dict over a set of keys,
-- whose order Python leaves open.
pub mod DayKeys
mod Counted
mod AddedOrders
mod AddedPayments
mod AddedRefunds
pub mod Totals
pub mod Errors
mod Tests
use lineageiq.Common.{
  ℕ, suc, ◌+◌, ◌==◌, ◌&&◌, ℤ, pos, ◌+ℤ◌, ◌-ℤ◌, String, str_eq, Option, none, some, List, [], ◌∷◌,
  ◌++◌, map, any, if◌then◌else◌,
}
use lineageiq.Database.{
  Session, Customer, Order, Payment, Refund, FxRate, DailyRevenueReport, date_of,
}
use lineageiq.Simulator.Fx.{FxTable, Checked, done, failed, convert, reporting_currency, ◌>>=◌}
use lineageiq.Detection.Reconcile.DayKeys.{DayKey, Dict, same_key, value_of, adjust, keys_of, union}

pub record Recomputed : Type 0 where
  pub gross : ℤ
  pub refund_total : ℤ
  pub order_count : ℕ
  pub payment_count : ℕ

-- `net`
abbrev pub recomputed_net : Recomputed → ℤ
recomputed_net r = r.gross -ℤ r.refund_total

-- `_fx_table`: a later row replaces an earlier one of its key.
abbrev pub set_rate : FxRate → FxTable → FxTable
set_rate r table day source target =
    if (day == r.rate_date) && (str_eq source r.source_currency && str_eq target r.target_currency)
    then some r.exchange_rate
    else table day source target

abbrev pub fx_table_of : FxTable → List FxRate → FxTable
fx_table_of table [] = table
fx_table_of table (r ∷ rs) = fx_table_of (set_rate r table) rs

abbrev pub fx_table : Session → FxTable
fx_table s = fx_table_of (λ day source target. none) s.fx_rates

-- `region_by_customer.get(customer_id)`: a later customer of the id replaces an earlier one.
abbrev pub region_of : List Customer → String → Option String
region_of [] customer_id = none
region_of (c ∷ cs) customer_id = elim (region_of cs customer_id) [
  | some region ↦ some region
  | none ↦ if str_eq c.customer_id customer_id then some c.region else none
]

-- The four dicts, as far as the loops have filled them.
pub record Sums : Type 0 where
  pub gross : Dict ℤ
  pub refund_total : Dict ℤ
  pub order_count : Dict ℕ
  pub pay_count : Dict ℕ

abbrev pub no_sums : Sums
no_sums = record { gross = []; refund_total = []; order_count = []; pay_count = [] }

abbrev pub add_order_amount : DayKey → ℤ → Sums → Sums
add_order_amount key amount sums = record sums {
  gross = adjust key (pos 0) (λ x. x +ℤ amount) sums.gross;
  order_count = adjust key 0 suc sums.order_count;
}

unfoldable pub add_orders : (String → Option String) → FxTable → Sums → List Order → Checked Sums
add_orders regions fx sums [] = done sums
add_orders regions fx sums (o ∷ os) =
    if str_eq o.order_status "cancelled"
    then add_orders regions fx sums os
    else elim (regions o.customer_id) [
      | none ↦ add_orders regions fx sums os
      | some region ↦
          convert o.gross_amount o.order_currency reporting_currency (date_of o.order_timestamp) fx
          >>= λ amount.
              add_orders regions fx
                (add_order_amount (date_of o.order_timestamp, region) amount sums) os
    ]

abbrev pub count_payment : DayKey → Sums → Sums
count_payment key sums = record sums { pay_count = adjust key 0 suc sums.pay_count }

unfoldable pub add_payments : (String → Option String) → Sums → List Payment → Sums
add_payments regions sums [] = sums
add_payments regions sums (p ∷ ps) =
    if str_eq p.payment_status "successful"
    then elim (regions p.customer_id) [
      | none ↦ add_payments regions sums ps
      | some region ↦
          add_payments regions (count_payment (date_of p.payment_timestamp, region) sums) ps
    ]
    else add_payments regions sums ps

abbrev pub add_refund_amount : DayKey → ℤ → Sums → Sums
add_refund_amount key amount sums = record sums {
  refund_total = adjust key (pos 0) (λ x. x +ℤ amount) sums.refund_total;
}

unfoldable pub add_refunds : (String → Option String) → FxTable → Sums → List Refund → Checked Sums
add_refunds regions fx sums [] = done sums
add_refunds regions fx sums (r ∷ rs) = elim (regions r.customer_id) [
  | none ↦ add_refunds regions fx sums rs
  | some region ↦
      convert r.refund_amount r.refund_currency reporting_currency (date_of r.refund_timestamp) fx
      >>= λ amount.
          add_refunds regions fx
            (add_refund_amount (date_of r.refund_timestamp, region) amount sums) rs
]

abbrev pub recomputed_at : Sums → DayKey → Recomputed
recomputed_at sums key = record {
  gross = value_of key (pos 0) sums.gross;
  refund_total = value_of key (pos 0) sums.refund_total;
  order_count = value_of key 0 sums.order_count;
  payment_count = value_of key 0 sums.pay_count;
}

-- `set(gross) | set(refund_total) | set(pay_count)`
abbrev pub summed_keys : Sums → List DayKey
summed_keys sums =
    union (union (keys_of sums.gross) (keys_of sums.refund_total)) (keys_of sums.pay_count)

unfoldable pub summed : Session → Checked Sums
unfolding add_orders add_payments add_refunds
summed s =
    let regions = region_of s.customers in
    add_orders regions (fx_table s) no_sums s.orders >>= λ sums.
    add_refunds regions (fx_table s) (add_payments regions sums s.payments) s.refunds

unfoldable pub recompute_from_source : Session → Checked (Dict Recomputed)
unfolding summed
recompute_from_source s =
    summed s >>= λ sums. done (map (λ key. (key, recomputed_at sums key)) (summed_keys sums))

-- `load_reports`: a dict by date and region, where a later row replaces an earlier one in its place.
abbrev pub report_key : DailyRevenueReport → DayKey
report_key r = (r.report_date, r.region)

abbrev pub set_report : DailyRevenueReport → List DailyRevenueReport → List DailyRevenueReport
set_report r [] = r ∷ []
set_report r (x ∷ xs) =
    if same_key (report_key x) (report_key r) then r ∷ xs else x ∷ set_report r xs

abbrev pub set_reports : List DailyRevenueReport → List DailyRevenueReport → List DailyRevenueReport
set_reports known [] = known
set_reports known (r ∷ rs) = set_reports (set_report r known) rs

unfoldable pub load_reports : Session → List DailyRevenueReport
load_reports s = set_reports [] s.daily_revenue_report

-- `reports.get(key)`
abbrev pub report_at : DayKey → List DailyRevenueReport → Option DailyRevenueReport
report_at key [] = none
report_at key (r ∷ rs) = if same_key (report_key r) key then some r else report_at key rs

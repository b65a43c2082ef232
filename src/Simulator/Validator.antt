-- ===== src/Simulator/Validator.antt =====
-- backend/app/simulator/validator.py. The dicts of its last check are those of
-- backend/app/detection/reconcile.py, but a customer without an entry is a KeyError.
mod SourceSums
mod ReportCheck
pub mod Silent
mod Tests
use lineageiq.Common.{
  ℕ, suc, ◌+◌, ◌==◌, ◌&&◌, ◌||◌, Bool, true, false, not, ltb, ℤ, pos, ◌+ℤ◌, ◌-ℤ◌, eq_ℤ, ltb_ℤ,
  String, str_eq, Option, none, some, List, [], ◌∷◌, ◌++◌, map, keep, any, all, length, concat,
  show, counter, if◌then◌else◌,
}
use lineageiq.Database.{
  Session, Customer, CrmCustomer, Order, Payment, Refund, Shipment, DailyRevenueReport, date_of,
}
use lineageiq.Simulator.Fx.{FxError, FxTable, Checked, done, failed, convert, reporting_currency}
use lineageiq.Detection.Reconcile.DayKeys.{DayKey, value_of, union}
use lineageiq.Detection.Reconcile.{
  Sums, no_sums, add_order_amount, count_payment, add_refund_amount, fx_table_of, region_of,
  report_key,
}

pub record CheckResult : Type 0 where
  pub name : String
  pub passed : Bool
  pub detail : String

-- `ValidationReport.passed`
abbrev pub report_passed : List CheckResult → Bool
report_passed checks = all (λ c. c.passed) checks

-- `report.add(name, n == 0, f"{label}={n}")`
abbrev none_of : String → String → ℕ → CheckResult
none_of name label n = record {
  name = name;
  passed = n == 0;
  detail = concat (label ∷ "=" ∷ show n ∷ []);
}

abbrev non_empty : Session → CheckResult
non_empty s =
    let customers = length s.customers in
    let orders = length s.orders in
    record {
      name = "dataset_non_empty";
      passed = ltb 0 customers && ltb 0 orders;
      detail = concat ("customers=" ∷ show customers ∷ " orders=" ∷ show orders ∷ []);
    }

abbrev pub is_orphan_order : Session → Order → Bool
is_orphan_order s o = not (any (λ c. str_eq c.customer_id o.customer_id) s.customers)

-- Without a mapping, or mapped to no stored customer of the CRM.
abbrev pub lacks_mapping : Session → Customer → Bool
lacks_mapping s c = elim c.crm_customer_id [
  | none ↦ true
  | some id ↦ not (any (λ r. str_eq r.crm_customer_id id) s.crm_customers)
]

abbrev pub is_orphan_payment : Session → Payment → Bool
is_orphan_payment s p = not (any (λ o. str_eq o.order_id p.order_id) s.orders)

abbrev pub is_orphan_refund : Session → Refund → Bool
is_orphan_refund s r = not (any (λ p. str_eq p.payment_id r.payment_id) s.payments)

abbrev pub is_orphan_shipment : Session → Shipment → Bool
is_orphan_shipment s h = not (any (λ o. str_eq o.order_id h.order_id) s.orders)

abbrev pub is_unbalanced : Order → Bool
is_unbalanced o = not (eq_ℤ (o.net_amount +ℤ o.tax_amount) o.gross_amount)

-- `pay_amounts.get(payment_id)`: a later payment of the id replaces an earlier one.
abbrev pub amount_of : List Payment → String → Option ℤ
amount_of [] payment_id = none
amount_of (p ∷ ps) payment_id = elim (amount_of ps payment_id) [
  | some amount ↦ some amount
  | none ↦ if str_eq p.payment_id payment_id then some p.payment_amount else none
]

abbrev pub is_over_refund : Session → Refund → Bool
is_over_refund s r = elim (amount_of s.payments r.payment_id) [
  | none ↦ false
  | some amount ↦ ltb_ℤ amount r.refund_amount
]

abbrev pub duplicate_keys : Session → List (String × ℕ)
duplicate_keys s = keep (λ e. ltb 1 e.1) (counter (map (λ p. p.idempotency_key) s.payments))

-- `_fx_table_from_db`
abbrev pub fx_table_from_db : Session → FxTable
fx_table_from_db s = fx_table_of (λ day source target. none) s.fx_rates

-- The distinct days and currencies of the orders.
abbrev pub currency_days : Session → List DayKey
currency_days s = union [] (map (λ o. (date_of o.order_timestamp, o.order_currency)) s.orders)

abbrev pub is_uncovered : FxTable → DayKey → Bool
is_uncovered fx (d, currency) =
    not (str_eq currency reporting_currency)
    && elim (fx d currency reporting_currency) [ none ↦ true | some rate ↦ false ]

-- `KeyError` for a customer, and what `convert` raises
pub data ValidatorError : Type 0 where
  missing_customer : String → ValidatorError
  conversion : FxError → ValidatorError

pub data Validated (A : Type 0) : Type 0 where
  valid : A → Validated A
  broken : ValidatorError → Validated A

module _ {A B : Type 0} where
  infixl 5 ◌>>=◌
  abbrev pub ◌>>=◌ : Validated A → (A → Validated B) → Validated B
  valid a >>= f = f a
  broken e >>= f = broken e

-- The conversion's exception goes through.
abbrev pub converted : Checked ℤ → Validated ℤ
converted (done a) = valid a
converted (failed e) = broken (conversion e)

-- `region_by_customer[customer_id]`
abbrev pub region_at : (String → Option String) → String → Validated String
region_at regions customer_id = elim (regions customer_id) [
  | none ↦ broken (missing_customer customer_id)
  | some region ↦ valid region
]

abbrev pub sum_orders : (String → Option String) → FxTable → Sums → List Order → Validated Sums
sum_orders regions fx sums [] = valid sums
sum_orders regions fx sums (o ∷ os) =
    if str_eq o.order_status "cancelled"
    then sum_orders regions fx sums os
    else region_at regions o.customer_id >>= λ region.
        converted (
          convert o.gross_amount o.order_currency reporting_currency (date_of o.order_timestamp) fx)
        >>= λ amount.
            sum_orders regions fx (add_order_amount (date_of o.order_timestamp, region) amount sums)
              os

abbrev pub sum_payments : (String → Option String) → Sums → List Payment → Validated Sums
sum_payments regions sums [] = valid sums
sum_payments regions sums (p ∷ ps) =
    if str_eq p.payment_status "successful"
    then (region_at regions p.customer_id >>= λ region.
        sum_payments regions (count_payment (date_of p.payment_timestamp, region) sums) ps)
    else sum_payments regions sums ps

abbrev pub sum_refunds : (String → Option String) → FxTable → Sums → List Refund → Validated Sums
sum_refunds regions fx sums [] = valid sums
sum_refunds regions fx sums (r ∷ rs) = region_at regions r.customer_id >>= λ region.
    converted
      (convert r.refund_amount r.refund_currency reporting_currency (date_of r.refund_timestamp) fx)
    >>= λ amount.
        sum_refunds regions fx (add_refund_amount (date_of r.refund_timestamp, region) amount sums)
          rs

unfoldable pub source_sums : Session → Validated Sums
source_sums s =
    let regions = region_of s.customers in
    let fx = fx_table_from_db s in
    sum_orders regions fx no_sums s.orders >>= λ ordered.
    sum_payments regions ordered s.payments >>= λ paid. sum_refunds regions fx paid s.refunds

abbrev pub reconciles : Sums → DailyRevenueReport → Bool
reconciles sums r =
    let key = report_key r in
    let gross = value_of key (pos 0) sums.gross in
    let refund_total = value_of key (pos 0) sums.refund_total in
    eq_ℤ r.gross_revenue gross
    && (eq_ℤ r.refund_total refund_total
        && (eq_ℤ r.net_revenue (gross -ℤ refund_total)
            && ((r.order_count == value_of key 0 sums.order_count)
                && (r.payment_count == value_of key 0 sums.pay_count))))

abbrev pub report_check : Session → Sums → CheckResult
report_check s sums =
    let mismatches = length (keep (λ r. not (reconciles sums r)) s.daily_revenue_report) in
    record {
      name = "revenue_report_reconciles";
      passed = mismatches == 0;
      detail = concat (
          "reports="
          ∷ show (length s.daily_revenue_report)
          ∷ " mismatches="
          ∷ show mismatches
          ∷ []);
    }

-- The checks before the last.
abbrev pub row_checks : Session → List CheckResult
row_checks s =
    non_empty s
    ∷ none_of "orders_reference_customers" "orphans" (length (keep (is_orphan_order s) s.orders))
    ∷ none_of "customers_mapped_to_crm" "unmapped" (length (keep (lacks_mapping s) s.customers))
    ∷ none_of "payments_reference_orders" "orphans" (length (keep (is_orphan_payment s) s.payments))
    ∷ none_of "refunds_reference_payments" "orphans" (length (keep (is_orphan_refund s) s.refunds))
    ∷ none_of "shipments_reference_orders" "orphans"
        (length (keep (is_orphan_shipment s) s.shipments))
    ∷ none_of "order_amounts_balance" "mismatches" (length (keep is_unbalanced s.orders))
    ∷ none_of "refunds_within_payment" "over" (length (keep (is_over_refund s) s.refunds))
    ∷ none_of "no_duplicate_idempotency_keys" "dups" (length (duplicate_keys s))
    ∷ none_of "fx_coverage_complete" "missing"
        (length (keep (is_uncovered (fx_table_from_db s)) (currency_days s)))
    ∷ []

unfoldable pub validate_clean_baseline : Session → Validated (List CheckResult)
unfolding source_sums
validate_clean_baseline s =
    source_sums s >>= λ sums. valid (row_checks s ++ report_check s sums ∷ [])

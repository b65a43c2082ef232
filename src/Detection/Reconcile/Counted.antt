-- ===== src/Detection/Reconcile/Counted.antt =====
-- The source rows that count for a date and region in backend/app/detection/reconcile.py, and their
-- amounts in the reporting currency.
use lineageiq.Common.{
  ℕ, ℤ, pos, ◌+ℤ◌, Bool, false, not, ◌&&◌, String, str_eq, Option, none, some, List, [], ◌∷◌,
}
use lineageiq.Database.{Order, Payment, Refund, date_of}
use lineageiq.Simulator.Fx.{FxTable, Checked, done, failed, convert, reporting_currency}
use lineageiq.Detection.Reconcile.DayKeys.{DayKey, same_key}

-- The sum of amounts, from a first one on.
abbrev pub total : ℤ → List ℤ → ℤ
total x [] = x
total x (y ∷ ys) = total (x +ℤ y) ys

module _ (regions : String → Option String) (fx : FxTable) (key : DayKey) where
  abbrev pub of_key : String → ℕ → Bool
  of_key customer_id t = elim (regions customer_id) [
    | none ↦ false
    | some region ↦ same_key (date_of t, region) key
  ]

  -- An order that counts for a date and region; so too a payment and a refund.
  abbrev pub is_order_of : Order → Bool
  is_order_of o = not (str_eq o.order_status "cancelled") && of_key o.customer_id o.order_timestamp

  abbrev pub is_payment_of : Payment → Bool
  is_payment_of p = str_eq p.payment_status "successful" && of_key p.customer_id p.payment_timestamp

  abbrev pub is_refund_of : Refund → Bool
  is_refund_of r = of_key r.customer_id r.refund_timestamp

  abbrev amount_or_zero : Checked ℤ → ℤ
  amount_or_zero (done a) = a
  amount_or_zero (failed e) = pos 0

  abbrev pub order_amount : Order → ℤ
  order_amount o =
      amount_or_zero
        (convert o.gross_amount o.order_currency reporting_currency (date_of o.order_timestamp) fx)

  abbrev pub refund_amount : Refund → ℤ
  refund_amount r =
      amount_or_zero (
        convert r.refund_amount r.refund_currency reporting_currency (date_of r.refund_timestamp)
          fx)

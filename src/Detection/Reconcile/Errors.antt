-- ===== src/Detection/Reconcile/Errors.antt =====
-- When `recompute_from_source` of backend/app/detection/reconcile.py raises.
use lineageiq.Common.{
  ℕ, ℤ, Bool, true, false, not, ◌&&◌, ◌||◌, String, str_eq, Option, none, some, List, [], ◌∷◌, any,
  ◌≡◌, refl, arith, Bool-cases, Option-cases, inl, inr,
}
use lineageiq.Database.{Session, Order, Refund, date_of}
use lineageiq.Simulator.Fx.{FxTable, is_failed, convert, reporting_currency, Checked-cases}
use lineageiq.Detection.Reconcile.{
  Sums, add_orders, add_payments, add_refunds, recompute_from_source, summed, fx_table, region_of,
  no_sums, add_order_amount, add_refund_amount,
}

-- A foreign currency without a rate for the day.
abbrev pub lacks_rate : FxTable → String → ℕ → Bool
lacks_rate fx currency t =
    not (str_eq currency reporting_currency)
    && elim (fx (date_of t) currency reporting_currency) [ none ↦ true | some rate ↦ false ]

is_failed-convert :
    (fx : FxTable) (amount : ℤ) (currency : String) (t : ℕ)
    → is_failed (convert amount currency reporting_currency (date_of t) fx)
      ≡ lacks_rate fx currency t
unfolding convert
is_failed-convert fx amount currency t = elim (Bool-cases (str_eq currency reporting_currency)) [
  | inl e ↦ rw e refl
  | inr e ↦ elim (Option-cases (fx (date_of t) currency reporting_currency)) [
    | inl n ↦ rw (e, n) refl
    | inr (rate, r) ↦ rw (e, r) refl
  ]
]

module _ (regions : String → Option String) (fx : FxTable) where
  abbrev has_region : String → Bool
  has_region customer_id = elim (regions customer_id) [ none ↦ false | some region ↦ true ]

  abbrev pub order_lacks_rate : Order → Bool
  order_lacks_rate o =
      not (str_eq o.order_status "cancelled")
      && (has_region o.customer_id && lacks_rate fx o.order_currency o.order_timestamp)

  abbrev pub refund_lacks_rate : Refund → Bool
  refund_lacks_rate r =
      has_region r.customer_id && lacks_rate fx r.refund_currency r.refund_timestamp

  is_failed-add_orders :
      (os : List Order) (sums : Sums)
      → is_failed (add_orders regions fx sums os) ≡ any order_lacks_rate os
  unfolding add_orders
  is_failed-add_orders [] sums = refl
  is_failed-add_orders (o ∷ os) sums = elim (Bool-cases (str_eq o.order_status "cancelled")) [
    | inl c ↦ rw c (is_failed-add_orders os sums)
    | inr c ↦ elim (Option-cases (regions o.customer_id)) [
      | inl n ↦ rw (c, n, has_region) (is_failed-add_orders os sums)
      | inr (region, r) ↦
          let lacks = is_failed-convert fx o.gross_amount o.order_currency o.order_timestamp in
          elim (Checked-cases (
            convert o.gross_amount o.order_currency reporting_currency (date_of o.order_timestamp)
              fx)) [
                | inl (a, d) ↦
                    rw (c, r, d, has_region)
                      (ground (
                        arith,
                        rw d at lacks,
                        is_failed-add_orders os
                            (add_order_amount (date_of o.order_timestamp, region) a sums),
                      ))
                | inr (e, d) ↦ rw (c, r, d, has_region) (ground (arith, rw d at lacks))
              ]
    ]
  ]

  is_failed-add_refunds :
      (rs : List Refund) (sums : Sums)
      → is_failed (add_refunds regions fx sums rs) ≡ any refund_lacks_rate rs
  unfolding add_refunds
  is_failed-add_refunds [] sums = refl
  is_failed-add_refunds (f ∷ rs) sums = elim (Option-cases (regions f.customer_id)) [
    | inl n ↦ rw (n, has_region, add_refunds) (is_failed-add_refunds rs sums)
    | inr (region, r) ↦
        let lacks = is_failed-convert fx f.refund_amount f.refund_currency f.refund_timestamp in
        elim (Checked-cases (
          convert f.refund_amount f.refund_currency reporting_currency (date_of f.refund_timestamp)
            fx)) [
              | inl (a, d) ↦
                  rw (r, d, has_region, add_refunds)
                    (ground (
                      arith,
                      rw d at lacks,
                      is_failed-add_refunds rs
                          (add_refund_amount (date_of f.refund_timestamp, region) a sums),
                    ))
              | inr (e, d) ↦ rw (r, d, has_region, add_refunds) (ground (arith, rw d at lacks))
            ]
  ]

-- An order that is not cancelled, or a refund, of a customer with a region lacks its rate.
abbrev pub lacks_rates : Session → Bool
lacks_rates s =
    any (order_lacks_rate (region_of s.customers) (fx_table s)) s.orders
    || any (refund_lacks_rate (region_of s.customers) (fx_table s)) s.refunds

-- `recompute_from_source` raises exactly when an order that is not cancelled, or a refund, of a
-- customer with a region is in a currency other than the reporting one and the day has no rate.
pub recompute_from_source-is_failed :
    (s : Session) → is_failed (recompute_from_source s) ≡ lacks_rates s
unfolding recompute_from_source summed
recompute_from_source-is_failed s =
    let regions = region_of s.customers in
    let fx = fx_table s in
    let ordered = is_failed-add_orders regions fx s.orders no_sums in
    elim (Checked-cases (add_orders regions fx no_sums s.orders)) [
      | inr (e, f) ↦ rw f (ground (arith, rw f at ordered))
      | inl (sums, o) ↦
          let paid = add_payments regions sums s.payments in
          let refunded = is_failed-add_refunds regions fx s.refunds paid in
          elim (Checked-cases (add_refunds regions fx paid s.refunds)) [
            | inl (all_sums, f) ↦ rw (o, f) (ground (arith, rw o at ordered, rw f at refunded))
            | inr (e, f) ↦ rw (o, f) (ground (arith, rw o at ordered, rw f at refunded))
          ]
    ]

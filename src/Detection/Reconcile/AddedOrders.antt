-- ===== src/Detection/Reconcile/AddedOrders.antt =====
-- What the pass of `recompute_from_source` over the orders adds to the sums of a date and region.
use lineageiq.Common.{
  suc, ◌+◌, pos, ◌+ℤ◌, false, ◌||◌, String, str_eq, Option, some, List, [], ◌∷◌, map, keep, any,
  length, ◌≡◌, refl, arith, subst, Bool-cases, Option-cases, inl, inr,
}
use lineageiq.Database.{Order, date_of}
use lineageiq.Simulator.Fx.{FxTable, done, convert, reporting_currency, Checked-cases}
use lineageiq.Detection.Reconcile.DayKeys.{
  DayKey, same_key, value_of, keys_of, has_key, value_of-adjust, has_key-adjust,
}
use lineageiq.Detection.Reconcile.{Sums, add_orders, add_order_amount}
use lineageiq.Detection.Reconcile.Counted.{total, of_key, is_order_of, order_amount}

module _ (regions : String → Option String) (fx : FxTable) (key : DayKey) where
  pub record AddsOrders (os : List Order) (before after : Sums) : Type 0 where
    pub gross :
        value_of key (pos 0) after.gross
        ≡ total
            (value_of key (pos 0) before.gross)
            (map (order_amount regions fx key) (keep (is_order_of regions fx key) os))
    pub order_count :
        value_of key 0 after.order_count
        ≡ value_of key 0 before.order_count + length (keep (is_order_of regions fx key) os)
    pub keys :
        has_key key (keys_of after.gross)
        ≡ (any (is_order_of regions fx key) os || has_key key (keys_of before.gross))
    pub refunds_kept : after.refund_total ≡ before.refund_total
    pub payments_kept : after.pay_count ≡ before.pay_count

  skip_order :
      (o : Order) (os : List Order) (before after : Sums)
      → is_order_of regions fx key o ≡ false
      → AddsOrders os before after
      → AddsOrders (o ∷ os) before after
  skip_order o os before after e r = record {
    gross = rw e r.gross;
    order_count = rw e r.order_count;
    keys = rw e r.keys;
    refunds_kept = r.refunds_kept;
    payments_kept = r.payments_kept;
  }

  count_order :
      (o : Order) (os : List Order) (before after : Sums) (region : String)
      → str_eq o.order_status "cancelled" ≡ false
      → regions o.customer_id ≡ some region
      → AddsOrders os
          (add_order_amount
            (date_of o.order_timestamp, region)
            (order_amount regions fx key o)
            before)
          after
      → AddsOrders (o ∷ os) before after
  count_order o os before after region c r h =
      let k : DayKey = (date_of o.order_timestamp, region) in
      let gross =
        value_of-adjust k key (pos 0) (λ x. x +ℤ order_amount regions fx key o) before.gross in
      let order_count = value_of-adjust k key 0 suc before.order_count in
      let keys =
        has_key-adjust k key (pos 0) (λ x. x +ℤ order_amount regions fx key o) before.gross in
      elim (Bool-cases (same_key k key)) [
        | inl e ↦ record {
          gross = rw (c, r, of_key, e) (rw (gross, e) at h.gross);
          order_count = rw (c, r, of_key, e) (ground (arith, rw (order_count, e) at h.order_count));
          keys = rw (c, r, of_key, e) (ground (arith, rw (keys, e) at h.keys));
          refunds_kept = h.refunds_kept;
          payments_kept = h.payments_kept;
        }
        | inr e ↦ record {
          gross = rw (c, r, of_key, e) (rw (gross, e) at h.gross);
          order_count = rw (c, r, of_key, e) (rw (order_count, e) at h.order_count);
          keys = rw (c, r, of_key, e) (rw (keys, e) at h.keys);
          refunds_kept = h.refunds_kept;
          payments_kept = h.payments_kept;
        }
      ]

  pub add_orders-AddsOrders :
      (os : List Order) (before after : Sums)
      → add_orders regions fx before os ≡ done after
      → AddsOrders os before after
  unfolding add_orders
  add_orders-AddsOrders [] before after h =
      let same : before ≡ after = cc in
      subst (λ s. AddsOrders [] before s) same
        (record {
          gross = refl;
          order_count = omega arith;
          keys = refl;
          refunds_kept = refl;
          payments_kept = refl;
        })
  add_orders-AddsOrders (o ∷ os) before after h =
      elim (Bool-cases (str_eq o.order_status "cancelled")) [
        | inl c ↦
            skip_order o os before after (rw c refl)
              (add_orders-AddsOrders os before after (rw (c, add_orders) at h))
        | inr c ↦ elim (Option-cases (regions o.customer_id)) [
          | inl n ↦
              skip_order o os before after (rw (c, n, of_key) refl)
                (add_orders-AddsOrders os before after (rw (c, n, add_orders) at h))
          | inr (region, r) ↦
              elim (Checked-cases (
                convert o.gross_amount o.order_currency reporting_currency
                  (date_of o.order_timestamp) fx)) [
                    | inl (a, d) ↦
                        count_order o os before after region c r
                          (rw d (add_orders-AddsOrders os _ after (rw (c, r, d, add_orders) at h)))
                    | inr (e, d) ↦ cc (rw (c, r, d, add_orders) at h)
                  ]
        ]
      ]

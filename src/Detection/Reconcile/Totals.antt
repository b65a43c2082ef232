-- ===== src/Detection/Reconcile/Totals.antt =====
-- What `recompute_from_source` of backend/app/detection/reconcile.py gives: the totals of the source
-- rows by date and region, defined from the rows, without dicts.
use lineageiq.Common.{
  pos, Bool, ◌||◌, none, some, map, keep, any, length, ◌≡◌, refl, sym, ap, ◌∙◌, arith,
  if◌then◌else◌, inl, inr,
}
use lineageiq.Database.{Session}
use lineageiq.Simulator.Fx.{done, Checked-cases}
use lineageiq.Detection.Reconcile.DayKeys.{
  DayKey, Dict, value_of, keys_of, union, has_key, dict_get, has_key-union, dict_get-map,
}
use lineageiq.Detection.Reconcile.{
  Recomputed, Sums, add_orders, add_payments, recompute_from_source, summed, fx_table, region_of,
  no_sums, recomputed_at, summed_keys,
}
use lineageiq.Detection.Reconcile.Counted.{
  total, is_order_of, is_payment_of, is_refund_of, order_amount, refund_amount,
}
use lineageiq.Detection.Reconcile.AddedOrders.{add_orders-AddsOrders}
use lineageiq.Detection.Reconcile.AddedPayments.{add_payments-AddsPayments}
use lineageiq.Detection.Reconcile.AddedRefunds.{add_refunds-AddsRefunds}

-- The totals of a date and region, from the rows.
abbrev pub totals_of : Session → DayKey → Recomputed
totals_of s key =
    let regions = region_of s.customers in
    let fx = fx_table s in
    record {
      gross =
          total (pos 0)
            (map (order_amount regions fx key) (keep (is_order_of regions fx key) s.orders));
      refund_total =
          total (pos 0)
            (map (refund_amount regions fx key) (keep (is_refund_of regions fx key) s.refunds));
      order_count = length (keep (is_order_of regions fx key) s.orders);
      payment_count = length (keep (is_payment_of regions fx key) s.payments);
    }

-- A row of the date and region counts.
abbrev pub has_source : Session → DayKey → Bool
has_source s key =
    let regions = region_of s.customers in
    let fx = fx_table s in
    any (is_order_of regions fx key) s.orders
    || any (is_refund_of regions fx key) s.refunds
    || any (is_payment_of regions fx key) s.payments

recomputed_eq :
    (a b : Recomputed)
    → a.gross ≡ b.gross
    → a.refund_total ≡ b.refund_total
    → a.order_count ≡ b.order_count
    → a.payment_count ≡ b.payment_count
    → a ≡ b
recomputed_eq a b g r o p = cc

summed-totals_of :
    (s : Session) (key : DayKey) (sums : Sums)
    → summed s ≡ done sums
    → (recomputed_at sums key ≡ totals_of s key)
      × (has_key key (summed_keys sums) ≡ has_source s key)
unfolding summed
summed-totals_of s key sums h =
    let regions = region_of s.customers in
    let fx = fx_table s in
    elim (Checked-cases (add_orders regions fx no_sums s.orders)) [
      | inr (e, f) ↦ cc (rw (f, summed) at h)
      | inl (ordered, o) ↦
          let paid = add_payments regions ordered s.payments in
          let orders = add_orders-AddsOrders regions fx key s.orders no_sums ordered o in
          let payments = add_payments-AddsPayments regions fx key s.payments ordered paid refl in
          let refunds =
            add_refunds-AddsRefunds regions fx key s.refunds paid sums (rw (o, summed) at h) in
          let no_refunds = payments.refunds_kept ∙ orders.refunds_kept in
          (
            recomputed_eq (recomputed_at sums key) (totals_of s key)
                (ap (λ d. value_of key (pos 0) d) (refunds.gross_kept ∙ payments.gross_kept)
                  ∙ orders.gross)
                (rw no_refunds at refunds.refund_total)
                (omega (
                  arith,
                  ap (λ d. value_of key 0 d) (refunds.orders_kept ∙ payments.orders_kept),
                  orders.order_count,
                ))
                (omega (
                  arith,
                  ap (λ d. value_of key 0 d) refunds.payments_kept,
                  payments.pay_count,
                  ap (λ d. value_of key 0 d) orders.payments_kept,
                )),
            ground (
              arith,
              has_key-union key (union (keys_of sums.gross) (keys_of sums.refund_total))
                  (keys_of sums.pay_count),
              has_key-union key (keys_of sums.gross) (keys_of sums.refund_total),
              ap (λ d. has_key key (keys_of d)) (refunds.gross_kept ∙ payments.gross_kept)
                  ∙ orders.keys,
              rw no_refunds at refunds.keys,
              ap (λ d. has_key key (keys_of d)) refunds.payments_kept ∙ payments.keys,
              ap (λ d. has_key key (keys_of d)) orders.payments_kept,
            ),
          )
    ]

-- When nothing raises, the recomputed dict has an entry for a date and region exactly when a
-- counted order, payment or refund falls on it, and the entry holds the totals of those rows.
pub recompute_from_source-totals_of :
    (s : Session) (key : DayKey) (found : Dict Recomputed)
    → recompute_from_source s ≡ done found
    → dict_get key found ≡ (if has_source s key then some (totals_of s key) else none)
unfolding recompute_from_source
recompute_from_source-totals_of s key found h = elim (Checked-cases (summed s)) [
  | inr (e, f) ↦ cc (rw (f, recompute_from_source) at h)
  | inl (sums, d) ↦
      let built : done (map (λ k. (k, recomputed_at sums k)) (summed_keys sums)) ≡ done found =
        rw (d, recompute_from_source) at h in
      let same : map (λ k. (k, recomputed_at sums k)) (summed_keys sums) ≡ found = cc in
      let totals = summed-totals_of s key sums d in
      rw (sym same, dict_get-map (recomputed_at sums) key (summed_keys sums), totals.1, totals.0)
        refl
]

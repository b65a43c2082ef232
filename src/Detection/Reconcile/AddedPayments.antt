-- ===== src/Detection/Reconcile/AddedPayments.antt =====
-- What the pass of `recompute_from_source` over the payments adds to a date and region.
use lineageiq.Common.{
  suc, ◌+◌, true, false, ◌||◌, String, str_eq, Option, some, List, [], ◌∷◌, keep, any, length, ◌≡◌,
  refl, arith, subst, Bool-cases, Option-cases, inl, inr,
}
use lineageiq.Database.{Payment, date_of}
use lineageiq.Simulator.Fx.{FxTable}
use lineageiq.Detection.Reconcile.DayKeys.{
  DayKey, same_key, value_of, keys_of, has_key, value_of-adjust, has_key-adjust,
}
use lineageiq.Detection.Reconcile.{Sums, add_payments, count_payment}
use lineageiq.Detection.Reconcile.Counted.{of_key, is_payment_of}

module _ (regions : String → Option String) (fx : FxTable) (key : DayKey) where
  pub record AddsPayments (ps : List Payment) (before after : Sums) : Type 0 where
    pub pay_count :
        value_of key 0 after.pay_count
        ≡ value_of key 0 before.pay_count + length (keep (is_payment_of regions fx key) ps)
    pub keys :
        has_key key (keys_of after.pay_count)
        ≡ (any (is_payment_of regions fx key) ps || has_key key (keys_of before.pay_count))
    pub gross_kept : after.gross ≡ before.gross
    pub orders_kept : after.order_count ≡ before.order_count
    pub refunds_kept : after.refund_total ≡ before.refund_total

  skip_payment :
      (p : Payment) (ps : List Payment) (before after : Sums)
      → is_payment_of regions fx key p ≡ false
      → AddsPayments ps before after
      → AddsPayments (p ∷ ps) before after
  skip_payment p ps before after e r = record {
    pay_count = rw e r.pay_count;
    keys = rw e r.keys;
    gross_kept = r.gross_kept;
    orders_kept = r.orders_kept;
    refunds_kept = r.refunds_kept;
  }

  count_one_payment :
      (p : Payment) (ps : List Payment) (before after : Sums) (region : String)
      → str_eq p.payment_status "successful" ≡ true
      → regions p.customer_id ≡ some region
      → AddsPayments ps (count_payment (date_of p.payment_timestamp, region) before) after
      → AddsPayments (p ∷ ps) before after
  count_one_payment p ps before after region c r h =
      let k : DayKey = (date_of p.payment_timestamp, region) in
      let count = value_of-adjust k key 0 suc before.pay_count in
      let keys = has_key-adjust k key 0 suc before.pay_count in
      elim (Bool-cases (same_key k key)) [
        | inl e ↦ record {
          pay_count = rw (c, r, of_key, e) (ground (arith, rw (count, e) at h.pay_count));
          keys = rw (c, r, of_key, e) (ground (arith, rw (keys, e) at h.keys));
          gross_kept = h.gross_kept;
          orders_kept = h.orders_kept;
          refunds_kept = h.refunds_kept;
        }
        | inr e ↦ record {
          pay_count = rw (c, r, of_key, e) (rw (count, e) at h.pay_count);
          keys = rw (c, r, of_key, e) (rw (keys, e) at h.keys);
          gross_kept = h.gross_kept;
          orders_kept = h.orders_kept;
          refunds_kept = h.refunds_kept;
        }
      ]

  pub add_payments-AddsPayments :
      (ps : List Payment) (before after : Sums)
      → add_payments regions before ps ≡ after
      → AddsPayments ps before after
  unfolding add_payments
  add_payments-AddsPayments [] before after h =
      subst (λ s. AddsPayments [] before s) h
        (record {
          pay_count = omega arith;
          keys = refl;
          gross_kept = refl;
          orders_kept = refl;
          refunds_kept = refl;
        })
  add_payments-AddsPayments (p ∷ ps) before after h =
      elim (Bool-cases (str_eq p.payment_status "successful")) [
        | inr c ↦
            skip_payment p ps before after (rw c refl)
              (add_payments-AddsPayments ps before after (rw (c, add_payments) at h))
        | inl c ↦ elim (Option-cases (regions p.customer_id)) [
          | inl n ↦
              skip_payment p ps before after (rw (c, n, of_key) refl)
                (add_payments-AddsPayments ps before after (rw (c, n, add_payments) at h))
          | inr (region, r) ↦
              count_one_payment p ps before after region c r
                (add_payments-AddsPayments ps _ after (rw (c, r, add_payments) at h))
        ]
      ]

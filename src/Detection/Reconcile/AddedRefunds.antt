-- ===== src/Detection/Reconcile/AddedRefunds.antt =====
-- What the pass of `recompute_from_source` over the refunds adds to a date and region.
use lineageiq.Common.{
  pos, ◌+ℤ◌, false, ◌||◌, String, Option, some, List, [], ◌∷◌, map, keep, any, ◌≡◌, refl, arith,
  subst, Bool-cases, Option-cases, inl, inr,
}
use lineageiq.Database.{Refund, date_of}
use lineageiq.Simulator.Fx.{FxTable, done, convert, reporting_currency, Checked-cases}
use lineageiq.Detection.Reconcile.DayKeys.{
  DayKey, same_key, value_of, keys_of, has_key, value_of-adjust, has_key-adjust,
}
use lineageiq.Detection.Reconcile.{Sums, add_refunds, add_refund_amount}
use lineageiq.Detection.Reconcile.Counted.{total, of_key, is_refund_of, refund_amount}

module _ (regions : String → Option String) (fx : FxTable) (key : DayKey) where
  pub record AddsRefunds (rs : List Refund) (before after : Sums) : Type 0 where
    pub refund_total :
        value_of key (pos 0) after.refund_total
        ≡ total
            (value_of key (pos 0) before.refund_total)
            (map (refund_amount regions fx key) (keep (is_refund_of regions fx key) rs))
    pub keys :
        has_key key (keys_of after.refund_total)
        ≡ (any (is_refund_of regions fx key) rs || has_key key (keys_of before.refund_total))
    pub gross_kept : after.gross ≡ before.gross
    pub orders_kept : after.order_count ≡ before.order_count
    pub payments_kept : after.pay_count ≡ before.pay_count

  count_refund :
      (f : Refund) (rs : List Refund) (before after : Sums) (region : String)
      → regions f.customer_id ≡ some region
      → AddsRefunds rs
          (add_refund_amount
            (date_of f.refund_timestamp, region)
            (refund_amount regions fx key f)
            before)
          after
      → AddsRefunds (f ∷ rs) before after
  count_refund f rs before after region r h =
      let k : DayKey = (date_of f.refund_timestamp, region) in
      let gross =
        value_of-adjust k key (pos 0) (λ x. x +ℤ refund_amount regions fx key f)
          before.refund_total in
      let keys =
        has_key-adjust k key (pos 0) (λ x. x +ℤ refund_amount regions fx key f)
          before.refund_total in
      elim (Bool-cases (same_key k key)) [
        | inl e ↦ record {
          refund_total = rw (r, of_key, e) (rw (gross, e) at h.refund_total);
          keys = rw (r, of_key, e) (ground (arith, rw (keys, e) at h.keys));
          gross_kept = h.gross_kept;
          orders_kept = h.orders_kept;
          payments_kept = h.payments_kept;
        }
        | inr e ↦ record {
          refund_total = rw (r, of_key, e) (rw (gross, e) at h.refund_total);
          keys = rw (r, of_key, e) (rw (keys, e) at h.keys);
          gross_kept = h.gross_kept;
          orders_kept = h.orders_kept;
          payments_kept = h.payments_kept;
        }
      ]

  skip_refund :
      (f : Refund) (rs : List Refund) (before after : Sums)
      → is_refund_of regions fx key f ≡ false
      → AddsRefunds rs before after
      → AddsRefunds (f ∷ rs) before after
  skip_refund f rs before after e r = record {
    refund_total = rw e r.refund_total;
    keys = rw e r.keys;
    gross_kept = r.gross_kept;
    orders_kept = r.orders_kept;
    payments_kept = r.payments_kept;
  }

  pub add_refunds-AddsRefunds :
      (rs : List Refund) (before after : Sums)
      → add_refunds regions fx before rs ≡ done after
      → AddsRefunds rs before after
  unfolding add_refunds
  add_refunds-AddsRefunds [] before after h =
      let same : before ≡ after = cc in
      subst (λ s. AddsRefunds [] before s) same
        (record {
          refund_total = refl;
          keys = refl;
          gross_kept = refl;
          orders_kept = refl;
          payments_kept = refl;
        })
  add_refunds-AddsRefunds (f ∷ rs) before after h = elim (Option-cases (regions f.customer_id)) [
    | inl n ↦
        skip_refund f rs before after (rw (n, of_key) refl)
          (add_refunds-AddsRefunds rs before after (rw (n, add_refunds) at h))
    | inr (region, r) ↦
        elim (Checked-cases (
          convert f.refund_amount f.refund_currency reporting_currency (date_of f.refund_timestamp)
            fx)) [
              | inl (a, d) ↦
                  count_refund f rs before after region r
                    (rw d (add_refunds-AddsRefunds rs _ after (rw (r, d, add_refunds) at h)))
              | inr (e, d) ↦ cc (rw (r, d, add_refunds) at h)
            ]
  ]

-- ===== src/Simulator/Validator/SourceSums.antt =====
-- The sums of the report check of backend/app/simulator/validator.py are those of
-- `recompute_from_source` where no customer is unknown.
use lineageiq.Common.{
  String, str_eq, Option, List, [], ◌∷◌, ◌≡◌, refl, Bool-cases, Option-cases, inl, inr, ◌⊎◌,
}
use lineageiq.Database.{Session, Order, Payment, Refund, date_of}
use lineageiq.Simulator.Fx.{FxTable, done, convert, reporting_currency, Checked-cases}
use lineageiq.Detection.Reconcile.{
  Sums, no_sums, add_orders, add_payments, add_refunds, fx_table, region_of, summed,
}
use lineageiq.Simulator.Validator.{
  Validated, valid, broken, source_sums, sum_orders, sum_payments, sum_refunds, region_at,
  ValidatorError,
}

sum_orders-done :
    (regions : String → Option String) (fx : FxTable) (os : List Order) (before after : Sums)
    → sum_orders regions fx before os ≡ valid after
    → add_orders regions fx before os ≡ done after
unfolding add_orders
sum_orders-done regions fx [] before after h = cc
sum_orders-done regions fx (o ∷ os) before after h =
    elim (Bool-cases (str_eq o.order_status "cancelled")) [
      | inl c ↦ rw c (sum_orders-done regions fx os before after (rw c at h))
      | inr c ↦ elim (Option-cases (regions o.customer_id)) [
        | inl n ↦ cc (rw (c, n, sum_orders, region_at) at h)
        | inr (region, r) ↦
            elim (Checked-cases (
              convert o.gross_amount o.order_currency reporting_currency (date_of o.order_timestamp)
                fx)) [
                  | inl (a, d) ↦
                      rw (c, r, d)
                        (sum_orders-done regions fx os _ after
                          (rw (c, r, d, sum_orders, region_at) at h))
                  | inr (e, d) ↦ cc (rw (c, r, d, sum_orders, region_at) at h)
                ]
      ]
    ]

sum_payments-valid :
    (regions : String → Option String) (ps : List Payment) (before after : Sums)
    → sum_payments regions before ps ≡ valid after
    → add_payments regions before ps ≡ after
unfolding add_payments
sum_payments-valid regions [] before after h = cc
sum_payments-valid regions (p ∷ ps) before after h =
    elim (Bool-cases (str_eq p.payment_status "successful")) [
      | inr c ↦ rw c (sum_payments-valid regions ps before after (rw c at h))
      | inl c ↦ elim (Option-cases (regions p.customer_id)) [
        | inl n ↦ cc (rw (c, n, sum_payments, region_at) at h)
        | inr (region, r) ↦
            rw (c, r)
              (sum_payments-valid regions ps _ after (rw (c, r, sum_payments, region_at) at h))
      ]
    ]

sum_refunds-done :
    (regions : String → Option String) (fx : FxTable) (rs : List Refund) (before after : Sums)
    → sum_refunds regions fx before rs ≡ valid after
    → add_refunds regions fx before rs ≡ done after
unfolding add_refunds
sum_refunds-done regions fx [] before after h = cc
sum_refunds-done regions fx (f ∷ rs) before after h = elim (Option-cases (regions f.customer_id)) [
  | inl n ↦ cc (rw (n, sum_refunds, region_at) at h)
  | inr (region, r) ↦
      elim (Checked-cases (
        convert f.refund_amount f.refund_currency reporting_currency (date_of f.refund_timestamp)
          fx)) [
            | inl (a, d) ↦
                rw (r, d, add_refunds)
                  (sum_refunds-done regions fx rs _ after (rw (r, d, sum_refunds, region_at) at h))
            | inr (e, d) ↦ cc (rw (r, d, sum_refunds, region_at) at h)
          ]
]

pub Validated-cases :
    {A : Type 0} (r : Validated A)
    → ((a : A) × (r ≡ valid a)) ⊎ ((e : ValidatorError) × (r ≡ broken e))
Validated-cases (valid a) = inl (a, refl)
Validated-cases (broken e) = inr (e, refl)

pub source_sums-summed :
    (s : Session) (sums : Sums) → source_sums s ≡ valid sums → summed s ≡ done sums
unfolding source_sums summed
source_sums-summed s sums h =
    let regions = region_of s.customers in
    let fx = fx_table s in
    elim (Validated-cases (sum_orders regions fx no_sums s.orders)) [
      | inr (e, o) ↦ cc (rw (o, source_sums) at h)
      | inl (ordered, o) ↦ elim (Validated-cases (sum_payments regions ordered s.payments)) [
        | inr (e, p) ↦ cc (rw (o, p, source_sums) at h)
        | inl (paid, p) ↦
            rw
              (
                sum_orders-done regions fx s.orders no_sums ordered o,
                sum_payments-valid regions s.payments ordered paid p,
              )
              (sum_refunds-done regions fx s.refunds paid sums (rw (o, p, source_sums) at h))
      ]
    ]

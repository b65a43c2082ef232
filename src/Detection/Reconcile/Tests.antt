-- ===== src/Detection/Reconcile/Tests.antt =====
-- The revenue of two days, recomputed.
use lineageiq.Common.{pos, ◌+ℤ◌, [], ◌∷◌, none, some, ◌≡◌, refl, if◌then◌else◌}
use lineageiq.Simulator.Fx.{done, is_failed, convert, quantize}
use lineageiq.Detection.Samples.{trade_session}
use lineageiq.Detection.Reconcile.DayKeys.{Dict, dict_get}
use lineageiq.Detection.Reconcile.{
  Recomputed, recompute_from_source, summed, add_orders, add_payments, add_refunds,
}
use lineageiq.Detection.Reconcile.Totals.{has_source, totals_of, recompute_from_source-totals_of}
use lineageiq.Detection.Reconcile.Errors.{lacks_rates, recompute_from_source-is_failed}

abbrev trade_totals : Dict Recomputed
trade_totals =
    (
      (7, "Europe"),
      record { gross = pos 16_502; refund_total = pos 45; order_count = 1; payment_count = 1 },
    )
    ∷ (
      (8, "Europe"),
      record { gross = pos 300; refund_total = pos 0; order_count = 1; payment_count = 1 },
    )
    ∷ []

recomputed_trade : recompute_from_source trade_session ≡ done trade_totals
unfolding recompute_from_source summed add_orders add_payments add_refunds convert quantize ◌+ℤ◌
recomputed_trade = refl

recompute_from_source-totals_of_example : dict_get (7, "Europe") trade_totals ≡ (
    if has_source trade_session (7, "Europe")
    then some (totals_of trade_session (7, "Europe"))
    else none)
recompute_from_source-totals_of_example =
    recompute_from_source-totals_of trade_session (7, "Europe") trade_totals recomputed_trade

recompute_from_source-is_failed_example :
    is_failed (recompute_from_source trade_session) ≡ lacks_rates trade_session
recompute_from_source-is_failed_example = recompute_from_source-is_failed trade_session

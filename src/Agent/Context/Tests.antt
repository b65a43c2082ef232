-- ===== src/Agent/Context/Tests.antt =====
-- The leading cause of one alert.
use lineageiq.Common.{[], ◌∷◌}
use lineageiq.Agent.Samples.{partial_alert}
use lineageiq.Agent.Context.{leading_value}
use lineageiq.Agent.Context.Leading.{IsLeading, leading_value-IsLeading}

leading_value-IsLeading_example :
    IsLeading
      (partial_alert ∷ partial_alert ∷ [])
      (leading_value (partial_alert ∷ partial_alert ∷ []))
leading_value-IsLeading_example = leading_value-IsLeading (partial_alert ∷ partial_alert ∷ [])

-- ===== src/Simulator/Fx/Tests.antt =====
-- Conversions into dollars.
use lineageiq.Common.{◌==◌, ◌&&◌, pos, negsuc, str_eq, none, some, ◌≡◌, refl, if◌then◌else◌}
use lineageiq.Simulator.Fx.{FxTable, convert, quantize, done, failed, missing_rate}
use lineageiq.Simulator.Fx.Rounding.{IsConverted, convert-IsConverted}

-- 1.5 dollars for a euro on day 7
abbrev euro_rate : FxTable
euro_rate day source target =
    if (day == 7) && (str_eq source "EUR" && str_eq target "USD") then some 150_000_000 else none

half_away : convert (negsuc 0) "EUR" "USD" 7 euro_rate ≡ done (negsuc 1)
unfolding convert quantize
half_away = refl

half_up : convert (pos 11_001) "EUR" "USD" 7 euro_rate ≡ done (pos 16_502)
unfolding convert quantize
half_up = refl

unknown_day : convert (pos 3) "EUR" "USD" 8 euro_rate ≡ failed (missing_rate 8 "EUR" "USD")
unfolding convert
unknown_day = refl

convert-IsConverted_example :
    IsConverted (pos 11_001) "EUR" "USD" 7 euro_rate (convert (pos 11_001) "EUR" "USD" 7 euro_rate)
convert-IsConverted_example = convert-IsConverted (pos 11_001) "EUR" "USD" 7 euro_rate

-- ===== src/Agent/Policy/Floats.antt =====
-- The comparison of confidences in backend/app/agent/policy.py, in the double-precision floats of
-- Python. A confidence of k ten-thousandths is the double nearest to k / 10000; doubles up to 1 are
-- whole numbers of units of 2 ^ (-66) from 1 / 10000 on, and so are their differences.
use lineageiq.Common.{ℕ, zero, suc, ◌+◌, ◌-◌, ◌*◌, ◌/◌, ◌%◌, Bool, ltb, if◌then◌else◌}

-- n / d, rounded to the nearest whole number, to the even one where two are nearest
rounded : ℕ → ℕ → ℕ
rounded n d =
    let rest = 2 * (n % d) in
    if ltb rest d then n / d else if ltb d rest then n / d + 1 else n / d + (n / d) % 2

-- The power of two, up to 2 ^ fuel, by which n / d is divided to be below 2 ^ 53.
scale : ℕ → ℕ → ℕ → ℕ
scale zero n d = 1
scale (suc fuel) n d =
    let rest = scale fuel n (d * 2) in if ltb n (9_007_199_254_740_992 * d) then 1 else 2 * rest

-- n / d units, up to 2 ^ 66 of them, rounded to 53 significant bits
unfoldable nearest : ℕ → ℕ → ℕ
unfolding rounded scale
nearest n d = rounded n (d * scale 14 n d) * scale 14 n d

-- The double of k ten-thousandths, in units.
unfoldable double : ℕ → ℕ
unfolding nearest
double k = nearest (k * 73_786_976_294_838_206_464) 10_000

-- `abs(x - y) < 0.1`
unfoldable pub close : ℕ → ℕ → Bool
unfolding double nearest
close x y = ltb (nearest (double x - double y + (double y - double x)) 1) (double 1000)

-- ===== src/Simulator/Fx/Rounding.antt =====
-- How `convert` of backend/app/simulator/fx.py rounds, and when it raises.
use lineageiq.Common.{
  ℕ, ◌*◌, ◌≤◌, ℤ, pos, negsuc, abs, ◌-ℤ◌, ◌≡◌, ◌≢◌, arith, String, str_eq, eq_iff, none, some, true,
  false, inl, inr, Bool-cases, Option-cases,
}
use lineageiq.Simulator.Fx.{
  quantize, convert, scale, FxTable, Checked, done, failed, missing_rate, unsupported_target,
  reporting_currency,
}

-- An amount lies nearest to a number of units of 1e-12, and of two nearest ones away from zero.
pub record IsRounded (x a : ℤ) : Type 0 where
  pub near : 2 * abs (scale a 100_000_000 -ℤ x) ≤ 100_000_000
  pub away : 2 * abs (scale a 100_000_000 -ℤ x) ≡ 100_000_000 → abs x ≤ abs (scale a 100_000_000)

pub quantize-IsRounded : (x : ℤ) → IsRounded x (quantize x)
unfolding quantize ◌-ℤ◌
quantize-IsRounded (pos n) = record { near = ground arith; away = λ e. ground arith }
quantize-IsRounded (negsuc n) = record { near = ground arith; away = λ e. ground arith }

quantize_exact : (a : ℤ) → quantize (scale a 100_000_000) ≡ a
unfolding quantize
quantize_exact (pos n) = ground arith
quantize_exact (negsuc n) = ground arith

-- What a conversion gives: the amount itself in its own currency; in the reporting currency, the
-- amount times the day's rate, rounded; an error without a rate, and for any other target.
pub data IsConverted (amount : ℤ) (source target : String) (day : ℕ) (fx : FxTable)
    : Checked ℤ → Type 0 where
  same_currency : source ≡ target → IsConverted amount source target day fx (done amount)
  converted :
      (rate : ℕ) (a : ℤ)
      → source ≢ target
      → target ≡ reporting_currency
      → fx day source target ≡ some rate
      → IsRounded (scale amount rate) a
      → IsConverted amount source target day fx (done a)
  no_rate :
      source ≢ target
      → target ≡ reporting_currency
      → fx day source target ≡ none
      → IsConverted amount source target day fx (failed (missing_rate day source target))
  other_target :
      source ≢ target
      → target ≢ reporting_currency
      → IsConverted amount source target day fx (failed unsupported_target)

convert-IsConverted_rate :
    (amount : ℤ) (source target : String) (day : ℕ) (fx : FxTable)
    → str_eq source target ≡ false
    → str_eq target reporting_currency ≡ true
    → IsConverted amount source target day fx (convert amount source target day fx)
unfolding convert
convert-IsConverted_rate amount source target day fx d e =
    elim (Option-cases (fx day source target)) [
      | inl n ↦
          rw (d, e, n)
            (no_rate (λ s. ground (arith, eq_iff source target))
              ((eq_iff target reporting_currency).0 e) n)
      | inr (rate, r) ↦
          rw (d, e, r)
            (converted rate (quantize (scale amount rate))
              (λ s. ground (arith, eq_iff source target)) ((eq_iff target reporting_currency).0 e) r
              (quantize-IsRounded (scale amount rate)))
    ]

-- `convert` gives the amount itself in its own currency; into the reporting currency it gives the
-- amount times the day's rate, rounded to the nearest amount and away from zero where two are
-- nearest; it raises exactly for another target and for a missing rate.
pub convert-IsConverted :
    (amount : ℤ) (source target : String) (day : ℕ) (fx : FxTable)
    → IsConverted amount source target day fx (convert amount source target day fx)
unfolding convert
convert-IsConverted amount source target day fx = elim (Bool-cases (str_eq source target)) [
  | inl s ↦ rw (s, quantize_exact amount) (same_currency ((eq_iff source target).0 s))
  | inr d ↦ elim (Bool-cases (str_eq target reporting_currency)) [
    | inl e ↦ convert-IsConverted_rate amount source target day fx d e
    | inr o ↦
        rw (d, o)
          (other_target (λ s. ground (arith, eq_iff source target))
            (λ t. ground (arith, eq_iff target reporting_currency)))
  ]
]

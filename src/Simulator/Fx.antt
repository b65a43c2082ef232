-- ===== src/Simulator/Fx.antt =====
-- backend/app/simulator/fx.py: `convert` and its table of rates.
-- Amounts have four decimals and rates eight, so that a product is a whole number of units of
-- 1e-12. The precision of 28 digits of a decimal product is not modelled.
pub mod Rounding
mod Tests
use lineageiq.Common.{
  ℕ, suc, ◌+◌, ◌*◌, ◌/◌, ◌==◌, ◌&&◌, ℤ, pos, negsuc, sub_ℕ, String, str_eq, Option, none, some,
  List, [], ◌∷◌, ◌≡◌, refl, ◌⊎◌, inl, inr, Bool, true, false, if◌then◌else◌,
}
use lineageiq.Database.{FxRate}

-- `ValueError`, and `KeyError` with the key that is missing
pub data FxError : Type 0 where
  unsupported_target : FxError
  missing_rate : ℕ → String → String → FxError

pub data Checked {ℓ} (A : Type ℓ) : Type ℓ where
  done : A → Checked A
  failed : FxError → Checked A

module _ {ℓ} {A B : Type ℓ} where
  infixl 5 ◌>>=◌
  abbrev pub ◌>>=◌ : Checked A → (A → Checked B) → Checked B
  done a >>= f = f a
  failed e >>= f = failed e

module _ {ℓ} {A : Type ℓ} where
  pub Checked-cases : (r : Checked A) → ((a : A) × (r ≡ done a)) ⊎ ((e : FxError) × (r ≡ failed e))
  Checked-cases (done a) = inl (a, refl)
  Checked-cases (failed e) = inr (e, refl)

  abbrev pub is_failed : Checked A → Bool
  is_failed (done a) = false
  is_failed (failed e) = true

-- A dict by date, source and target.
abbrev pub FxTable : Type 0
FxTable = ℕ → String → String → Option ℕ

-- `REPORTING_CURRENCY`
abbrev pub reporting_currency : String
reporting_currency = "USD"

-- `quantize(MONEY_QUANT, rounding=ROUND_HALF_UP)` of a number of units of 1e-12: a half goes away
-- from zero.
unfoldable pub quantize : ℤ → ℤ
quantize (pos n) = pos ((n + 50_000_000) / 100_000_000)
quantize (negsuc n) = sub_ℕ 0 ((suc n + 50_000_000) / 100_000_000)

-- A product of an amount and a rate, in units of 1e-12.
abbrev pub scale : ℤ → ℕ → ℤ
scale (pos n) rate = pos (n * rate)
scale (negsuc n) rate = sub_ℕ 0 (suc n * rate)

unfoldable pub convert : ℤ → String → String → ℕ → FxTable → Checked ℤ
unfolding quantize
convert amount source_currency target_currency on_date fx_table =
    if str_eq source_currency target_currency
    then done (quantize (scale amount 100_000_000))
    else if str_eq target_currency reporting_currency
    then elim (fx_table on_date source_currency target_currency) [
      | none ↦ failed (missing_rate on_date source_currency target_currency)
      | some rate ↦ done (quantize (scale amount rate))
    ]
    else failed unsupported_target

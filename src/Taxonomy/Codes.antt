-- ===== src/Taxonomy/Codes.antt =====
-- Root-cause codes and their texts.
use lineageiq.Common.{◌≡◌, refl, true, some, ◌↔◌, eq_iff, arith, ap}
use lineageiq.Taxonomy.{RootCauseCode, root_cause_value, root_cause_of_value, same_cause}

-- Reading the value of a code back gives the code.
pub root_cause_of_value-root_cause_value :
    (c : RootCauseCode) → root_cause_of_value (root_cause_value c) ≡ some c
unfolding root_cause_of_value
root_cause_of_value-root_cause_value RootCauseCode.duplicate_transaction = refl
root_cause_of_value-root_cause_value _ = refl

-- Two codes with one value are the same code.
pub root_cause_value_inj : (c d : RootCauseCode) → root_cause_value c ≡ root_cause_value d → c ≡ d
root_cause_value_inj c d h =
    ground
      (arith, root_cause_of_value-root_cause_value c, root_cause_of_value-root_cause_value d, h)

pub same_cause_iff : (c d : RootCauseCode) → (same_cause c d ≡ true) ↔ (c ≡ d)
same_cause_iff c d = (
  λ h. root_cause_value_inj c d ((eq_iff (root_cause_value c) (root_cause_value d)).0 h),
  λ e. (eq_iff (root_cause_value c) (root_cause_value d)).1 (ap root_cause_value e),
)

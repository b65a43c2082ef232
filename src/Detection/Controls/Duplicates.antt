-- ===== src/Detection/Controls/Duplicates.antt =====
-- Which payments `DuplicatePaymentDetector` of backend/app/detection/detectors.py reports.
use lineageiq.Common.{
  ℕ, String, List, [], ◌∷◌, map, keep, has, count, counter, tally_of, tally_of-counter, Unique,
  counter-Unique, ltb, leb, str_eq, eq_iff, ◌≡◌, sym, ◌∙◌, subst, arith, Bool-cases, inl, inr,
}
use lineageiq.Database.{Session}
use lineageiq.Detection.Controls.{repeated_keys, payment_keys}

-- A key is among the entries of a test exactly when its count passes the test.
has-keep_counts :
    (k : String) (t : List (String × ℕ))
    → Unique t
    → has k (map (λ e. e.0) (keep (λ e. ltb 1 e.1) t)) ≡ ltb 1 (tally_of k t)
has-keep_counts k [] u = ground arith
has-keep_counts k ((y, n) ∷ t) u = elim (Bool-cases (str_eq k y)) [
  | inl e ↦
      let absent : tally_of k t ≡ 0 = subst (λ y. tally_of y t ≡ 0) (sym ((eq_iff k y).0 e)) u.0 in
      ground (arith, has-keep_counts k t u.2)
  | inr e ↦ ground (arith, has-keep_counts k t u.2)
]

-- A key is reported exactly when at least two payments have it.
pub repeated_keys-count :
    (s : Session) (k : String)
    → has k (map (λ e. e.0) (repeated_keys s)) ≡ leb 2 (count k (payment_keys s))
unfolding repeated_keys
repeated_keys-count s k =
    has-keep_counts k (counter (payment_keys s)) (counter-Unique (payment_keys s))
    ∙ ground (arith, tally_of-counter k (payment_keys s))

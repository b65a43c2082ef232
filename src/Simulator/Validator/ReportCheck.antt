-- ===== src/Simulator/Validator/ReportCheck.antt =====
-- What the report check of backend/app/simulator/validator.py says of reports as the controls read
-- them.
use lineageiq.Common.{
  ◌&&◌, Bool, true, false, not, pos, ◌-ℤ◌, eq_ℤ, eq_ℤ→eq, none, some, List, [], ◌∷◌, map, keep, all,
  length, ◌≡◌, refl, sym, ◌∙◌, arith, Bool-cases, Option-cases, inl, inr, &&-left, &&-right,
  &&-both,
}
use lineageiq.Database.{DailyRevenueReport}
use lineageiq.Detection.Reconcile.DayKeys.{
  DayKey, Dict, value_of, dict_get, dict_get-map, has_key, same_key,
}
use lineageiq.Detection.Reconcile.{
  Recomputed, Sums, report_key, recomputed_at, set_report, set_reports,
}
use lineageiq.Detection.Controls.{is_inconsistent}
use lineageiq.Detection.Controls.Revenue.{mismatches, disagrees}
use lineageiq.Simulator.Validator.{reconciles}

pub nil_of_length : {A : Type 0} (xs : List A) → length xs ≡ 0 → xs ≡ []
nil_of_length [] h = refl
nil_of_length (x ∷ xs) h = absurd (omega (arith, h))

pub all-keep_none :
    {A : Type 0} (p : A → Bool) (xs : List A)
    → length (keep p xs) ≡ 0
    → all (λ x. not (p x)) xs ≡ true
all-keep_none p [] h = refl
all-keep_none p (x ∷ xs) h = elim (Bool-cases (p x)) [
  | inl e ↦ absurd (omega (arith, rw e at h))
  | inr e ↦ rw e (all-keep_none p xs (rw e at h))
]

pub all_double_negated :
    {A : Type 0} (p : A → Bool) (xs : List A)
    → all (λ x. not (not (p x))) xs ≡ true
    → all p xs ≡ true
all_double_negated p [] h = refl
all_double_negated p (x ∷ xs) h = ground (arith, all_double_negated p xs)

pub keep-absent :
    {A : Type 0} (p q : A → Bool) (xs : List A)
    → ((x : A) → q x ≡ true → p x ≡ false)
    → all q xs ≡ true
    → keep p xs ≡ []
keep-absent p q [] f h = refl
keep-absent p q (x ∷ xs) f h =
    rw (f x (&&-left (q x) (all q xs) h)) (keep-absent p q xs f (&&-right (q x) (all q xs) h))

all-set_report :
    (q : DailyRevenueReport → Bool) (r : DailyRevenueReport) (rs : List DailyRevenueReport)
    → q r ≡ true
    → all q rs ≡ true
    → all q (set_report r rs) ≡ true
all-set_report q r [] e h = &&-both (q r) true e refl
all-set_report q r (x ∷ rs) e h =
    let tail = &&-right (q x) (all q rs) h in
    elim (Bool-cases (same_key (report_key x) (report_key r))) [
      | inl k ↦ rw k (&&-both (q r) (all q rs) e tail)
      | inr k ↦ rw k (
          &&-both (q x) (all q (set_report r rs)) (&&-left (q x) (all q rs) h)
            (all-set_report q r rs e tail))
    ]

pub all-set_reports :
    (q : DailyRevenueReport → Bool) (known rs : List DailyRevenueReport)
    → all q known ≡ true
    → all q rs ≡ true
    → all q (set_reports known rs) ≡ true
all-set_reports q known [] k h = k
all-set_reports q known (r ∷ rs) k h =
    all-set_reports q (set_report r known) rs
      (all-set_report q r known (&&-left (q r) (all q rs) h) k) (&&-right (q r) (all q rs) h)

parts : (a b c d : Bool) → (a && (b && (c && d))) ≡ true → (a ≡ true) × (b ≡ true) × (c ≡ true)
parts a b c d h = (ground (arith, h), ground (arith, h), ground (arith, h))

pub reconciles-consistent :
    (sums : Sums) (r : DailyRevenueReport) → reconciles sums r ≡ true → is_inconsistent r ≡ false
reconciles-consistent sums r h =
    let key = report_key r in
    let gross = value_of key (pos 0) sums.gross in
    let refunds = value_of key (pos 0) sums.refund_total in
    let e =
      parts (eq_ℤ r.gross_revenue gross) (eq_ℤ r.refund_total refunds)
        (eq_ℤ r.net_revenue (gross -ℤ refunds)) _ h in
    let same_gross = eq_ℤ→eq r.gross_revenue gross e.0 in
    let same_refunds = eq_ℤ→eq r.refund_total refunds e.1 in rw (same_gross, same_refunds, e.2) refl

reconciles-agrees :
    (sums : Sums) (r : DailyRevenueReport)
    → reconciles sums r ≡ true
    → disagrees r (recomputed_at sums (report_key r)) ≡ false
reconciles-agrees sums r h = ground (arith, h)

pub dict_get-found :
    (f : DayKey → Recomputed) (ks : List DayKey) (key : DayKey) (r : Recomputed)
    → dict_get key (map (λ k. (k, f k)) ks) ≡ some r
    → r ≡ f key
dict_get-found f ks key r h =
    let value = sym (dict_get-map f key ks) ∙ h in
    elim (Bool-cases (has_key key ks)) [
      | inl e ↦ let found : some (f key) ≡ some r = rw e at value in cc
      | inr e ↦ let found : none ≡ some r = rw e at value in cc
    ]

pub mismatches-none :
    (sums : Sums) (found : Dict Recomputed) (rs : List DailyRevenueReport)
    → ((key : DayKey) (r : Recomputed) → dict_get key found ≡ some r → r ≡ recomputed_at sums key)
    → all (reconciles sums) rs ≡ true
    → mismatches found rs ≡ []
unfolding mismatches
mismatches-none sums found [] f h = refl
mismatches-none sums found (r ∷ rs) f h =
    let rest =
      mismatches-none sums found rs f (&&-right (reconciles sums r) (all (reconciles sums) rs) h) in
    elim (Option-cases (dict_get (report_key r) found)) [
      | inl n ↦ rw (n, mismatches) rest
      | inr (q, e) ↦
          let same = f (report_key r) q e in
          let agrees : disagrees r q ≡ false =
            rw same (
              reconciles-agrees sums r
                (&&-left (reconciles sums r) (all (reconciles sums) rs) h)) in
          rw (e, agrees, mismatches) rest
    ]

-- ===== src/Detection/Controls/Days/Medians.antt =====
-- The days that the partial-load control of backend/app/detection/detectors.py alerts, with the median
-- described by ranks.
use lineageiq.Common.{
  ℕ, suc, ◌+◌, ◌*◌, ◌/◌, ◌-◌, ◌≤◌, ◌<◌, ◌==◌, ==_iff, Bool, true, false, List, [], ◌∷◌, map, length,
  leb, ltb, leb→le, ltb→lt, Bool-cases, inl, inr, ◌↔◌, ◌≡◌, refl, sym, ap, ◌∙◌, subst, arith, ◌&&◌,
  &&-left, &&-right, &&-both,
}
use lineageiq.Database.{Session}
use lineageiq.Detection.Controls.Days.{
  has_day, count_day, insert, days_of, median_twice, order_days, daily_median_twice, short_days,
  has_day-days_of, has_day-keep,
}
use lineageiq.Detection.Controls.Days.Ranks.{
  IsRank, rank_unique, place, place-IsRank, median_twice-place,
}

abbrev pub counts : Session → List ℕ
counts s = map (λ d. count_day d (order_days s)) (days_of (order_days s))

-- The days are those of a list, each once.
pub record IsDaysOf (days xs : List ℕ) : Type 0 where
  pub members : (d : ℕ) → has_day d days ≡ has_day d xs
  pub once : (d : ℕ) → count_day d days ≤ 1

-- A day of orders, of five days or more, with less than half of the median of the orders per day:
-- four times its number is less than the sum of the two middle numbers.
pub record IsShort (s : Session) (d : ℕ) : Type 0 where
  pub enough : 5 ≤ length (days_of (order_days s))
  pub of_orders : has_day d (order_days s) ≡ true
  pub lower : ℕ
  pub upper : ℕ
  pub lower_rank : IsRank ((length (days_of (order_days s)) - 1) / 2) lower (counts s)
  pub upper_rank : IsRank (length (days_of (order_days s)) / 2) upper (counts s)
  pub less : 4 * count_day d (order_days s) < lower + upper

length-counts : (s : Session) → length (counts s) ≡ length (days_of (order_days s))
length-counts s = of_map (days_of (order_days s))
  where
    of_map : (ds : List ℕ) → length (map (λ d. count_day d (order_days s)) ds) ≡ length ds
    of_map [] = refl
    of_map (d ∷ ds) = ap (λ n. suc n) (of_map ds)

count_day-insert : (d x : ℕ) (xs : List ℕ) → count_day d (insert x xs) ≡ count_day d (x ∷ xs)
unfolding insert
count_day-insert d x [] = refl
count_day-insert d x (y ∷ ys) = ground (arith, count_day-insert d x ys)

count_day_absent : (d : ℕ) (xs : List ℕ) → has_day d xs ≡ false → count_day d xs ≡ 0
count_day_absent d [] h = refl
count_day_absent d (x ∷ xs) h = ground (arith, count_day_absent d xs, h)

at_most_one : (d : ℕ) (xs : List ℕ) → count_day d (days_of xs) ≤ 1
unfolding days_of
at_most_one d [] = omega arith
at_most_one d (x ∷ xs) = elim (Bool-cases (has_day x xs)) [
  | inl e ↦ rw e (at_most_one d xs)
  | inr e ↦ rw e (
      let absent = count_day_absent x (days_of xs) (has_day-days_of x xs ∙ e) in
      let inserted = count_day-insert d x (days_of xs) in
      elim (Bool-cases (d == x)) [
        | inl f ↦
            let same : count_day d (days_of xs) ≡ 0 =
              ap (λ y. count_day y (days_of xs)) ((==_iff d x).0 f) ∙ absent in
            omega (arith, rw f at inserted, same)
        | inr f ↦ omega (arith, rw f at inserted, at_most_one d xs)
      ])
]

days_of-IsDaysOf : (xs : List ℕ) → IsDaysOf (days_of xs) xs
days_of-IsDaysOf xs = record { members = λ d. has_day-days_of d xs; once = λ d. at_most_one d xs }

lt→ltb : (a b : ℕ) → a < b → ltb a b ≡ true
lt→ltb a b h = ground (arith, h)

short_of : Session → ℕ → Bool
short_of s d = ltb (4 * count_day d (order_days s)) (daily_median_twice s)

has_day-short_of :
    (s : Session) (d : ℕ)
    → has_day d (short_days s)
      ≡ (leb 5 (length (days_of (order_days s))) && (short_of s d && has_day d (order_days s)))
unfolding short_days short_of
has_day-short_of s d = ground (
  arith,
  has_day-keep d (λ d. ltb (4 * count_day d (order_days s)) (daily_median_twice s))
      (days_of (order_days s)),
  has_day-days_of d (order_days s),
)

-- Twice the median is the sum of the two middle numbers, whichever numbers have their ranks.
daily_median_twice-IsRank :
    (s : Session) (lower upper : ℕ)
    → 5 ≤ length (days_of (order_days s))
    → IsRank ((length (days_of (order_days s)) - 1) / 2) lower (counts s)
    → IsRank (length (days_of (order_days s)) / 2) upper (counts s)
    → daily_median_twice s ≡ lower + upper
unfolding daily_median_twice
daily_median_twice-IsRank s lower upper many l u =
    let n = length (days_of (order_days s)) in
    let len = length-counts s in
    let places =
      subst
        (λ k. median_twice (counts s) ≡ place (counts s) ((k - 1) / 2) + place (counts s) (k / 2))
        len (median_twice-place (counts s) (omega (arith, len, many))) in
    omega (
      arith,
      places,
      rank_unique ((n - 1) / 2) _ lower (counts s)
          (place-IsRank (counts s) ((n - 1) / 2) (omega (arith, len, many))) l,
      rank_unique (n / 2) _ upper (counts s)
          (place-IsRank (counts s) (n / 2) (omega (arith, len, many))) u,
    )

-- The days of the orders come each once, and the control alerts exactly the days of orders, of five
-- days or more, with less than half of the median number of orders per day, where the two middle
-- numbers are those with at most as many less numbers, and more that are not greater, than their
-- place in the order.
pub has_day-short_days :
    (s : Session) (d : ℕ)
    → IsDaysOf (days_of (order_days s)) (order_days s)
      × ((has_day d (short_days s) ≡ true) ↔ IsShort s d)
unfolding short_of
has_day-short_days s d = (
  days_of-IsDaysOf (order_days s),
  (
    λ h.
        let e = sym (has_day-short_of s d) ∙ h in
        let enough = leb→le 5 (length (days_of (order_days s))) (
          &&-left (leb 5 (length (days_of (order_days s))))
            (short_of s d && has_day d (order_days s)) e) in
        let len = length-counts s in
        let n = length (days_of (order_days s)) in
        let lower_rank = place-IsRank (counts s) ((n - 1) / 2) (omega (arith, len, enough)) in
        let upper_rank = place-IsRank (counts s) (n / 2) (omega (arith, len, enough)) in
        let median = daily_median_twice-IsRank s _ _ enough lower_rank upper_rank in
        let less = ltb→lt (4 * count_day d (order_days s)) (daily_median_twice s) (
          &&-left (short_of s d) (has_day d (order_days s)) (
            &&-right (leb 5 (length (days_of (order_days s))))
              (short_of s d && has_day d (order_days s)) e)) in
        record {
          enough = enough;
          of_orders = &&-right (short_of s d) (has_day d (order_days s)) (
              &&-right (leb 5 (length (days_of (order_days s))))
                (short_of s d && has_day d (order_days s)) e);
          lower = place (counts s) ((n - 1) / 2);
          upper = place (counts s) (n / 2);
          lower_rank = lower_rank;
          upper_rank = upper_rank;
          less = omega (arith, less, median);
        },
    λ r.
        let median =
          daily_median_twice-IsRank s r.lower r.upper r.enough r.lower_rank r.upper_rank in
        has_day-short_of s d
        ∙ &&-both (leb 5 (length (days_of (order_days s))))
            (short_of s d && has_day d (order_days s)) (ground (arith, r.enough))
            (&&-both (short_of s d) (has_day d (order_days s))
              (lt→ltb (4 * count_day d (order_days s)) (daily_median_twice s)
                (omega (arith, r.less, median)))
              r.of_orders),
  ),
)

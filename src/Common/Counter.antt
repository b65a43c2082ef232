-- ===== src/Common/Counter.antt =====
-- `collections.Counter` over texts: tallies in the order of first occurrence, and `most_common`.
use Prim.Native.Nat.{ℕ, suc, ◌+◌, ◌≤◌}
use Prim.Native.String.{String}
use mathlib.Core.Path.{◌≡◌, refl, sym, ap, subst}
use mathlib.Core.Bool.{true, false}
use mathlib.Core.Logic.{inl, inr}
use mathlib.Core.List.{List, [], ◌∷◌}
use mathlib.Core.Option.{Option, none, some}
use native.Mathlib.Omega.{arith}
use text.Mathlib.Text.{◌==◌ as str_eq}
use text.Mathlib.TextEquality.{eq_iff}
use text.Mathlib.TextPositions.{eq_refl}
use lineageiq.Common.Tests.{leb, if◌then◌else◌, Bool-cases}

-- `xs.count(x)`
abbrev pub count : String → List String → ℕ
count x [] = 0
count x (y ∷ ys) = if str_eq x y then suc (count x ys) else count x ys

-- `counter[x] += 1`
bump : String → List (String × ℕ) → List (String × ℕ)
bump x [] = (x, 1) ∷ []
bump x ((y, n) ∷ t) = if str_eq y x then (y, n + 1) ∷ t else (y, n) ∷ bump x t

tally : List (String × ℕ) → List String → List (String × ℕ)
tally t [] = t
tally t (x ∷ xs) = tally (bump x t) xs

unfoldable pub counter : List String → List (String × ℕ)
unfolding tally bump
counter xs = tally [] xs

-- The first entry of the greatest count, `none` for an empty counter.
best : String × ℕ → List (String × ℕ) → String × ℕ
best b [] = b
best (x, n) ((y, m) ∷ t) = if leb m n then best (x, n) t else best (y, m) t

-- `counter.most_common(1)`: the entry of a greatest count that was met first.
unfoldable pub most_common_one : List (String × ℕ) → Option (String × ℕ)
unfolding best
most_common_one [] = none
most_common_one (e ∷ t) = some (best e t)

-- `counter[x]`, 0 where it is missing
abbrev pub tally_of : String → List (String × ℕ) → ℕ
tally_of x [] = 0
tally_of x ((y, n) ∷ t) = if str_eq x y then n else tally_of x t

tally_of-bump :
    (a x : String) (t : List (String × ℕ))
    → tally_of a (bump x t) ≡ (if str_eq a x then suc (tally_of a t) else tally_of a t)
unfolding bump
tally_of-bump a x [] = ground arith
tally_of-bump a x ((y, n) ∷ t) =
    ground (arith, tally_of-bump a x t, eq_iff y x, eq_iff a x, eq_iff a y)

tally_of-tally :
    (a : String) (t : List (String × ℕ)) (xs : List String)
    → tally_of a (tally t xs) ≡ tally_of a t + count a xs
unfolding tally
tally_of-tally a t [] = omega arith
tally_of-tally a t (x ∷ xs) = ground (arith, tally_of-tally a (bump x t) xs, tally_of-bump a x t)

-- The counter holds the number of occurrences of every text.
pub tally_of-counter : (a : String) (xs : List String) → tally_of a (counter xs) ≡ count a xs
unfolding counter
tally_of-counter a xs = ground (arith, tally_of-tally a [] xs)

best-ge : (e : String × ℕ) (t : List (String × ℕ)) → e.1 ≤ (best e t).1
unfolding best
best-ge (x, n) [] = omega arith
best-ge (x, n) ((y, m) ∷ t) = ground (arith, best-ge (x, n) t, best-ge (y, m) t)

best-max : (e : String × ℕ) (t : List (String × ℕ)) (a : String) → tally_of a t ≤ (best e t).1
unfolding best
best-max e [] a = omega arith
best-max (x, n) ((y, m) ∷ t) a =
    ground (arith, best-max (x, n) t a, best-max (y, m) t a, best-ge (x, n) t, best-ge (y, m) t)

pub most_common_one-max :
    (t : List (String × ℕ)) (x : String) (n : ℕ) (a : String)
    → most_common_one t ≡ some (x, n)
    → tally_of a t ≤ n
unfolding most_common_one
most_common_one-max [] x n a h = ground arith
most_common_one-max (e ∷ t) x n a h = ground (arith, best-max e t a, best-ge e t)

-- Every text is counted at one place, at least once.
abbrev pub Unique : List (String × ℕ) → Type 0
Unique [] = Unit
Unique ((y, n) ∷ t) = (tally_of y t ≡ 0) × (1 ≤ n) × Unique t

bump-Unique : (x : String) (t : List (String × ℕ)) → Unique t → Unique (bump x t)
unfolding bump
bump-Unique x [] u = (refl, omega arith, tt)
bump-Unique x ((y, n) ∷ t) u = elim (Bool-cases (str_eq y x)) [
  | inl e ↦ rw e (u.0, omega arith, u.2)
  | inr e ↦ rw e (ground (arith, tally_of-bump y x t, eq_iff y x), u.1, bump-Unique x t u.2)
]

tally-Unique : (t : List (String × ℕ)) (xs : List String) → Unique t → Unique (tally t xs)
unfolding tally
tally-Unique t [] u = u
tally-Unique t (x ∷ xs) u = tally-Unique (bump x t) xs (bump-Unique x t u)

tally_of-skip_second :
    (x : String) (n : ℕ) (y : String) (m : ℕ) (t : List (String × ℕ)) (a : String) (k : ℕ)
    → tally_of y t ≡ 0
    → 1 ≤ k
    → tally_of a ((x, n) ∷ t) ≡ k
    → tally_of a ((x, n) ∷ (y, m) ∷ t) ≡ k
tally_of-skip_second x n y m t a k h p e = ground (arith, eq_iff a x, eq_iff a y)

tally_of-skip_first :
    (x : String) (n : ℕ) (t : List (String × ℕ)) (a : String) (k : ℕ)
    → tally_of x t ≡ 0
    → 1 ≤ k
    → tally_of a t ≡ k
    → tally_of a ((x, n) ∷ t) ≡ k
tally_of-skip_first x n t a k h p e = ground (arith, eq_iff a x)

tally_of_tail :
    (x : String) (y : String) (m : ℕ) (t : List (String × ℕ))
    → 1 ≤ m
    → tally_of x ((y, m) ∷ t) ≡ 0
    → tally_of x t ≡ 0
tally_of_tail x y m t p h = ground (arith, eq_iff x y)

best-nil : (e : String × ℕ) → best e [] ≡ e
unfolding best
best-nil e = refl

best-cons_keep :
    (x : String) (n : ℕ) (y : String) (m : ℕ) (t : List (String × ℕ))
    → leb m n ≡ true
    → best (x, n) ((y, m) ∷ t) ≡ best (x, n) t
unfolding best
best-cons_keep x n y m t h = ground arith

best-cons_drop :
    (x : String) (n : ℕ) (y : String) (m : ℕ) (t : List (String × ℕ))
    → leb m n ≡ false
    → best (x, n) ((y, m) ∷ t) ≡ best (y, m) t
unfolding best
best-cons_drop x n y m t h = ground arith

best-counts :
    (x : String) (n : ℕ) (t : List (String × ℕ))
    → Unique ((x, n) ∷ t)
    → tally_of (best (x, n) t).0 ((x, n) ∷ t) ≡ (best (x, n) t).1
best-counts x n [] u = rw (best-nil (x, n)) (ground (arith, eq_refl x))
best-counts x n ((y, m) ∷ t) u = elim (Bool-cases (leb m n)) [
  | inl e ↦
      subst (λ b. tally_of b.0 ((x, n) ∷ (y, m) ∷ t) ≡ b.1) (sym (best-cons_keep x n y m t e))
        (tally_of-skip_second x n y m t (best (x, n) t).0 (best (x, n) t).1 u.2.0
          (omega (arith, best-ge (x, n) t))
          (best-counts x n t (tally_of_tail x y m t u.2.1 u.0, u.1, u.2.2)))
  | inr e ↦
      subst (λ b. tally_of b.0 ((x, n) ∷ (y, m) ∷ t) ≡ b.1) (sym (best-cons_drop x n y m t e))
        (tally_of-skip_first x n ((y, m) ∷ t) (best (y, m) t).0 (best (y, m) t).1 u.0
          (omega (arith, best-ge (y, m) t)) (best-counts y m t u.2))
]

pub counter-Unique : (xs : List String) → Unique (counter xs)
unfolding counter
counter-Unique xs = tally-Unique [] xs tt

most_common_one-entry :
    (t : List (String × ℕ)) (x : String) (n : ℕ)
    → Unique t
    → most_common_one t ≡ some (x, n)
    → tally_of x t ≡ n
unfolding most_common_one
most_common_one-entry [] x n u h = ground arith
most_common_one-entry ((y, m) ∷ t) x n u h = ground (arith, best-counts y m t u)

-- What `most_common` gives first is an element, with its number of occurrences, and no element
-- occurs more often.
pub most_common_one-counter :
    (xs : List String) (x : String) (n : ℕ)
    → most_common_one (counter xs) ≡ some (x, n)
    → (n ≡ count x xs) × ((a : String) → count a xs ≤ count x xs)
most_common_one-counter xs x n h =
    let same = most_common_one-entry (counter xs) x n (counter-Unique xs) h in
    let counted = tally_of-counter x xs in
    (
      omega arith,
      λ a. omega (arith, most_common_one-max (counter xs) x n a h, tally_of-counter a xs),
    )

most_common_one-nil : (t : List (String × ℕ)) → most_common_one t ≡ none → t ≡ []
unfolding most_common_one
most_common_one-nil [] h = refl
most_common_one-nil (e ∷ t) h = cc

-- Only the counter of no texts has no most common one.
pub most_common_one-none : (xs : List String) → most_common_one (counter xs) ≡ none → xs ≡ []
most_common_one-none [] h = refl
most_common_one-none (x ∷ xs) h = absurd (
    ground (
      arith,
      eq_refl x,
      tally_of-counter x (x ∷ xs),
      ap (tally_of x) (most_common_one-nil (counter (x ∷ xs)) h),
    ))

-- The most common one occurs.
pub most_common_one-occurs :
    (xs : List String) (x : String) (n : ℕ)
    → most_common_one (counter xs) ≡ some (x, n)
    → 1 ≤ count x xs
unfolding counter most_common_one
most_common_one-occurs [] x n h = cc
most_common_one-occurs (y ∷ ys) x n h =
    let counted = (most_common_one-counter (y ∷ ys) x n h).1 y in ground (arith, eq_refl y)

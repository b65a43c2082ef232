-- ===== src/Detection/Controls/Days/Ranks.antt =====
-- The numbers that the median of backend/app/detection/detectors.py is made of, by their ranks.
use lineageiq.Common.{
  ℕ, zero, suc, ◌+◌, ◌/◌, ◌-◌, ◌%◌, ◌≤◌, ◌<◌, ◌==◌, Bool, true, false, List, [], ◌∷◌, keep, length,
  leb, ltb, leb→le, All, All-mono, Bool-cases, inl, inr, ◌≡◌, refl, ap, ◌∙◌, arith,
}
use lineageiq.Detection.Controls.Days.{insert, sorted, elem_or_zero, median_twice}

-- The number at place i, from 0 on, of the list in order: at most i are less, and more than i are
-- not greater.
abbrev pub IsRank : ℕ → ℕ → List ℕ → Type 0
IsRank i v xs = (length (keep (λ x. ltb x v) xs) ≤ i) × (i < length (keep (λ x. leb x v) xs))

abbrev Ordered : List ℕ → Type 0
Ordered [] = Unit
Ordered (x ∷ xs) = All (λ y. x ≤ y) xs × Ordered xs

length-keep-insert :
    (p : ℕ → Bool) (x : ℕ) (xs : List ℕ) → length (keep p (insert x xs)) ≡ length (keep p (x ∷ xs))
unfolding insert
length-keep-insert p x [] = refl
length-keep-insert p x (y ∷ ys) =
    let rest = length-keep-insert p x ys in
    elim (Bool-cases (leb x y)) [
      | inl e ↦ rw e refl
      | inr e ↦ elim (Bool-cases (p x)) [
        | inl f ↦ elim (Bool-cases (p y)) [
          | inl g ↦ rw (e, f, g) (omega (arith, rw f at rest))
          | inr g ↦ rw (e, f, g) (rw f at rest)
        ]
        | inr f ↦ elim (Bool-cases (p y)) [
          | inl g ↦ rw (e, f, g) (omega (arith, rw f at rest))
          | inr g ↦ rw (e, f, g) (rw f at rest)
        ]
      ]
    ]

length-keep-sorted : (p : ℕ → Bool) (xs : List ℕ) → length (keep p (sorted xs)) ≡ length (keep p xs)
unfolding sorted
length-keep-sorted p [] = refl
length-keep-sorted p (x ∷ xs) =
    let rest = length-keep-sorted p xs in
    length-keep-insert p x (sorted xs)
    ∙ (elim (Bool-cases (p x)) [ inl e ↦ rw e (ap (λ n. suc n) rest) | inr e ↦ rw e rest ])

length-insert : (x : ℕ) (xs : List ℕ) → length (insert x xs) ≡ suc (length xs)
unfolding insert
length-insert x [] = refl
length-insert x (y ∷ ys) = elim (Bool-cases (leb x y)) [
  | inl e ↦ rw e refl
  | inr e ↦ rw e (ap (λ n. suc n) (length-insert x ys))
]

length-sorted : (xs : List ℕ) → length (sorted xs) ≡ length xs
unfolding sorted
length-sorted [] = refl
length-sorted (x ∷ xs) = length-insert x (sorted xs) ∙ ap (λ n. suc n) (length-sorted xs)

All-insert : (P : ℕ → Type 0) (x : ℕ) (xs : List ℕ) → P x → All P xs → All P (insert x xs)
unfolding insert
All-insert P x [] h a = (h, tt)
All-insert P x (y ∷ ys) h a = elim (Bool-cases (leb x y)) [
  | inl e ↦ rw e (h, a)
  | inr e ↦ rw e (a.0, All-insert P x ys h a.1)
]

insert-Ordered : (x : ℕ) (xs : List ℕ) → Ordered xs → Ordered (insert x xs)
unfolding insert
insert-Ordered x [] o = (tt, tt)
insert-Ordered x (y ∷ ys) o = elim (Bool-cases (leb x y)) [
  | inl e ↦
      let le = leb→le x y e in
      rw e ((le, All-mono (λ z. y ≤ z) ys (λ z h. omega (arith, le, h)) o.0), o)
  | inr e ↦ rw e (All-insert (λ z. y ≤ z) x ys (ground (arith, e)) o.0, insert-Ordered x ys o.1)
]

sorted-Ordered : (xs : List ℕ) → Ordered (sorted xs)
unfolding sorted
sorted-Ordered [] = tt
sorted-Ordered (x ∷ xs) = insert-Ordered x (sorted xs) (sorted-Ordered xs)

none_below : (v : ℕ) (xs : List ℕ) → All (λ y. v ≤ y) xs → length (keep (λ x. ltb x v) xs) ≡ 0
none_below v [] a = refl
none_below v (y ∷ ys) a =
    let e : ltb y v ≡ false = ground (arith, a.0) in rw e (none_below v ys a.1)

elem_or_zero-All :
    (P : ℕ → Type 0) (xs : List ℕ) (i : ℕ) → All P xs → i < length xs → P (elem_or_zero xs i)
unfolding elem_or_zero
elem_or_zero-All P [] i a h = absurd (omega arith)
elem_or_zero-All P (x ∷ xs) zero a h = a.0
elem_or_zero-All P (x ∷ xs) (suc i) a h = elem_or_zero-All P xs i a.1 (omega arith)

-- The place of a number in an ordered list is its rank.
elem_or_zero-IsRank :
    (xs : List ℕ) (i : ℕ) → Ordered xs → i < length xs → IsRank i (elem_or_zero xs i) xs
unfolding elem_or_zero
elem_or_zero-IsRank [] i o h = absurd (omega arith)
elem_or_zero-IsRank (x ∷ xs) zero o h =
    let self : ltb x x ≡ false = ground arith in
    let same : leb x x ≡ true = ground arith in
    (rw self (omega (arith, none_below x xs o.0)), rw same (omega arith))
elem_or_zero-IsRank (x ∷ xs) (suc i) o h =
    let (below, upto) = elem_or_zero-IsRank xs i o.1 (omega arith) in
    let le = elem_or_zero-All (λ y. x ≤ y) xs i o.0 (omega arith) in
    let v = elem_or_zero xs i in
    let first : leb x v ≡ true = ground (arith, le) in
    (
      elim (Bool-cases (ltb x v)) [
        | inl e ↦ rw e (omega (arith, below))
        | inr e ↦ rw e (omega (arith, below))
      ],
      rw first (omega (arith, upto)),
    )

length-keep_mono :
    (p q : ℕ → Bool) (xs : List ℕ)
    → ((x : ℕ) → p x ≡ true → q x ≡ true)
    → length (keep p xs) ≤ length (keep q xs)
length-keep_mono p q [] h = omega arith
length-keep_mono p q (x ∷ xs) h =
    let rest = length-keep_mono p q xs h in
    elim (Bool-cases (p x)) [
      | inl e ↦ rw (e, h x e) (omega (arith, rest))
      | inr e ↦ elim (Bool-cases (q x)) [
        | inl f ↦ rw (e, f) (omega (arith, rest))
        | inr f ↦ rw (e, f) rest
      ]
    ]

not_less : (i v w : ℕ) (xs : List ℕ) → IsRank i v xs → IsRank i w xs → w ≤ v
not_less i v w xs a b = elim (Bool-cases (ltb v w)) [
  | inr e ↦ ground (arith, e)
  | inl e ↦ absurd (
      omega (
        arith,
        a.1,
        b.0,
        length-keep_mono (λ x. leb x v) (λ x. ltb x w) xs (λ x h. ground (arith, e, h)),
      ))
]

pub rank_unique : (i v w : ℕ) (xs : List ℕ) → IsRank i v xs → IsRank i w xs → v ≡ w
rank_unique i v w xs a b = omega (arith, not_less i v w xs a b, not_less i w v xs b a)

pub place : List ℕ → ℕ → ℕ
place xs i = elem_or_zero (sorted xs) i

pub place-IsRank : (xs : List ℕ) (i : ℕ) → i < length xs → IsRank i (place xs i) xs
unfolding place
place-IsRank xs i h =
    let (below, upto) =
      elem_or_zero-IsRank (sorted xs) i (sorted-Ordered xs) (omega (arith, h, length-sorted xs)) in
    (
      omega (arith, below, length-keep-sorted (λ x. ltb x (place xs i)) xs),
      omega (arith, upto, length-keep-sorted (λ x. leb x (place xs i)) xs),
    )

pub median_twice-place :
    (xs : List ℕ)
    → 1 ≤ length xs
    → median_twice xs ≡ place xs ((length xs - 1) / 2) + place xs (length xs / 2)
unfolding median_twice place
median_twice-place xs h = elim (Bool-cases (length xs % 2 == 1)) [
  | inl e ↦
      let same : (length xs - 1) / 2 ≡ length xs / 2 = ground (arith, e) in
      rw e (omega (arith, ap (λ i. elem_or_zero (sorted xs) i) same))
  | inr e ↦
      let same : (length xs - 1) / 2 ≡ length xs / 2 - 1 = ground (arith, e, h) in
      rw e (omega (arith, ap (λ i. elem_or_zero (sorted xs) i) same))
]

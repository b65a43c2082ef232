-- ===== src/Tools/Logs/Ordered.antt =====
-- The steps of the search of backend/app/tools/log_tool.py on lists: filtering, ordering by time, and
-- taking the first records.
use lineageiq.Common.{
  ℕ, zero, suc, ◌≤◌, ◌<◌, Bool, true, false, List, [], ◌∷◌, keep, take, length, All, All-mono, leb,
  leb→le, Bool-cases, inl, inr, ◌⊎◌, ◌≡◌, refl, ap, arith,
}
use lineageiq.Database.{SystemLog}
use lineageiq.Tools.Logs.{insert_log, order_logs}

-- A record stands in a list.
abbrev pub Among : SystemLog → List SystemLog → Type 0
Among l [] = ⊥
Among l (x ∷ xs) = (l ≡ x) ⊎ Among l xs

-- No record is later than one that follows it.
abbrev pub Ascending : List SystemLog → Type 0
Ascending [] = Unit
Ascending (x ∷ xs) = All (λ y. x.timestamp ≤ y.timestamp) xs × Ascending xs

module _ (P : SystemLog → Type 0) where
  All-insert_log : (l : SystemLog) (ls : List SystemLog) → P l → All P ls → All P (insert_log l ls)
  unfolding insert_log
  All-insert_log l [] p h = (p, tt)
  All-insert_log l (x ∷ xs) p h = elim (Bool-cases (leb l.timestamp x.timestamp)) [
    | inl e ↦ rw e (p, h)
    | inr e ↦ rw e (h.0, All-insert_log l xs p h.1)
  ]

  pub All-order_logs : (ls : List SystemLog) → All P ls → All P (order_logs ls)
  unfolding order_logs
  All-order_logs [] h = tt
  All-order_logs (l ∷ ls) h = All-insert_log l (order_logs ls) h.0 (All-order_logs ls h.1)

  pub All-take : (n : ℕ) (ls : List SystemLog) → All P ls → All P (take n ls)
  All-take zero ls h = tt
  All-take (suc n) [] h = tt
  All-take (suc n) (l ∷ ls) h = (h.0, All-take n ls h.1)

  pub All-keep :
      (p : SystemLog → Bool) (ls : List SystemLog)
      → All P ls
      → All (λ l. P l × (p l ≡ true)) (keep p ls)
  All-keep p [] h = tt
  All-keep p (l ∷ ls) h = elim (Bool-cases (p l)) [
    | inl e ↦ rw e ((h.0, e), All-keep p ls h.1)
    | inr e ↦ rw e (All-keep p ls h.1)
  ]

pub each_stands : (ls : List SystemLog) → All (λ l. Among l ls) ls
each_stands [] = tt
each_stands (x ∷ xs) = (inl refl, All-mono (λ l. Among l xs) xs (λ l h. inr h) (each_stands xs))

insert_log-Ascending :
    (l : SystemLog) (ls : List SystemLog) → Ascending ls → Ascending (insert_log l ls)
unfolding insert_log
insert_log-Ascending l [] h = (tt, tt)
insert_log-Ascending l (x ∷ xs) h = elim (Bool-cases (leb l.timestamp x.timestamp)) [
  | inl e ↦
      let le = leb→le l.timestamp x.timestamp e in
      rw e ((le, All-mono (λ y. x.timestamp ≤ y.timestamp) xs (λ y k. omega (arith, le, k)) h.0), h)
  | inr e ↦ rw e (
    All-insert_log (λ y. x.timestamp ≤ y.timestamp) l xs (ground (arith, e)) h.0,
    insert_log-Ascending l xs h.1,
  )
]

pub order_logs-Ascending : (ls : List SystemLog) → Ascending (order_logs ls)
unfolding order_logs
order_logs-Ascending [] = tt
order_logs-Ascending (l ∷ ls) = insert_log-Ascending l (order_logs ls) (order_logs-Ascending ls)

pub take-Ascending : (n : ℕ) (ls : List SystemLog) → Ascending ls → Ascending (take n ls)
take-Ascending zero ls h = tt
take-Ascending (suc n) [] h = tt
take-Ascending (suc n) (l ∷ ls) h =
    (All-take (λ y. l.timestamp ≤ y.timestamp) n ls h.0, take-Ascending n ls h.1)

pub keep-Ascending :
    (p : SystemLog → Bool) (ls : List SystemLog) → Ascending ls → Ascending (keep p ls)
keep-Ascending p [] h = tt
keep-Ascending p (l ∷ ls) h = elim (Bool-cases (p l)) [
  | inl e ↦ rw e (
    All-mono (λ y. (l.timestamp ≤ y.timestamp) × (p y ≡ true)) (keep p ls) (λ y k. k.0)
        (All-keep (λ y. l.timestamp ≤ y.timestamp) p ls h.0),
    keep-Ascending p ls h.1,
  )
  | inr e ↦ rw e (keep-Ascending p ls h.1)
]

Among-insert_log :
    (l x : SystemLog) (ls : List SystemLog) → Among l (x ∷ ls) → Among l (insert_log x ls)
unfolding insert_log
Among-insert_log l x [] h = h
Among-insert_log l x (y ∷ ys) h = elim (Bool-cases (leb x.timestamp y.timestamp)) [
  | inl e ↦ rw e h
  | inr e ↦ rw e (elim h [
    | inl s ↦ inr (Among-insert_log l x ys (inl s))
    | inr k ↦ elim k [ inl s ↦ inl s | inr m ↦ inr (Among-insert_log l x ys (inr m)) ]
  ])
]

pub Among-order_logs : (l : SystemLog) (ls : List SystemLog) → Among l ls → Among l (order_logs ls)
unfolding order_logs
Among-order_logs l [] h = h
Among-order_logs l (x ∷ xs) h =
    Among-insert_log l x (order_logs xs)
      (elim h [ inl s ↦ inl s | inr m ↦ inr (Among-order_logs l xs m) ])

pub Among-keep :
    (l : SystemLog) (p : SystemLog → Bool) (ls : List SystemLog)
    → p l ≡ true
    → Among l ls
    → Among l (keep p ls)
Among-keep l p [] e h = h
Among-keep l p (x ∷ xs) e h = elim (Bool-cases (p x)) [
  | inl f ↦ rw f (elim h [ inl s ↦ inl s | inr m ↦ inr (Among-keep l p xs e m) ])
  | inr f ↦ rw f (elim h [ inl s ↦ absurd (differ s f) | inr m ↦ Among-keep l p xs e m ])
]
  where
    differ : l ≡ x → ¬ (p x ≡ false)
    differ s f = cc

pub take_short : (n : ℕ) (ls : List SystemLog) → length (take n ls) < n → take n ls ≡ ls
take_short zero ls h = absurd (omega arith)
take_short (suc n) [] h = refl
take_short (suc n) (l ∷ ls) h = ap (λ k. l ∷ k) (take_short n ls (omega arith))

pub take_all : (n : ℕ) (ls : List SystemLog) → length ls ≤ n → take n ls ≡ ls
take_all zero [] h = refl
take_all zero (l ∷ ls) h = absurd (omega arith)
take_all (suc n) [] h = refl
take_all (suc n) (l ∷ ls) h = ap (λ k. l ∷ k) (take_all n ls (omega arith))

length-insert_log :
    (l : SystemLog) (ls : List SystemLog) → length (insert_log l ls) ≡ suc (length ls)
unfolding insert_log
length-insert_log l [] = refl
length-insert_log l (x ∷ xs) = elim (Bool-cases (leb l.timestamp x.timestamp)) [
  | inl e ↦ rw e refl
  | inr e ↦ rw e (omega (arith, length-insert_log l xs))
]

pub length-order_logs : (ls : List SystemLog) → length (order_logs ls) ≡ length ls
unfolding order_logs
length-order_logs [] = refl
length-order_logs (l ∷ ls) =
    omega (arith, length-insert_log l (order_logs ls), length-order_logs ls)

pub length-keep : (p : SystemLog → Bool) (ls : List SystemLog) → length (keep p ls) ≤ length ls
length-keep p [] = omega arith
length-keep p (l ∷ ls) = elim (Bool-cases (p l)) [
  | inl e ↦ rw e (omega (arith, length-keep p ls))
  | inr e ↦ rw e (omega (arith, length-keep p ls))
]

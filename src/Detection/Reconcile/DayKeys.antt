-- ===== src/Detection/Reconcile/DayKeys.antt =====
-- Python dicts by date and region, for backend/app/detection/reconcile.py.
use lineageiq.Common.{
  ℕ, ◌==◌, ◌&&◌, ◌||◌, Bool, true, false, String, str_eq, eq_iff, Option, none, some, List, [], ◌∷◌,
  ◌++◌, any, map, ◌≡◌, refl, arith, if◌then◌else◌, Bool-cases, any-append, inl, inr, ==_iff, ap,
  &&-left, &&-right, eq_refl, subst, sym,
}

abbrev pub DayKey : Type 0
DayKey = ℕ × String

abbrev pub same_key : DayKey → DayKey → Bool
same_key (d, r) (e, q) = (d == e) && str_eq r q

abbrev pub Dict {ℓ} : Type ℓ → Type ℓ
Dict A = List (DayKey × A)

module _ {ℓ} {A : Type ℓ} where
  -- `dict.get(key)`
  abbrev pub dict_get : DayKey → Dict A → Option A
  dict_get key [] = none
  dict_get key ((k, a) ∷ d) = if same_key k key then some a else dict_get key d

  -- A defaultdict's value.
  abbrev pub value_of : DayKey → A → Dict A → A
  value_of key a [] = a
  value_of key a ((k, b) ∷ d) = if same_key k key then b else value_of key a d

  -- `dict[key] = f(dict[key])` in a defaultdict of default a
  abbrev pub adjust : DayKey → A → (A → A) → Dict A → Dict A
  adjust key a f [] = (key, f a) ∷ []
  adjust key a f ((k, b) ∷ d) = if same_key k key then (k, f b) ∷ d else (k, b) ∷ adjust key a f d

  abbrev pub keys_of : Dict A → List DayKey
  keys_of d = map (λ e. e.0) d

abbrev pub has_key : DayKey → List DayKey → Bool
has_key key keys = any (λ k. same_key k key) keys

-- The union of two sets.
abbrev pub union : List DayKey → List DayKey → List DayKey
union ks [] = ks
union ks (l ∷ ls) = if has_key l ks then union ks ls else union (ks ++ l ∷ []) ls

pub same_key→eq : (k l : DayKey) → same_key k l ≡ true → k ≡ l
same_key→eq (d, r) (e, q) h =
    let day : d ≡ e = (==_iff d e).0 (&&-left (d == e) (str_eq r q) h) in
    let region : r ≡ q = (eq_iff r q).0 (&&-right (d == e) (str_eq r q) h) in cc

pub same_key_refl : (k : DayKey) → same_key k k ≡ true
same_key_refl (d, r) = ground (arith, eq_refl r)

-- A key that differs from one of two equal keys differs from the other.
same_key_other :
    (m k l : DayKey) → same_key m k ≡ false → same_key m l ≡ true → same_key k l ≡ false
same_key_other m k l h e = elim (Bool-cases (same_key k l)) [
  | inr o ↦ o
  | inl s ↦
      let same : same_key m k ≡ true =
        subst (λ k. same_key m k ≡ true) (sym (same_key→eq k l s)) e in
      cc
]

module _ {ℓ} {A : Type ℓ} where
  pub value_of-adjust :
      (k l : DayKey) (a : A) (f : A → A) (d : Dict A)
      → value_of l a (adjust k a f d)
        ≡ (if same_key k l then f (value_of l a d) else value_of l a d)
  value_of-adjust k l a f [] = refl
  value_of-adjust k l a f ((m, b) ∷ d) = elim (Bool-cases (same_key m k)) [
    | inl e ↦
        rw (e, ap (λ m. same_key m l) (same_key→eq m k e))
          (elim (Bool-cases (same_key k l)) [ inl s ↦ rw s refl | inr s ↦ rw s refl ])
    | inr e ↦ elim (Bool-cases (same_key m l)) [
      | inl s ↦ rw (e, s, same_key_other m k l e s) refl
      | inr s ↦ rw (e, s) (value_of-adjust k l a f d)
    ]
  ]

  pub has_key-adjust :
      (k l : DayKey) (a : A) (f : A → A) (d : Dict A)
      → has_key l (keys_of (adjust k a f d)) ≡ (same_key k l || has_key l (keys_of d))
  has_key-adjust k l a f [] = refl
  has_key-adjust k l a f ((m, b) ∷ d) = elim (Bool-cases (same_key m k)) [
    | inl e ↦ rw (e, ap (λ m. same_key m l) (same_key→eq m k e)) ground arith
    | inr e ↦ rw (e, has_key-adjust k l a f d) ground arith
  ]

has_key_member :
    (k l : DayKey) (ks : List DayKey)
    → has_key l ks ≡ true
    → same_key l k ≡ true
    → has_key k ks ≡ true
has_key_member k l ks h e = subst (λ k. has_key k ks ≡ true) (same_key→eq l k e) h

pub has_key-union :
    (k : DayKey) (ks ls : List DayKey) → has_key k (union ks ls) ≡ (has_key k ks || has_key k ls)
has_key-union k ks [] = ground arith
has_key-union k ks (l ∷ ls) = elim (Bool-cases (has_key l ks)) [
  | inl h ↦ rw (h, has_key-union k ks ls) ground (arith, has_key_member k l ks h)
  | inr h ↦
      rw (h, has_key-union k (ks ++ l ∷ []) ls, any-append (λ m. same_key m k) ks (l ∷ [])) ground
        arith
]

pub dict_get-map {ℓ} :
    {A : Type ℓ} (f : DayKey → A) (key : DayKey) (ks : List DayKey)
    → dict_get key (map (λ k. (k, f k)) ks) ≡ (if has_key key ks then some (f key) else none)
dict_get-map f key [] = refl
dict_get-map f key (k ∷ ks) = elim (Bool-cases (same_key k key)) [
  | inl e ↦ rw e (ap (λ k. some (f k)) (same_key→eq k key e))
  | inr e ↦ rw e (dict_get-map f key ks)
]

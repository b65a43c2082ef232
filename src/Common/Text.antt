-- ===== src/Common/Text.antt =====
-- Texts: f-strings, `str.join`, sets of texts and their sorted lists.
use Prim.Native.Char.{code}
use Prim.Native.Nat.{ℕ, zero, suc, ◌+◌, ◌/◌, ◌%◌, Ordering}
use Prim.Native.String.{String, compare, ◌++◌ as concat_two}
use mathlib.Core.Path.{◌≡◌, refl, subst}
use mathlib.Core.Bool.{Bool, true, false, ◌&&◌, ◌||◌}
use mathlib.Core.List.{List, [], ◌∷◌, map}
use native.Mathlib.Omega.{arith}
use text.Mathlib.Text.{◌==◌ as str_eq}
use text.Mathlib.TextEquality.{eq_iff}
use text.Mathlib.TextPositions.{eq_refl}
use mathlib.Core.Logic.{inl, inr}
use lineageiq.Common.Tests.{ltb, leb, Bool-cases, ◌==◌, if◌then◌else◌}
use lineageiq.Common.Lists.{any, keep}

-- An f-string: its pieces in order.
abbrev pub concat : List String → String
concat [] = ""
concat (s ∷ ss) = concat_two s (concat ss)

-- `sep.join(xs)`
abbrev pub join : String → List String → String
join sep [] = ""
join sep (s ∷ []) = s
join sep (s ∷ t ∷ ss) = concat_two s (concat_two sep (join sep (t ∷ ss)))

abbrev quoted : String → String
quoted s = concat ("'" ∷ s ∷ "'" ∷ [])

abbrev quoted_all : List String → List String
quoted_all [] = []
quoted_all (s ∷ ss) = quoted s ∷ quoted_all ss

-- `f"{xs}"` of a list of texts without quotes of their own
abbrev pub list_text : List String → String
list_text xs = concat ("[" ∷ join ", " (quoted_all xs) ∷ "]" ∷ [])

-- `s[:n]`
abbrev pub take_text : ℕ → String → String
take_text zero s = ""
take_text (suc n) String.[] = ""
take_text (suc n) (String.◌∷◌ c s) = String.◌∷◌ c (take_text n s)

digit : ℕ → String
digit n =
    if n == 0
    then "0"
    else if n == 1
    then "1"
    else if n == 2
    then "2"
    else if n == 3
    then "3"
    else if n == 4
    then "4"
    else if n == 5
    then "5"
    else if n == 6
    then "6"
    else if n == 7
    then "7"
    else if n == 8
    then "8"
    else "9"

-- A number has at most as many digits as its value and one.
decimal : ℕ → ℕ → String
decimal zero n = ""
decimal (suc fuel) n =
    let higher = decimal fuel (n / 10) in
    if ltb n 10 then digit n else concat_two higher (digit (n % 10))

-- `str(n)`
unfoldable pub show : ℕ → String
unfolding decimal digit
show n = decimal (suc n) n

-- `x in xs`
abbrev pub has : String → List String → Bool
has x xs = any (str_eq x) xs

-- The elements of a set built from `xs`, each once.
abbrev pub distinct : List String → List String
distinct [] = []
distinct (x ∷ xs) = if has x xs then distinct xs else x ∷ distinct xs

abbrev pub insert_text : String → List String → List String
insert_text x [] = x ∷ []
insert_text x (y ∷ ys) = elim (compare x y) [ Ordering.gt ↦ y ∷ insert_text x ys | _ ↦ x ∷ y ∷ ys ]

-- `sorted(xs)`: texts order by code point.
abbrev pub sort_texts : List String → List String
sort_texts [] = []
sort_texts (x ∷ xs) = insert_text x (sort_texts xs)

pub has-distinct : (a : String) (xs : List String) → has a (distinct xs) ≡ has a xs
has-distinct a [] = refl
has-distinct a (x ∷ xs) = ground (arith, has-distinct a xs, has-distinct x xs, eq_iff a x)

pub has-insert_text :
    (a x : String) (ys : List String) → has a (insert_text x ys) ≡ (str_eq a x || has a ys)
has-insert_text a x [] = refl
has-insert_text a x (y ∷ ys) = ground (arith, has-insert_text a x ys)

pub has-sort_texts : (a : String) (xs : List String) → has a (sort_texts xs) ≡ has a xs
has-sort_texts a [] = refl
has-sort_texts a (x ∷ xs) = ground (arith, has-insert_text a x (sort_texts xs), has-sort_texts a xs)

abbrev pub is_nil : List String → Bool
is_nil [] = true
is_nil (x ∷ xs) = false

abbrev pub code_points : String → List ℕ
code_points String.[] = []
code_points (String.◌∷◌ c s) = code c ∷ code_points s

-- `str.lower` on the letters A to Z
abbrev pub lower_point : ℕ → ℕ
lower_point c = if leb 65 c && leb c 90 then c + 32 else c

abbrev starts : List ℕ → List ℕ → Bool
starts [] s = true
starts (a ∷ w) [] = false
starts (a ∷ w) (b ∷ s) = a == b && starts w s

abbrev occurs : List ℕ → List ℕ → Bool
occurs w [] = starts w []
occurs w (b ∷ s) = starts w (b ∷ s) || occurs w s

-- `word in s.lower()`
unfoldable pub lower_contains : String → String → Bool
lower_contains word s = occurs (code_points word) (map lower_point (code_points s))

-- `t.lower() in s.lower()`
unfoldable pub contains_lower : String → String → Bool
contains_lower t s = occurs (map lower_point (code_points t)) (map lower_point (code_points s))

pub has-keep :
    (a : String) (p : String → Bool) (xs : List String) → has a (keep p xs) ≡ (p a && has a xs)
has-keep a p [] = ground arith
has-keep a p (x ∷ xs) = elim (Bool-cases (str_eq a x)) [
  | inl e ↦
      subst (λ y. has a (keep p (y ∷ xs)) ≡ (p a && has a (y ∷ xs))) ((eq_iff a x).0 e)
        (ground (arith, has-keep a p xs, eq_refl a))
  | inr e ↦ ground (arith, has-keep a p xs)
]

pub is_nil-has : (xs : List String) (a : String) → is_nil xs ≡ true → has a xs ≡ false
is_nil-has [] a h = refl
is_nil-has (x ∷ xs) a h = ground arith

pub is_nil_of_has : (xs : List String) → ((a : String) → has a xs ≡ false) → is_nil xs ≡ true
is_nil_of_has [] h = refl
is_nil_of_has (x ∷ xs) h = ground (arith, h x, eq_refl x)

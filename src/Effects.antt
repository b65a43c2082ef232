-- ===== src/Effects.antt =====
-- Python statements that read and write the session and may raise. What was written before an
-- exception stays written, so the state comes back beside the exception too.
use lineageiq.Common.{String, [], ◌∷◌, concat}

-- An exception, with the class that a handler may test and the text `str(exc)`.
pub data Error : Type 0 where
  key_error value_error overflow_error tool_safety_error other_error : String → Error

-- `str(exc)`: a KeyError shows the repr of its argument.
abbrev pub error_text : Error → String
error_text (key_error m) = concat ("'" ∷ m ∷ "'" ∷ [])
error_text (value_error m) = m
error_text (overflow_error m) = m
error_text (tool_safety_error m) = m
error_text (other_error m) = m

pub data Result {ℓ} (A : Type ℓ) : Type ℓ where
  ok : A → Result A
  raised : Error → Result A

abbrev pub Exec {ℓ} : Type ℓ → Type ℓ → Type ℓ
Exec S A = S → Result A × S

module _ {ℓ} {S A : Type ℓ} where
  abbrev pub pure : A → Exec S A
  pure a s = (ok a, s)

  abbrev pub raise : Error → Exec S A
  raise e s = (raised e, s)

  abbrev pub lift : Result A → Exec S A
  lift r s = (r, s)

  abbrev pub gets : (S → A) → Exec S A
  gets f s = (ok (f s), s)

module _ {ℓ} {S A B : Type ℓ} where
  abbrev pub and_then : Result A → (A → Exec S B) → Exec S B
  and_then (ok a) f s = f a s
  and_then (raised e) f s = (raised e, s)

  infixl 5 ◌>>=◌ ◌>>◌
  abbrev pub ◌>>=◌ : Exec S A → (A → Exec S B) → Exec S B
  ◌>>=◌ m f s = and_then (m s).0 f (m s).1

  abbrev pub ◌>>◌ : Exec S A → Exec S B → Exec S B
  m >> k = m >>= λ _. k

abbrev pub modify : {S : Type 0} → (S → S) → Exec S Unit
modify f s = (ok tt, f s)

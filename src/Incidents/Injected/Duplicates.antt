-- ===== src/Incidents/Injected/Duplicates.antt =====
-- The duplicate of a payment that `DuplicateTransactionInjector` stores is found by
-- `DuplicatePaymentDetector`.
use lineageiq.Common.{
  suc, ◌+◌, ◌≤◌, true, String, str_eq, eq_refl, has, count, le→leb, some, List, [], ◌∷◌, ◌++◌, map,
  ◌≡◌, refl, ap, ◌∙◌, subst, arith, Bool-cases, inl, inr,
}
use lineageiq.Effects.{ok}
use lineageiq.Database.{Session, Payment}
use lineageiq.Detection.Controls.{repeated_keys, payment_keys}
use lineageiq.Detection.Controls.Duplicates.{repeated_keys-count}
use lineageiq.Incidents.{IncidentManifest}
use lineageiq.Incidents.Injectors.Params.{text_param}
use lineageiq.Incidents.Injectors.Payments.{
  payment_with, apply_duplicate, duplicate_id, duplicate_of, add_duplicate,
}

pub count-append : (x : String) (xs ys : List String) → count x (xs ++ ys) ≡ count x xs + count x ys
count-append x [] ys = omega arith
count-append x (y ∷ xs) ys = ground (arith, count-append x xs ys)

keys_of_append :
    (ps : List Payment) (p : Payment)
    → map (λ p. p.idempotency_key) (ps ++ p ∷ [])
      ≡ map (λ p. p.idempotency_key) ps ++ p.idempotency_key ∷ []
keys_of_append [] p = refl
keys_of_append (q ∷ ps) p = ap (λ ks. q.idempotency_key ∷ ks) (keys_of_append ps p)

payment_with-count :
    (payment_id : String) (ps : List Payment) (p : Payment)
    → payment_with payment_id ps ≡ some p
    → 1 ≤ count p.idempotency_key (map (λ p. p.idempotency_key) ps)
payment_with-count payment_id [] p h = cc
payment_with-count payment_id (q ∷ ps) p h = elim (Bool-cases (str_eq q.payment_id payment_id)) [
  | inl e ↦
      let found : some q ≡ some p = rw e at h in
      let same : q ≡ p = cc in
      subst (λ (p : Payment). 1 ≤ count p.idempotency_key (map (λ p. p.idempotency_key) (q ∷ ps)))
        same (ground (arith, eq_refl q.idempotency_key))
  | inr e ↦ ground (arith, payment_with-count payment_id ps p (rw e at h))
]

-- When the manifest names a stored payment, the injection succeeds with the id of the duplicate,
-- and the control then reports the payment's idempotency key, with one more occurrence of it.
pub apply_duplicate-repeated :
    (manifest : IncidentManifest) (s : Session) (payment_id : String) (p : Payment)
    → text_param "payment_id" manifest.params ≡ ok payment_id
    → payment_with payment_id s.payments ≡ some p
    → ((apply_duplicate manifest s).0 ≡ ok (duplicate_id p ∷ []))
      × (count p.idempotency_key (payment_keys (apply_duplicate manifest s).1)
          ≡ suc (count p.idempotency_key (payment_keys s)))
      × (has p.idempotency_key (map (λ e. e.0) (repeated_keys (apply_duplicate manifest s).1))
          ≡ true)
unfolding apply_duplicate
apply_duplicate-repeated manifest s payment_id p e f =
    let key = p.idempotency_key in
    let counted : count key (payment_keys (add_duplicate p s)) ≡ suc (count key (payment_keys s)) =
      ap (count key) (keys_of_append s.payments (duplicate_of p))
      ∙ ground (arith, count-append key (payment_keys s) (key ∷ []), eq_refl key) in
    rw (e, f)
      (
        refl,
        counted,
        repeated_keys-count (add_duplicate p s) key
            ∙ le→leb 2 (count key (payment_keys (add_duplicate p s)))
                (omega (arith, counted, payment_with-count payment_id s.payments p f)),
      )

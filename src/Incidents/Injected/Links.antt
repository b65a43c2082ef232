-- ===== src/Incidents/Injected/Links.antt =====
-- References between the business tables, under the injectors of
-- backend/app/incidents/injectors.py.
use lineageiq.Common.{
  ℕ, Bool, true, not, ◌&&◌, String, str_eq, eq_iff, has, some, List, [], ◌∷◌, ◌++◌, map, keep, any,
  all, any-append, all-append, ◌≡◌, refl, sym, ◌∙◌, subst, Bool-cases, inl, inr, &&-left, &&-right,
  &&-both,
}
use lineageiq.Database.{Session, Order, Payment, Refund, Shipment}
use lineageiq.Incidents.Injectors.Payments.{payment_with, add_duplicate, duplicate_of}
use lineageiq.Incidents.Injectors.Loads.{delete_orders}
use lineageiq.Incidents.Injectors.Outages.{delete_payments}
use lineageiq.Incidents.Injectors.Timezones.{shift_orders, shift_order, is_shifted}

abbrev pub has_order : String → List Order → Bool
has_order order_id os = any (λ o. str_eq o.order_id order_id) os

-- The payment of a refund is stored, and is of the refund's order.
abbrev pub pays_refund : Refund → Payment → Bool
pays_refund r p = str_eq p.payment_id r.payment_id && str_eq p.order_id r.order_id

-- Payments and shipments are of stored orders, and refunds of stored payments.
pub record IsLinked (s : Session) : Type 0 where
  pub payments_linked : all (λ p. has_order p.order_id s.orders) s.payments ≡ true
  pub refunds_linked : all (λ r. any (pays_refund r) s.payments) s.refunds ≡ true
  pub shipments_linked : all (λ h. has_order h.order_id s.orders) s.shipments ≡ true

all-narrow :
    {A : Type 0} (p q r : A → Bool) (xs : List A)
    → ((x : A) → p x ≡ true → q x ≡ true → r x ≡ true)
    → all p xs ≡ true
    → all r (keep q xs) ≡ true
all-narrow p q r [] f h = refl
all-narrow p q r (x ∷ xs) f h =
    let rest = all-narrow p q r xs f (&&-right (p x) (all p xs) h) in
    elim (Bool-cases (q x)) [
      | inl e ↦ rw e (&&-both (r x) (all r (keep q xs)) (f x (&&-left (p x) (all p xs) h) e) rest)
      | inr e ↦ rw e rest
    ]

all_mono :
    {A : Type 0} (p q : A → Bool) (xs : List A)
    → ((x : A) → p x ≡ true → q x ≡ true)
    → all p xs ≡ true
    → all q xs ≡ true
all_mono p q [] f h = refl
all_mono p q (x ∷ xs) f h =
    &&-both (q x) (all q xs) (f x (&&-left (p x) (all p xs) h))
      (all_mono p q xs f (&&-right (p x) (all p xs) h))

any-narrow :
    {A : Type 0} (p q : A → Bool) (xs : List A)
    → ((x : A) → p x ≡ true → q x ≡ true)
    → any p xs ≡ true
    → any p (keep q xs) ≡ true
any-narrow p q [] f h = h
any-narrow p q (x ∷ xs) f h = elim (Bool-cases (p x)) [
  | inl e ↦ rw (f x e, e) refl
  | inr e ↦
      let rest = any-narrow p q xs f (rw e at h) in
      elim (Bool-cases (q x)) [ inl t ↦ rw (t, e) rest | inr t ↦ rw t rest ]
]

-- Equal texts are both absent.
absent :
    (a b : String) (dropped : List String)
    → str_eq a b ≡ true
    → not (has b dropped) ≡ true
    → not (has a dropped) ≡ true
absent a b dropped e n = subst (λ x. not (has x dropped) ≡ true) (sym ((eq_iff a b).0 e)) n

has_order-keep :
    (order_id : String) (dropped : List String) (os : List Order)
    → has_order order_id os ≡ true
    → not (has order_id dropped) ≡ true
    → has_order order_id (keep (λ o. not (has o.order_id dropped)) os) ≡ true
has_order-keep order_id dropped os h n =
    any-narrow (λ o. str_eq o.order_id order_id) (λ o. not (has o.order_id dropped)) os
      (λ o e. absent o.order_id order_id dropped e n) h

pub delete_orders-IsLinked :
    (dropped : List String) (s : Session) → IsLinked s → IsLinked (delete_orders dropped s)
delete_orders-IsLinked dropped s l =
    let kept = keep (λ o. not (has o.order_id dropped)) s.orders in
    let paid = keep (λ p. not (has p.order_id dropped)) s.payments in
    record {
      payments_linked =
          all-narrow (λ (p : Payment). has_order p.order_id s.orders)
            (λ p. not (has p.order_id dropped)) (λ p. has_order p.order_id kept) s.payments
            (λ p h n. has_order-keep p.order_id dropped s.orders h n) l.payments_linked;
      refunds_linked =
          all-narrow (λ r. any (pays_refund r) s.payments) (λ r. not (has r.order_id dropped))
            (λ r. any (pays_refund r) paid) s.refunds
            (λ r h n.
              any-narrow (pays_refund r) (λ p. not (has p.order_id dropped)) s.payments
                (λ p e.
                  absent p.order_id r.order_id dropped
                    (&&-right (str_eq p.payment_id r.payment_id) (str_eq p.order_id r.order_id) e)
                    n)
                h)
            l.refunds_linked;
      shipments_linked =
          all-narrow (λ (h : Shipment). has_order h.order_id s.orders)
            (λ h. not (has h.order_id dropped)) (λ h. has_order h.order_id kept) s.shipments
            (λ h o n. has_order-keep h.order_id dropped s.orders o n) l.shipments_linked;
    }

pub delete_payments-IsLinked :
    (manifest_id : String) (d : ℕ) (ids : List String) (s : Session)
    → IsLinked s
    → IsLinked (delete_payments manifest_id d ids s)
delete_payments-IsLinked manifest_id d ids s l =
    let paid = keep (λ p. not (has p.payment_id ids)) s.payments in
    record {
      payments_linked =
          all-narrow (λ (p : Payment). has_order p.order_id s.orders)
            (λ p. not (has p.payment_id ids)) (λ p. has_order p.order_id s.orders) s.payments
            (λ p h n. h) l.payments_linked;
      refunds_linked =
          all-narrow (λ r. any (pays_refund r) s.payments) (λ r. not (has r.payment_id ids))
            (λ r. any (pays_refund r) paid) s.refunds
            (λ r h n.
              any-narrow (pays_refund r) (λ p. not (has p.payment_id ids)) s.payments
                (λ p e.
                  absent p.payment_id r.payment_id ids
                    (&&-left (str_eq p.payment_id r.payment_id) (str_eq p.order_id r.order_id) e) n)
                h)
            l.refunds_linked;
      shipments_linked = l.shipments_linked;
    }

-- Orders that keep their ids.
has_order-map :
    (order_id : String) (f : Order → Order) (os : List Order)
    → ((o : Order) → (f o).order_id ≡ o.order_id)
    → has_order order_id (map f os) ≡ has_order order_id os
has_order-map order_id f [] h = refl
has_order-map order_id f (o ∷ os) h = rw (h o, has_order-map order_id f os h) refl

shift_order-id :
    (s : Session) (d offset : ℕ) (region : String) (o : Order)
    → (shift_order s d offset region o).order_id ≡ o.order_id
shift_order-id s d offset region o = elim (Bool-cases (is_shifted s d region o)) [
  | inl e ↦ rw e refl
  | inr e ↦ rw e refl
]

pub shift_orders-IsLinked :
    (d offset : ℕ) (region : String) (s : Session)
    → IsLinked s
    → IsLinked (shift_orders d offset region s)
shift_orders-IsLinked d offset region s l =
    let moved = map (shift_order s d offset region) s.orders in
    let same = λ (order_id : String).
      has_order-map order_id (shift_order s d offset region) s.orders
        (shift_order-id s d offset region) in
    record {
      payments_linked =
          all_mono (λ (p : Payment). has_order p.order_id s.orders)
            (λ p. has_order p.order_id moved) s.payments (λ p h. same p.order_id ∙ h)
            l.payments_linked;
      refunds_linked = l.refunds_linked;
      shipments_linked =
          all_mono (λ (h : Shipment). has_order h.order_id s.orders)
            (λ h. has_order h.order_id moved) s.shipments (λ h e. same h.order_id ∙ e)
            l.shipments_linked;
    }

payment_with-linked :
    (payment_id : String) (ps : List Payment) (os : List Order) (p : Payment)
    → payment_with payment_id ps ≡ some p
    → all (λ p. has_order p.order_id os) ps ≡ true
    → has_order p.order_id os ≡ true
payment_with-linked payment_id [] os p h l = cc
payment_with-linked payment_id (q ∷ ps) os p h l =
    elim (Bool-cases (str_eq q.payment_id payment_id)) [
      | inl e ↦
          let found : some q ≡ some p = rw e at h in
          let same : q ≡ p = cc in
          subst (λ (p : Payment). has_order p.order_id os ≡ true) same
            (&&-left (has_order q.order_id os) (all (λ p. has_order p.order_id os) ps) l)
      | inr e ↦
          payment_with-linked payment_id ps os p (rw e at h)
            (&&-right (has_order q.order_id os) (all (λ p. has_order p.order_id os) ps) l)
    ]

pub add_duplicate-IsLinked :
    (payment_id : String) (s : Session) (p : Payment)
    → payment_with payment_id s.payments ≡ some p
    → IsLinked s
    → IsLinked (add_duplicate p s)
add_duplicate-IsLinked payment_id s p f l = record {
  payments_linked =
      all-append (λ p. has_order p.order_id s.orders) s.payments (duplicate_of p ∷ [])
      ∙ &&-both (all (λ p. has_order p.order_id s.orders) s.payments)
          (has_order p.order_id s.orders && true) l.payments_linked
          (&&-both (has_order p.order_id s.orders) true
            (payment_with-linked payment_id s.payments s.orders p f l.payments_linked) refl);
  refunds_linked =
      all_mono (λ r. any (pays_refund r) s.payments)
        (λ r. any (pays_refund r) (s.payments ++ duplicate_of p ∷ [])) s.refunds
        (λ r h. rw (any-append (pays_refund r) s.payments (duplicate_of p ∷ []), h) refl)
        l.refunds_linked;
  shipments_linked = l.shipments_linked;
}

-- ===== src/Incidents/Injected/Mappings.antt =====
-- The customers without a mapping that `MissingCustomerMappingInjector` makes are found by
-- `MissingCustomerMappingDetector`.
use lineageiq.Common.{
  ℕ, ◌≤◌, Bool, true, String, str_eq, eq_iff, eq_refl, has, none, List, [], ◌∷◌, map, keep, any,
  all, length, ◌≡◌, refl, ap, ◌∙◌, arith, Bool-cases, inl, inr, &&-left, &&-right, if◌then◌else◌,
}
use lineageiq.Effects.{ok}
use lineageiq.Database.{Session, Customer}
use lineageiq.Detection.Controls.{missing_mappings, is_unmapped}
use lineageiq.Incidents.{IncidentManifest}
use lineageiq.Incidents.Injectors.{order_dates, add_log}
use lineageiq.Incidents.Injectors.Params.{texts_param}
use lineageiq.Incidents.Injectors.Customers.{
  apply_mapping, unmap, unmap_all, log_mapping, mapping_log,
}

abbrev pub unmap_in : List String → Customer → Customer
unmap_in ids c = if has c.customer_id ids then record c { crm_customer_id = none } else c

abbrev pub is_customer : List Customer → String → Bool
is_customer cs customer_id = any (λ c. str_eq c.customer_id customer_id) cs

unmap_in-unmap :
    (customer_id : String) (ids : List String) (c : Customer)
    → unmap_in ids (unmap customer_id c) ≡ unmap_in (customer_id ∷ ids) c
unmap_in-unmap customer_id ids c = elim (Bool-cases (str_eq c.customer_id customer_id)) [
  | inl e ↦ elim (Bool-cases (has c.customer_id ids)) [
    | inl h ↦ rw (e, h) refl
    | inr h ↦ rw (e, h) refl
  ]
  | inr e ↦ rw e refl
]

map-unmap :
    (customer_id : String) (ids : List String) (cs : List Customer)
    → map (unmap_in ids) (map (unmap customer_id) cs) ≡ map (unmap_in (customer_id ∷ ids)) cs
map-unmap customer_id ids [] = refl
map-unmap customer_id ids (c ∷ cs) =
    rw (unmap_in-unmap customer_id ids c, map-unmap customer_id ids cs) refl

is_customer-unmap :
    (customer_id i : String) (cs : List Customer)
    → is_customer (map (unmap customer_id) cs) i ≡ is_customer cs i
is_customer-unmap customer_id i [] = refl
is_customer-unmap customer_id i (c ∷ cs) = elim (Bool-cases (str_eq c.customer_id customer_id)) [
  | inl e ↦ rw (e, is_customer-unmap customer_id i cs) refl
  | inr e ↦ rw (e, is_customer-unmap customer_id i cs) refl
]

all-is_customer-unmap :
    (customer_id : String) (ids : List String) (cs : List Customer)
    → all (is_customer (map (unmap customer_id) cs)) ids ≡ all (is_customer cs) ids
all-is_customer-unmap customer_id [] cs = refl
all-is_customer-unmap customer_id (i ∷ ids) cs =
    rw (is_customer-unmap customer_id i cs, all-is_customer-unmap customer_id ids cs) refl

map-unmap_in_nil : (cs : List Customer) → map (unmap_in []) cs ≡ cs
map-unmap_in_nil [] = refl
map-unmap_in_nil (c ∷ cs) = ap (λ cs. c ∷ cs) (map-unmap_in_nil cs)

unmap_all_lem :
    (ids : List String) (s : Session)
    → all (is_customer s.customers) ids ≡ true
    → unmap_all ids s ≡ (ok tt, record s { customers = map (unmap_in ids) s.customers })
unfolding unmap_all
unmap_all_lem [] s h = rw (map-unmap_in_nil s.customers) refl
unmap_all_lem (customer_id ∷ ids) s h =
    let known =
      &&-left (is_customer s.customers customer_id) (all (is_customer s.customers) ids) h in
    let rest =
      &&-right (is_customer s.customers customer_id) (all (is_customer s.customers) ids) h in
    rw (known, unmap_all)
      (unmap_all_lem ids (record s { customers = map (unmap customer_id) s.customers })
          (all-is_customer-unmap customer_id ids s.customers ∙ rest)
        ∙ rw (map-unmap customer_id ids s.customers) refl)

has_unmapped :
    (ids : List String) (cs : List Customer) (i : String)
    → has i ids ≡ true
    → is_customer cs i ≡ true
    → 1 ≤ length (keep is_unmapped (map (unmap_in ids) cs))
has_unmapped ids [] i h e = cc
has_unmapped ids (c ∷ cs) i h e = elim (Bool-cases (str_eq c.customer_id i)) [
  | inl q ↦
      let named : has c.customer_id ids ≡ true =
        ap (λ x. has x ids) ((eq_iff c.customer_id i).0 q) ∙ h in
      rw named (omega arith)
  | inr q ↦
      let rest = has_unmapped ids cs i h (rw q at e) in
      elim (Bool-cases (is_unmapped (unmap_in ids c))) [
        | inl u ↦ rw u (omega arith)
        | inr u ↦ rw u rest
      ]
]

length-missing_mappings :
    (s : Session) → 1 ≤ length (keep is_unmapped s.customers) → length (missing_mappings s) ≡ 1
unfolding missing_mappings
length-missing_mappings s h = ground arith

apply_mapping_lem :
    (manifest : IncidentManifest) (s : Session) (ids : List String) (d : ℕ) (ds : List ℕ)
    → texts_param "customer_ids" manifest.params ≡ ok ids
    → all (is_customer s.customers) ids ≡ true
    → order_dates s ≡ d ∷ ds
    → apply_mapping manifest s ≡ (
      ok ids,
      add_log
          (mapping_log manifest.manifest_id ids d)
          (record s { customers = map (unmap_in ids) s.customers }),
    )
unfolding apply_mapping
apply_mapping_lem manifest s ids d ds e k o =
    rw e
      (ap (λ r. log_mapping manifest.manifest_id ids r.0 r.1) (unmap_all_lem ids s k) ∙ rw o refl)

-- When the manifest names stored customers, at least one, and there is an order, the injection
-- succeeds, exactly the named customers lose their mapping, and the control then alerts once.
pub apply_mapping-missing :
    (manifest : IncidentManifest) (s : Session) (i : String) (ids : List String) (d : ℕ)
    (ds : List ℕ)
    → texts_param "customer_ids" manifest.params ≡ ok (i ∷ ids)
    → all (is_customer s.customers) (i ∷ ids) ≡ true
    → order_dates s ≡ d ∷ ds
    → ((apply_mapping manifest s).0 ≡ ok (i ∷ ids))
      × ((apply_mapping manifest s).1.customers ≡ map (unmap_in (i ∷ ids)) s.customers)
      × (length (missing_mappings (apply_mapping manifest s).1) ≡ 1)
apply_mapping-missing manifest s i ids d ds e k o =
    let done_all = apply_mapping_lem manifest s (i ∷ ids) d ds e k o in
    rw done_all (
      refl,
      refl,
      length-missing_mappings
          (add_log (mapping_log manifest.manifest_id (i ∷ ids) d)
            (record s { customers = map (unmap_in (i ∷ ids)) s.customers }))
          (has_unmapped (i ∷ ids) s.customers i (ground (arith, eq_refl i))
            (&&-left (is_customer s.customers i) (all (is_customer s.customers) ids) k)),
    )

-- ===== src/Incidents/Injectors.antt =====
-- What the injectors of backend/app/incidents/injectors.py share: seeds, draws, parameters, and
-- `_manifest`. Draws of `random`, the hash, and fractions are functions of a Draws.
pub mod Params
pub mod Payments
pub mod Rates
pub mod Customers
pub mod Schemas
pub mod Delays
pub mod Timezones
pub mod Nulls
pub mod Loads
pub mod Aggregates
pub mod Outages
pub mod Registry
use lineageiq.Common.{
  ℕ, zero, suc, ◌+◌, ◌-◌, ◌*◌, String, Bool, true, false, Option, none, some, List, [], ◌∷◌, ◌++◌,
  concat, join, show, take, length, get_elem?, ltb, ◌≡◌, refl, if◌then◌else◌,
}
use lineageiq.Taxonomy.{IncidentType, Severity, incident_type_value, root_cause_for}
use lineageiq.Effects.{Result, ok, raised, Exec, other_error, value_error}
use lineageiq.Database.{Session, Payload, SystemLog, Value}
use lineageiq.Detection.Controls.Days.{days_of, order_days}
use lineageiq.Incidents.{IncidentManifest}

pub record Draws : Type 0 where
  -- `int.from_bytes(hashlib.sha256(text.encode()).digest()[:8], "big")`
  pub hash : String → ℕ
  -- the position that the k-th `choice` of `random.Random(seed)` takes of n
  pub choice : ℕ → ℕ → ℕ → ℕ
  -- the positions that `random.Random(seed).sample` takes first, k of n
  pub sample : ℕ → ℕ → ℕ → List ℕ
  -- `random.Random(seed).shuffle(xs)`
  pub shuffle : ℕ → List String → List String
  -- `int(n * float(value))`
  pub scaled : ℕ → Value → ℕ

-- `stable_seed(*parts)`, of the parts' texts
abbrev pub stable_seed : Draws → List String → ℕ
stable_seed draws parts = draws.hash (join "::" parts)

-- The seed of `rng(seed, index)`.
abbrev pub rng_seed : Draws → IncidentType → ℕ → ℕ → ℕ
rng_seed draws kind seed index =
    stable_seed draws (show seed ∷ incident_type_value kind ∷ show index ∷ [])

module _ {ℓ} {A : Type ℓ} where
  -- `rng.choice(xs)` as the k-th draw; `random` raises an IndexError for no elements.
  abbrev pub choose : Draws → ℕ → ℕ → List A → Result A
  choose draws seed k xs = elim (get_elem? xs (draws.choice seed k (length xs))) [
    | none ↦ raised (other_error "Cannot choose from an empty sequence")
    | some x ↦ ok x
  ]

  abbrev pub elements_at : List A → List ℕ → List A
  elements_at xs [] = []
  elements_at xs (i ∷ is) = elim (get_elem? xs i) [
    | none ↦ elements_at xs is
    | some x ↦ x ∷ elements_at xs is
  ]

  -- `rng.sample(xs, k)`
  abbrev pub sample_of : Draws → ℕ → List A → ℕ → Result (List A)
  sample_of draws seed xs k =
      if ltb (length xs) k
      then raised (value_error "Sample larger than population or is negative")
      else ok (elements_at xs (draws.sample seed (length xs) k))

  abbrev pub drop : ℕ → List A → List A
  drop zero xs = xs
  drop (suc n) [] = []
  drop (suc n) (x ∷ xs) = drop n xs

  -- `xs[5:-5]`
  abbrev pub inner : List A → List A
  inner xs = drop 5 (take (length xs - 5) xs)

-- `_order_dates`
abbrev pub order_dates : Session → List ℕ
order_dates s = days_of (order_days s)

-- `_utc(d, hour)`
abbrev pub utc : ℕ → ℕ → ℕ
utc d hour = d * 86_400_000_000 + hour * 3_600_000_000

-- `f"{i:02d}"` and `f"{i:03d}"`
abbrev pub two_digits : ℕ → String
two_digits i = if ltb i 10 then concat ("0" ∷ show i ∷ []) else show i

abbrev pub three_digits : ℕ → String
three_digits i = if ltb i 100 then concat ("0" ∷ two_digits i ∷ []) else show i

abbrev pub manifest_id_of : IncidentType → ℕ → String
manifest_id_of kind index = concat (incident_type_value kind ∷ "-" ∷ two_digits (index + 1) ∷ [])

-- The keyword arguments of `_manifest` but the index and the seed.
pub record Story : Type 0 where
  pub title : String
  pub params : Payload
  pub changed_tables : List String
  pub affected_pipeline : Option String
  pub expected_symptoms : List String
  pub root_cause_description : String
  pub expected_affected_systems : List String
  pub expected_affected_reports : List String
  pub expected_evidence : List String
  pub expected_remediation : String
  pub severity : Severity

-- `severity in (Severity.HIGH, Severity.CRITICAL)`
abbrev pub is_serious : Severity → Bool
is_serious Severity.high = true
is_serious Severity.critical = true
is_serious _ = false

unfoldable pub manifest_of : IncidentType → ℕ → ℕ → Story → IncidentManifest
unfolding root_cause_for
manifest_of kind index seed story = record {
  manifest_id = manifest_id_of kind index;
  incident_type = kind;
  root_cause_code = root_cause_for kind;
  seed = seed;
  index = index;
  title = story.title;
  params = story.params;
  changed_tables = story.changed_tables;
  affected_pipeline = story.affected_pipeline;
  expected_symptoms = story.expected_symptoms;
  root_cause_description = story.root_cause_description;
  expected_affected_systems = story.expected_affected_systems;
  expected_affected_reports = story.expected_affected_reports;
  expected_evidence = story.expected_evidence;
  expected_remediation = story.expected_remediation;
  severity = story.severity;
  should_escalate = is_serious story.severity;
  changed_record_ids = [];
  injected_at = none;
}

-- An injector: `plan` with the session, the seed and the index, and `apply`.
pub record Injector : Type 0 where
  pub incident_type : IncidentType
  pub plan : Session → ℕ → ℕ → Result IncidentManifest
  pub apply : IncidentManifest → Exec Session (List String)

module _ {ℓ} {A B : Type ℓ} where
  infixl 5 ◌>>=◌
  abbrev pub ◌>>=◌ : Result A → (A → Result B) → Result B
  ok a >>= f = f a
  raised e >>= f = raised e

-- An `apply` whose checks stand before its first change: the changed ids and the session after it.
abbrev pub finish : Session → Result (List String × Session) → Result (List String) × Session
finish s (raised e) = (raised e, s)
finish s (ok (ids, after)) = (ok ids, after)

abbrev pub add_log : SystemLog → Session → Session
add_log row s = record s { system_logs = s.system_logs ++ row ∷ [] }

-- A property of the value, where there is one.
abbrev pub Gives {ℓ κ} : {A : Type ℓ} → (A → Type κ) → Result A → Type κ
Gives P (ok a) = P a
Gives P (raised e) = Unit

pub bind-Gives {ℓ κ} :
    {A B : Type ℓ} (P : B → Type κ) (m : Result A) (f : A → Result B)
    → ((a : A) → m ≡ ok a → Gives P (f a))
    → Gives P (m >>= f)
bind-Gives P (ok a) f h = h a refl
bind-Gives P (raised e) f h = tt

pub finish-rule :
    (P : Session → Type 0) (s : Session) (r : Result (List String × Session))
    → P s
    → Gives (λ a. P a.1) r
    → P (finish s r).1
finish-rule P s (raised e) h g = h
finish-rule P s (ok (ids, after)) h g = g

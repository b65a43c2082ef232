-- ===== src/Incidents/Injectors/Params.antt =====
-- How the injectors of backend/app/incidents/injectors.py read the parameters of a manifest.
use lineageiq.Common.{ℕ, String, List, none, some, if◌then◌else◌}
use lineageiq.Effects.{Result, ok, raised, key_error, value_error, other_error}
use lineageiq.Database.{Payload, Value, boolean, int, text, texts, payload_get, value_text}
use lineageiq.Environment.{Env}

-- `params[key]`
abbrev pub param : String → Payload → Result Value
param key p = elim (payload_get key p) [ none ↦ raised (key_error key) | some v ↦ ok v ]

-- `params[key]` as a text, which the plans give there.
abbrev pub text_param : String → Payload → Result String
text_param key p = elim (payload_get key p) [
  | none ↦ raised (key_error key)
  | some v ↦ ok (value_text v)
]

-- `_as_date(params[key])`, where no JSON value is a date
abbrev pub date_param : Env → String → Payload → Result ℕ
date_param env key p = elim (payload_get key p) [
  | none ↦ raised (key_error key)
  | some v ↦ elim (env.fromisoformat (value_text v)) [
    | none ↦ raised (value_error "Invalid isoformat string")
    | some d ↦ ok d
  ]
]

abbrev int_of_value : Env → Value → Result ℕ
int_of_value env (int n) = ok n
int_of_value env (boolean b) = ok (if b then 1 else 0)
int_of_value env (text s) = elim (env.int_of s) [
  | none ↦ raised (value_error "invalid literal for int() with base 10")
  | some n ↦ ok n
]
int_of_value env _ =
    raised (other_error "int() argument must be a string, a bytes-like object or a real number")

-- `int(params[key])`
abbrev pub int_param : Env → String → Payload → Result ℕ
int_param env key p = elim (payload_get key p) [
  | none ↦ raised (key_error key)
  | some v ↦ int_of_value env v
]

-- A list of texts, which the plans give there.
abbrev pub texts_param : String → Payload → Result (List String)
texts_param key p = elim (payload_get key p) [
  | none ↦ raised (key_error key)
  | some v ↦ elim v [ texts ids ↦ ok ids | _ ↦ raised (other_error "object is not iterable") ]
]

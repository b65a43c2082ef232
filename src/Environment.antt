-- ===== src/Environment.antt =====
-- What a run draws from outside the program: the clock, `uuid4()`, and the standard library's
-- texts of dates and of fractions. The n-th draw is a function of n, and the world counts draws.
use lineageiq.Common.{ℕ, ℤ, suc, String, Option, [], ◌∷◌, concat, take_text}
use lineageiq.Effects.{ok, Exec}
use lineageiq.Database.{Session}

pub record Env : Type 0 where
  -- the text of the n-th `uuid4().hex`
  pub uuid_hex : ℕ → String
  -- the n-th reading of `datetime.now(timezone.utc)`
  pub clock : ℕ → ℕ
  -- `f"{x:.2f}"` of x ten-thousandths
  pub fixed2 : ℕ → String
  -- `str(d)` of an amount of ten-thousandths
  pub money_text : ℤ → String
  -- `int(s)`, where `none` is the ValueError
  pub int_of : String → Option ℕ
  -- `datetime.fromisoformat(s)`, where `none` is the ValueError
  pub datetime_of : String → Option ℕ
  -- `f"{x:.1f}"` of a duration in hours, given in microseconds
  pub hours_text : ℤ → String
  -- `t.isoformat()` of a datetime
  pub time_text : ℕ → String
  -- `f"{d:%Y%m%d}"`
  pub compact_date : ℕ → String
  -- `d.isoformat()`, and `date.fromisoformat`, where `none` is the ValueError
  pub isoformat : ℕ → String
  pub fromisoformat : String → Option ℕ

pub record World : Type 0 where
  pub session : Session
  pub uuids : ℕ
  pub readings : ℕ

-- `_now()`
abbrev pub now : Env → Exec World ℕ
now env w = (ok (env.clock w.readings), record w { readings = suc w.readings })

-- `f"{prefix}-{uuid.uuid4().hex[:n]}"`
abbrev pub fresh_id : Env → String → ℕ → Exec World String
fresh_id env prefix n w = (
  ok (concat (prefix ∷ "-" ∷ take_text n (env.uuid_hex w.uuids) ∷ [])),
  record w { uuids = suc w.uuids },
)

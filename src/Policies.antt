-- ===== src/Policies.antt =====
-- engine/sdk/policies.py: retry policies. Intervals are in microseconds, the coefficient is a float.
use durable_workflow_engine.Json.{Fields, float_is_negative, field, int, float, null, end}
use durable_workflow_engine.Platform.{Platform}
use durable_workflow_engine.Base.{
  ℕ, Option, none, Bool, Result, ltb, String, ◌||◌, if◌then◌else◌, leb, true, err, ◌&&◌, false,
  some, ok,
}
use durable_workflow_engine.Base.Int.{ℤ, pos, negsuc}

pub record RetryPolicy : Type 0 where
  pub max_attempts : ℤ
  pub initial_interval : ℤ
  pub backoff_coefficient : ℕ
  pub maximum_interval : Option ℤ

-- `RetryPolicy()`; 2.0 is 0x4000000000000000.
abbrev pub default_policy : RetryPolicy
default_policy = record {
  max_attempts = pos 1;
  initial_interval = pos 1000000;
  backoff_coefficient = 0x4000000000000000;
  maximum_interval = none;
}

-- `coefficient < 1`, false of NaN.
unfoldable pub float_below_one : ℕ → Bool
float_below_one b =
    ltb b 0x3ff0000000000000 || (leb 0x8000000000000000 b && leb b 0xfff0000000000000)

abbrev below_one : ℤ → Bool
below_one (pos n) = ltb n 1
below_one (negsuc n) = true

module _ (p : Platform) where
  abbrev seconds_negative : ℤ → Bool
  seconds_negative d = float_is_negative (p.total_seconds d)

  -- `__post_init__`: `RetryPolicy(...)`, or the message of its ValueError.
  unfoldable pub post_init : RetryPolicy → Result String RetryPolicy
  post_init r =
      if below_one r.max_attempts
      then err "max_attempts must be at least 1"
      else if seconds_negative r.initial_interval
      then err "initial_interval cannot be negative"
      else if float_below_one r.backoff_coefficient
      then err "backoff_coefficient must be at least 1"
      else if elim r.maximum_interval [ none ↦ false | some d ↦ seconds_negative d ]
      then err "maximum_interval cannot be negative"
      else ok r

  unfoldable pub to_json : RetryPolicy → Fields
  to_json r = field "max_attempts" (int r.max_attempts) (
      field "initial_interval_seconds" (float (p.total_seconds r.initial_interval)) (
        field "backoff_coefficient" (float r.backoff_coefficient) (
          field "maximum_interval_seconds"
            (elim r.maximum_interval [ none ↦ null | some d ↦ float (p.total_seconds d) ]) end)))

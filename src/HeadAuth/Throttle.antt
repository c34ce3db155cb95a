-- ===== src/HeadAuth/Throttle.antt =====
-- services/head_auth.py: `LoginThrottle`. Readings of the monotonic clock and `reset_after` are
-- counted in one unit of time, delays in seconds. The body under the lock is one step; the sleep
-- after it is the returned delay.
pub mod Delays
use cozy_nm.Base.{
  ℕ, ◌+◌, ◌-◌, ◌^◌, String, Option, none, some, min, leb, ltb, if◌then◌else◌, Result, ok, err, Exec,
}
use cozy_nm.Base.Dicts.{Dict, get, assign, discard}

pub data ThrottleError : Type 0 where
  overflow_error : ThrottleError

-- client key ↦ (count, time of the last failure)
abbrev pub Failures : Type 0
Failures = Dict (ℕ × ℕ)

pub record LoginThrottle : Type 0 where
  pub max_delay_seconds : ℕ
  pub reset_after : ℕ

-- `float(2 ** e)`: the double that stands for the power, or `OverflowError` from 2 ** 1024 on
unfoldable pub float_pow2 : ℕ → Result ThrottleError ℕ
float_pow2 e = if leb 1024 e then err ThrottleError.overflow_error else ok (2 ^ e)

-- the count that a failure at `now` is given
unfoldable pub next_count : LoginThrottle → ℕ → Option (ℕ × ℕ) → ℕ
next_count throttle now none = 1
next_count throttle now (some (count, previous)) =
    (if ltb (throttle.reset_after + previous) now then 0 else count) + 1

-- `min(float(2 ** (count - 1)), self.max_delay_seconds)`
unfoldable pub delay_of : LoginThrottle → ℕ → Result ThrottleError ℕ
delay_of throttle count = elim (float_pow2 (count - 1)) [
  | ok seconds ↦ ok (min seconds throttle.max_delay_seconds)
  | err e ↦ err e
]

-- `failed`: the count is stored before the delay is computed
unfoldable pub failed : LoginThrottle → String → ℕ → Exec Failures ThrottleError ℕ
failed throttle key now failures =
    let count = next_count throttle now (get key failures) in
    (delay_of throttle count, assign key (count, now) failures)

unfoldable pub succeeded : String → Failures → Failures
succeeded key failures = discard key failures

-- ===== src/Reliability/Retry.antt =====
-- `RetryPolicy` and `_do_retry` of framework/reliability/retry.py. Times are in milliseconds, and the
-- multiplier is a whole number.
mod Attempts
mod Examples
use native.Mathlib.Omega.{arith}
use django_project_test.Base.{
  none, zero, ◌∷◌, ◌&&◌, ◌+◌, ◌||◌, ltb, suc, some, leb, ◌-◌, [], false, if◌then◌else◌, ◌^◌, List,
  min, ◌*◌, Bool, Option, ℕ,
}

pub data Backoff : Type 0 where
  linear : Backoff
  exponential : Backoff
  constant : Backoff
  other : Backoff

pub record RetryPolicy : Type 0 where
  pub max_attempts : ℕ
  pub backoff : Backoff
  pub initial_delay : ℕ
  pub max_delay : ℕ
  pub multiplier : ℕ
  pub jitter : Bool
  pub max_total_time : Option ℕ

abbrev pub raw_delay : Backoff → ℕ → ℕ → ℕ → ℕ
raw_delay constant initial multiplier attempt = initial
raw_delay linear initial multiplier attempt = initial * attempt
raw_delay exponential initial multiplier attempt = initial * multiplier ^ (attempt - 1)
raw_delay other initial multiplier attempt = initial

-- `uniform` is what `random.uniform(0, delay)` gives.
unfoldable pub compute_delay : RetryPolicy → (ℕ → ℕ) → ℕ → ℕ
compute_delay p uniform attempt =
    let delay = min (raw_delay p.backoff p.initial_delay p.multiplier attempt) p.max_delay in
    if p.jitter then uniform delay else delay

-- How a call of the function ends: an exception of `give_up_on`, of `retry_on`, or another one.
pub data Outcome (A E : Type 0) : Type 0 where
  returned : A → Outcome A E
  gave_up : E → Outcome A E
  failed : E → Outcome A E
  uncaught : E → Outcome A E

-- `nothing`: the loop ends without a call, and the wrapper returns None.
pub data Result (A E : Type 0) : Type 0 where
  value : A → Result A E
  raised : E → Result A E
  nothing : Result A E

-- `policy.max_total_time and elapsed >= policy.max_total_time`
unfoldable pub over_time : Option ℕ → ℕ → Bool
over_time none elapsed = false
over_time (some total) elapsed = ltb 0 total && leb total elapsed

module _ {A E : Type 0} (p : RetryPolicy) (uniform : ℕ → ℕ) where
  -- What one attempt does with its outcome; `rest` is the rest of the loop.
  unfoldable pub after_attempt : ℕ → ℕ → Outcome A E → Result A E × List ℕ → Result A E × List ℕ
  after_attempt attempt elapsed (returned a) rest = (value a, [])
  after_attempt attempt elapsed (gave_up e) rest = (raised e, [])
  after_attempt attempt elapsed (uncaught e) rest = (raised e, [])
  after_attempt attempt elapsed (failed e) rest =
      if leb p.max_attempts attempt || over_time p.max_total_time elapsed
      then (raised e, [])
      else (rest.0, compute_delay p uniform attempt ∷ rest.1)

  -- The loop from an attempt on, with the attempts that are left: `call` gives the outcome of each
  -- attempt, `elapsed` the time since the start after it. The delays slept are the second component.
  unfoldable pub loop : (ℕ → Outcome A E) → (ℕ → ℕ) → ℕ → ℕ → Result A E × List ℕ
  loop call elapsed zero attempt = (nothing, [])
  loop call elapsed (suc left) attempt =
      after_attempt attempt (elapsed attempt) (call attempt) (loop call elapsed left (attempt + 1))

  unfoldable pub do_retry : (ℕ → Outcome A E) → (ℕ → ℕ) → Result A E × List ℕ
  do_retry call elapsed = loop call elapsed p.max_attempts 1

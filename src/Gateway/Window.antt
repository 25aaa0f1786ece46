-- ===== src/Gateway/Window.antt =====
-- `check_sliding_window` of framework/gateway/throttle.py. Redis is the interface `Redis`; times are
-- in microseconds, limits in calls and windows in seconds.
use django_project_test.Base.{
  ◌||◌, length, none, not, ◌/◌, ◌&&◌, leb, ◌+◌, ◌≡◌, ◌*◌, if◌then◌else◌, max, count, some, ◌-◌,
  false, true, List, Option, Bool, ℕ, String,
}

-- The calls of the Redis client. `zrange` gives the smallest score of the key.
pub record Redis : Type 1 where
  pub State : Type 0
  pub zremrangebyscore : State → String → ℕ → ℕ → State
  pub zcard : State → String → ℕ
  pub zrange : State → String → Option ℕ
  pub zadd : State → String → String → ℕ → State
  pub expire : State → String → ℕ → State

-- What the documentation of the sorted-set commands says, for a view of the members and scores.
pub record IsSortedSet (r : Redis) (scores : r.State → String → List ℕ)
    (has : r.State → String → String → Bool) : Type 0 where
  pub purged :
      (s : r.State) (key : String) (low high : ℕ) (p : ℕ → Bool)
      → count p (scores (r.zremrangebyscore s key low high) key)
        ≡ count (λ x. p x && not (leb low x && leb x high)) (scores s key)
  pub purged_members :
      (s : r.State) (key : String) (low high : ℕ) (member : String)
      → has s key member ≡ false
      → has (r.zremrangebyscore s key low high) key member ≡ false
  pub card : (s : r.State) (key : String) → r.zcard s key ≡ length (scores s key)
  pub added :
      (s : r.State) (key member : String) (score : ℕ) (p : ℕ → Bool)
      → has s key member ≡ false
      → count p (scores (r.zadd s key member score) key)
        ≡ (if p score then count p (scores s key) + 1 else count p (scores s key))
  pub expire_kept :
      (s : r.State) (key : String) (seconds : ℕ)
      → scores (r.expire s key seconds) key ≡ scores s key

-- Which of the client's calls raise an exception.
pub record Raises : Type 0 where
  pub ping : Bool
  pub pipeline : Bool
  pub count_call : Bool
  pub range : Bool
  pub add : Bool
  pub expire_call : Bool

-- No call of the client raises.
abbrev pub sound : Raises
sound = record {
  ping = false;
  pipeline = false;
  count_call = false;
  range = false;
  add = false;
  expire_call = false;
}

abbrev pub second : ℕ
second = 1000000

pub record Verdict : Type 0 where
  pub allowed : Bool
  pub remaining : ℕ
  pub reset_in : ℕ

module _ (r : Redis) where
  -- `int(earliest + window - now)`, at least 1
  unfoldable pub reset_after : Option ℕ → ℕ → ℕ → ℕ
  reset_after none now window = window
  reset_after (some earliest) now window = max 1 ((earliest + window * second - now) / second)

  unfoldable pub let_pass : ℕ → ℕ → Verdict
  let_pass limit window = record { allowed = true; remaining = limit; reset_in = window }

  unfoldable pub reject : ℕ → Verdict
  reject reset = record { allowed = false; remaining = 0; reset_in = reset }

  -- The part after the pipeline, on its state.
  unfoldable pub decide : String → ℕ → ℕ → ℕ → String → Raises → r.State → Verdict × r.State
  unfolding let_pass reject
  decide key limit window now member raises s =
      let current = r.zcard s key in
      let s' = r.zadd s key member now in
      if raises.count_call
      then (let_pass limit window, s)
      else if leb limit current
      then (if raises.range
          then (let_pass limit window, s)
          else (reject (reset_after (r.zrange s key) now window), s))
      else if raises.add
      then (let_pass limit window, s)
      else if raises.expire_call
      then (let_pass limit window, s')
      else (
        record { allowed = true; remaining = limit - current - 1; reset_in = window },
        r.expire s' key (window * 2),
      )

  unfoldable pub check_sliding_window :
      String → ℕ → ℕ → ℕ → String → Raises → r.State → Verdict × r.State
  unfolding let_pass
  check_sliding_window key limit window now member raises s =
      if raises.ping || raises.pipeline
      then (let_pass limit window, s)
      else decide key limit window now member raises
          (r.zremrangebyscore s key 0 (now - window * second))

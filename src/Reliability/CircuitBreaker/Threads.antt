-- ===== src/Reliability/CircuitBreaker/Threads.antt =====
-- Many threads call one breaker. A call first increases `total_calls` outside the breaker's lock, in two
-- steps, then asks to enter under the lock, and settles under it if it was let through; time need not
-- even move forward.
use django_project_test.Reliability.CircuitBreaker.{
  value_numeric, key_eq, state_eq, settle, unexpected, expected, returned, get_state, initial,
  set_state, CircuitBreakerState, Config, Outcome, CircuitBreaker, try_enter,
}
use django_project_test.Base.{
  suc, true, arith, ◌+◌, false, length, ◌≡◌, ℕ, ◌∷◌, ◌++◌, ◌<◌, ◌-◌, List,
}
use django_project_test.Reliability.CircuitBreaker.Trace.{AllEdges}
use django_project_test.Reliability.Counter.{store_value, Behind, zero_counter, load_value, Counter}

-- The breaker, whose `total_calls` is the value of a counter without a lock; the calls that have counted
-- and not entered yet, those that entered, those that are running, and those that ended by an exception
-- that is not in `expected_exceptions`.
pub record System : Type 0 where
  pub breaker : CircuitBreaker
  pub total : Counter
  pub counted : ℕ
  pub entered : ℕ
  pub running : ℕ
  pub uncounted : ℕ

abbrev pub uncounted_by : {A E : Type 0} → Outcome A E → ℕ
uncounted_by (returned a) = 0
uncounted_by (expected e) = 0
uncounted_by (unexpected e) = 1

abbrev with_total : CircuitBreaker → ℕ → CircuitBreaker
with_total cb n = record cb { metrics = record cb.metrics { total_calls = n } }

pub data Step (A E : Type 0) (s : System) : System → Type 0 where
  begins : Step A E s (record s { total = load_value s.total })
  counts :
      (v : ℕ) (before after : List ℕ)
      → s.total.loaded ≡ before ++ v ∷ after
      → Step A E s (record s {
        breaker = with_total s.breaker (v + 1);
        total = store_value v (before ++ after) s.total;
        counted = s.counted + 1;
      })
  refused :
      (now : ℕ)
      → 0 < s.counted
      → (try_enter s.breaker now).0 ≡ false
      → Step A E s (record s {
        breaker = (try_enter s.breaker now).1;
        counted = s.counted - 1;
        entered = s.entered + 1;
      })
  admitted :
      (now : ℕ)
      → 0 < s.counted
      → (try_enter s.breaker now).0 ≡ true
      → Step A E s (record s {
        breaker = (try_enter s.breaker now).1;
        counted = s.counted - 1;
        entered = s.entered + 1;
        running = s.running + 1;
      })
  ended :
      (running : ℕ) (outcome : Outcome A E) (now : ℕ)
      → s.running ≡ suc running
      → Step A E s (record s {
        breaker = settle s.breaker outcome now;
        running = running;
        uncounted = s.uncounted + uncounted_by outcome;
      })

pub data Reach (A E : Type 0) (s : System) : System → Type 0 where
  here : Reach A E s s
  next : {t u : System} → Reach A E s t → Step A E t u → Reach A E s u

abbrev pub start : Config → System
start c = record {
  breaker = initial c;
  total = zero_counter;
  counted = 0;
  entered = 0;
  running = 0;
  uncounted = 0;
}

pub record Inv (s : System) : Type 0 where
  pub edges : AllEdges s.breaker.announced
  pub transitions : s.breaker.metrics.state_transitions ≡ length s.breaker.announced
  pub calls :
      s.entered
      ≡ s.breaker.metrics.total_short_circuited + s.breaker.metrics.total_success
        + s.breaker.metrics.total_failure + s.running + s.uncounted
  pub counting : s.total.stored ≡ s.counted + s.entered
  pub total_shown : s.breaker.metrics.total_calls ≡ s.total.value
  pub total_behind : Behind s.total

-- The counters that the methods leave alone.
abbrev SameCounts : CircuitBreaker → CircuitBreaker → Type 0
SameCounts cb cb' =
    (cb'.metrics.total_calls ≡ cb.metrics.total_calls)
    × (cb'.metrics.total_success ≡ cb.metrics.total_success)
    × (cb'.metrics.total_failure ≡ cb.metrics.total_failure)
    × (cb'.metrics.total_short_circuited ≡ cb.metrics.total_short_circuited)

counts-set_state :
    (cb : CircuitBreaker) (s : CircuitBreakerState) (now : ℕ) → SameCounts cb (set_state cb s now)
unfolding set_state get_state
counts-set_state cb s now = ground arith

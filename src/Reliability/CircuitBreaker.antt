-- ===== src/Reliability/CircuitBreaker.antt =====
-- framework/reliability/circuit_breaker.py: `CircuitBreaker` over the in-memory state store.
-- A method that runs under the breaker's lock reads the clock once (`now`, in milliseconds).
-- The keys `cb:{name}:…` of one breaker are the constructors of `Key`; breakers of other names use
-- other keys. The callback `on_state_change`, whose exceptions are swallowed, is the list
-- `announced` of the calls made of it.
pub mod View
mod Runs
mod Trials
mod Recovery
mod Trace
mod Threads
mod Examples
use django_project_test.Base.{
  ℕ, ◌+◌, ◌*◌, ◌/◌, max, Bool, true, false, Option, none, some, List, [], ◌∷◌, ◌++◌, leb,
  if◌then◌else◌, Eq, ◌==◌,
}
use django_project_test.Base.Dict.{Dict}
use django_project_test.Reliability.StateStore
use django_project_test.Reliability.StateStore.{Entry, Numeric}

pub data CircuitBreakerState : Type 0 where
  closed opened half_open : CircuitBreakerState

CircuitBreakerState-discrete : Discrete CircuitBreakerState
CircuitBreakerState-discrete = hlevel

instance unfoldable pub state_eq : Eq CircuitBreakerState
unfolding CircuitBreakerState-discrete
state_eq = record { dec = CircuitBreakerState-discrete }

pub data Key : Type 0 where
  state_key failure_key success_key opened_at_key : Key

Key-discrete : Discrete Key
Key-discrete = hlevel

instance unfoldable pub key_eq : Eq Key
unfolding Key-discrete
key_eq = record { dec = Key-discrete }

-- What the breaker stores: the name of a state, a count, a time.
pub data Value : Type 0 where
  state : CircuitBreakerState → Value
  number : ℕ → Value
  time : ℕ → Value

-- `int(v)`: the name of a state is no number.
to_int : Value → Option ℕ
to_int (state s) = none
to_int (number n) = some n
to_int (time t) = some (t / 1000)

instance unfoldable pub value_numeric : Numeric Value
unfolding to_int
value_numeric = record { to_int = to_int; of_int = number }

pub record Config : Type 0 where
  pub failure_threshold : ℕ
  pub success_threshold : ℕ
  pub recovery_time : ℕ

pub record Metrics : Type 0 where
  pub total_calls : ℕ
  pub total_success : ℕ
  pub total_failure : ℕ
  pub total_short_circuited : ℕ
  pub state_transitions : ℕ

pub record CircuitBreaker : Type 0 where
  pub config : Config
  pub store : Dict Key (Entry Value)
  pub metrics : Metrics
  pub announced : List (CircuitBreakerState × CircuitBreakerState)

abbrev pub initial : Config → CircuitBreaker
initial c = record {
  config = c;
  store = [];
  metrics = record {
    total_calls = 0;
    total_success = 0;
    total_failure = 0;
    total_short_circuited = 0;
    state_transitions = 0;
  };
  announced = [];
}

-- `max(self.recovery_time * 5, 300)`
abbrev pub state_ttl : Config → ℕ
state_ttl c = max (c.recovery_time * 5) 300

read : CircuitBreaker → Key → ℕ → Option Value × CircuitBreaker
read cb key now =
    let (raw, store) = StateStore.get cb.store key now in (raw, record cb { store = store })

-- A value that is no name of a state counts as CLOSED.
abbrev pub to_state : Option Value → CircuitBreakerState
to_state none = closed
to_state (some (state s)) = s
to_state (some (number n)) = closed
to_state (some (time t)) = closed

pub get_state : CircuitBreaker → ℕ → CircuitBreakerState × CircuitBreaker
unfolding read
get_state cb now = let (raw, cb') = read cb state_key now in (to_state raw, cb')

pub set_state : CircuitBreaker → CircuitBreakerState → ℕ → CircuitBreaker
unfolding get_state
set_state cb new_state now =
    let (old, cb') = get_state cb now in
    if old == new_state then cb' else record cb' {
      store = StateStore.set cb'.store state_key (state new_state) (some (state_ttl cb.config)) now;
      metrics = record cb'.metrics { state_transitions = cb'.metrics.state_transitions + 1 };
      announced = cb'.announced ++ (old, new_state) ∷ [];
    }

-- `self.store.get(self._opened_at_key()) or 0`. No state name is ever stored under this key.
abbrev pub to_time : Option Value → ℕ
to_time none = 0
to_time (some (state s)) = 0
to_time (some (number n)) = n * 1000
to_time (some (time t)) = t

admit : CircuitBreakerState → CircuitBreaker → ℕ → Bool × CircuitBreaker
unfolding read
admit closed cb now = (true, cb)
admit half_open cb now = (true, cb)
admit opened cb now =
    let (raw, cb') = read cb opened_at_key now in
    let half = set_state cb' half_open now in
    if leb (to_time raw + cb.config.recovery_time * 1000) now
    then (
      true,
      record half {
        store =
            StateStore.set half.store success_key (number 0) (some (cb.config.recovery_time * 5))
              now;
      },
    )
    else (false, cb')

pub allow_request : CircuitBreaker → ℕ → Bool × CircuitBreaker
unfolding admit get_state
allow_request cb now = let (s, cb') = get_state cb now in admit s cb' now

-- `_open`
open_circuit : CircuitBreaker → ℕ → CircuitBreaker
open_circuit cb now =
    let stamped = record cb {
      store = StateStore.set cb.store opened_at_key (time now) (some (state_ttl cb.config)) now;
    } in
    set_state stamped opened now

on_success : CircuitBreakerState → CircuitBreaker → ℕ → CircuitBreaker
on_success half_open cb now =
    let (n, store) =
      StateStore.incr cb.store success_key 1 (some (cb.config.recovery_time * 5)) now in
    let counted = record cb { store = store } in
    let done = set_state counted closed now in
    if leb cb.config.success_threshold n
    then record done {
      store = StateStore.delete (StateStore.delete done.store failure_key) success_key;
    }
    else counted
on_success closed cb now = record cb { store = StateStore.delete cb.store failure_key }
on_success opened cb now = cb

pub record_success : CircuitBreaker → ℕ → CircuitBreaker
unfolding on_success get_state
record_success cb now =
    let counted = record cb {
      metrics = record cb.metrics { total_success = cb.metrics.total_success + 1 };
    } in
    let (s, cb') = get_state counted now in on_success s cb' now

on_failure : CircuitBreakerState → CircuitBreaker → ℕ → CircuitBreaker
on_failure half_open cb now = open_circuit cb now
on_failure _ cb now =
    let (n, store) = StateStore.incr cb.store failure_key 1 (some (state_ttl cb.config)) now in
    let counted = record cb { store = store } in
    if leb cb.config.failure_threshold n then open_circuit counted now else counted

pub record_failure : CircuitBreaker → ℕ → CircuitBreaker
unfolding on_failure get_state
record_failure cb now =
    let counted = record cb {
      metrics = record cb.metrics { total_failure = cb.metrics.total_failure + 1 };
    } in
    let (s, cb') = get_state counted now in on_failure s cb' now

-- `self.metrics["total_calls"] += 1`, which stands outside the lock
unfoldable pub count_total : CircuitBreaker → CircuitBreaker
count_total cb = record cb {
  metrics = record cb.metrics { total_calls = cb.metrics.total_calls + 1 };
}

-- The part of `call` under the lock, before the function.
unfoldable pub try_enter : CircuitBreaker → ℕ → Bool × CircuitBreaker
unfolding allow_request
try_enter cb now =
    let (allowed, cb') = allow_request cb now in
    if allowed then (true, cb') else (
      false,
      record cb' {
        metrics = record cb'.metrics {
          total_short_circuited = cb'.metrics.total_short_circuited + 1;
        };
      },
    )

-- Both, where no other thread comes in between.
unfoldable pub enter : CircuitBreaker → ℕ → Bool × CircuitBreaker
unfolding count_total try_enter
enter cb now = try_enter (count_total cb) now

-- How the wrapped function ended: an exception is expected if it is in `expected_exceptions`.
pub data Outcome (A E : Type 0) : Type 0 where
  returned : A → Outcome A E
  expected : E → Outcome A E
  unexpected : E → Outcome A E

-- The part of `call` after the function has run.
pub settle : {A E : Type 0} → CircuitBreaker → Outcome A E → ℕ → CircuitBreaker
unfolding record_success record_failure
settle cb (returned a) now = record_success cb now
settle cb (expected e) now = record_failure cb now
settle cb (unexpected e) now = cb

pub data CallResult (A E : Type 0) : Type 0 where
  value : A → CallResult A E
  circuit_open : CallResult A E
  raised : E → CallResult A E

abbrev pub to_result : {A E : Type 0} → Outcome A E → CallResult A E
to_result (returned a) = value a
to_result (expected e) = raised e
to_result (unexpected e) = raised e

-- `call` in one thread: `f` runs at `now`, and ends at `later`.
pub call : {A E : Type 0} → CircuitBreaker → Outcome A E → ℕ → ℕ → CallResult A E × CircuitBreaker
unfolding enter settle
call cb outcome now later =
    let (allowed, cb') = enter cb now in
    if allowed then (to_result outcome, settle cb' outcome later) else (circuit_open, cb')

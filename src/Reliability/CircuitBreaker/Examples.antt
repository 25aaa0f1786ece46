-- ===== src/Reliability/CircuitBreaker/Examples.antt =====
-- Tests of the circuit breaker, and its theorems at concrete inputs.
use django_project_test.Reliability.StateStore
use django_project_test.Reliability.CircuitBreaker.View
use django_project_test.Reliability.CircuitBreaker.{
  closed, allow_request, half_open, value_numeric, opened, key_eq, state_eq, set_state,
  open_circuit, on_failure, initial, enter, record_failure, CircuitBreaker, Config,
}
use django_project_test.Base.{nat_eq, refl, arith, true, false, ◌≡◌, []}
use django_project_test.Reliability.CircuitBreaker.View.{
  react-transition, transition, request, react,
}
use django_project_test.Reliability.StateStore.Live.{live}
use django_project_test.Base.Dict.{insert, lookup}
use django_project_test.Reliability.CircuitBreaker.Trials.{run_successes}
use django_project_test.Reliability.CircuitBreaker.Recovery.{recovers}

abbrev config : Config
config = record { failure_threshold = 2; success_threshold = 1; recovery_time = 30 }

-- Two failures open the breaker; after 30 seconds a call is let through.
abbrev tripped : CircuitBreaker
tripped = record_failure (record_failure (initial config) 1000) 2000

react-transition_example :
    ((react tripped request 40000).0
      ≡ (transition tripped.config (View.view tripped 40000) request 40000).0)
    × (View.view (react tripped request 40000).1 40000
        ≡ (transition tripped.config (View.view tripped 40000) request 40000).1)
react-transition_example = react-transition tripped request 40000

phases :
    ((View.view tripped 2000).phase ≡ opened)
    × ((enter tripped 31999).0 ≡ false)
    × ((enter tripped 32000).0 ≡ true)
    × ((View.view (enter tripped 32000).1 32000).phase ≡ half_open)
unfolding View.view live lookup insert enter record_failure on_failure open_circuit set_state
    state_eq key_eq value_numeric StateStore.get StateStore.set StateStore.incr nat_eq
phases = (refl, refl, refl, refl)

recovers_example :
    let (allowed, trial) = allow_request tripped 40000 in
    let after = View.view (run_successes trial 40100 []) 40100 in
    (allowed ≡ true) × (after.phase ≡ closed) × (after.failures ≡ 0)
unfolding View.view live lookup insert record_failure on_failure open_circuit set_state state_eq
    key_eq value_numeric StateStore.get StateStore.set StateStore.incr nat_eq
recovers_example =
    recovers tripped 40000 40100 [] (omega arith) refl (omega arith) (omega arith) (omega arith)
      refl

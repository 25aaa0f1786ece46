-- ===== src/Reliability/CircuitBreaker/View.antt =====
-- The state machine of the header of framework/reliability/circuit_breaker.py, as an independent
-- description, and the breaker's methods as its implementation over the state store.
use django_project_test.Base.{
  ℕ, ◌+◌, ◌*◌, ◌≡◌, refl, Bool, true, false, leb, Bool-cases, inl, inr, if◌then◌else◌, ◌==◌, ==→≡,
}
use django_project_test.Reliability.StateStore.Live.{live, count_of, store_laws}
use django_project_test.Reliability.CircuitBreaker.{
  Metrics, record_failure, record_success, allow_request, CircuitBreakerState, closed, opened,
  half_open, Key, state_key, failure_key, success_key, opened_at_key, key_eq, state_eq,
  value_numeric, Config, CircuitBreaker, to_state, to_time, get_state, set_state, open_circuit,
  on_success, on_failure, admit,
}

-- What the four keys of the breaker hold at a time.
pub record View : Type 0 where
  pub phase : CircuitBreakerState
  pub failures : ℕ
  pub successes : ℕ
  pub opened_at : ℕ

unfoldable pub view : CircuitBreaker → ℕ → View
view cb now = record {
  phase = to_state (live cb.store state_key now);
  failures = count_of (live cb.store failure_key now);
  successes = count_of (live cb.store success_key now);
  opened_at = to_time (live cb.store opened_at_key now);
}

-- May a call run, and what the question changes.
unfoldable pub ask : Config → CircuitBreakerState → View → ℕ → Bool × View
ask c closed v now = (true, v)
ask c half_open v now = (true, v)
ask c opened v now =
    if leb (v.opened_at + c.recovery_time * 1000) now
    then (true, record v { phase = half_open; successes = 0 })
    else (false, v)

unfoldable pub succeed : Config → CircuitBreakerState → View → View
succeed c closed v = record v { failures = 0 }
succeed c opened v = v
succeed c half_open v =
    if leb c.success_threshold (v.successes + 1)
    then record v { phase = closed; failures = 0; successes = 0 }
    else record v { successes = v.successes + 1 }

unfoldable pub fail : Config → CircuitBreakerState → View → ℕ → View
fail c half_open v now = record v { phase = opened; opened_at = now }
fail c _ v now =
    if leb c.failure_threshold (v.failures + 1)
    then record v { phase = opened; failures = v.failures + 1; opened_at = now }
    else record v { failures = v.failures + 1 }

pub view-get_state : (cb : CircuitBreaker) (now : ℕ) → view (get_state cb now).1 now ≡ view cb now
unfolding view get_state
view-get_state cb now = simp store_laws

module _ (cb : CircuitBreaker) (s : CircuitBreakerState) (now : ℕ) where
  phase-set_state : to_state (live (set_state cb s now).store state_key now) ≡ s
  unfolding set_state get_state key_eq
  phase-set_state = elim (Bool-cases (to_state (live cb.store state_key now) == s)) [
    | inl same ↦ simp (store_laws, same) (==→≡ _ s same)
    | inr differ ↦ simp (store_laws, differ)
  ]

  live-set_state_ne :
      (k : Key)
      → (k == state_key) ≡ false
      → live (set_state cb s now).store k now ≡ live cb.store k now
  unfolding set_state get_state
  live-set_state_ne k ne = elim (Bool-cases (to_state (live cb.store state_key now) == s)) [
    | inl same ↦ simp (store_laws, same)
    | inr differ ↦ simp (store_laws, differ, ne)
  ]

  failure-set_state :
      live (set_state cb s now).store failure_key now ≡ live cb.store failure_key now
  unfolding key_eq
  failure-set_state = live-set_state_ne failure_key refl

  success-set_state :
      live (set_state cb s now).store success_key now ≡ live cb.store success_key now
  unfolding key_eq
  success-set_state = live-set_state_ne success_key refl

  opened_at-set_state :
      live (set_state cb s now).store opened_at_key now ≡ live cb.store opened_at_key now
  unfolding key_eq
  opened_at-set_state = live-set_state_ne opened_at_key refl

ruleset view_laws =
    (store_laws, phase-set_state, failure-set_state, success-set_state, opened_at-set_state)

view-open_circuit :
    (cb : CircuitBreaker) (now : ℕ)
    → view (open_circuit cb now) now ≡ record (view cb now) { phase = opened; opened_at = now }
unfolding open_circuit view key_eq
view-open_circuit cb now = simp view_laws

view-admit_opened :
    (cb : CircuitBreaker) (now : ℕ)
    → ((admit opened cb now).0 ≡ (ask cb.config opened (view cb now) now).0)
      × (view (admit opened cb now).1 now ≡ (ask cb.config opened (view cb now) now).1)
unfolding admit ask view key_eq value_numeric count_of
view-admit_opened cb now =
    elim (Bool-cases (leb ((view cb now).opened_at + cb.config.recovery_time * 1000) now)) [
      | inl due ↦ simp (view_laws, due) (refl, refl)
      | inr early ↦ simp (view_laws, early) (refl, refl)
    ]

view-admit :
    (s : CircuitBreakerState) (cb : CircuitBreaker) (now : ℕ)
    → ((admit s cb now).0 ≡ (ask cb.config s (view cb now) now).0)
      × (view (admit s cb now).1 now ≡ (ask cb.config s (view cb now) now).1)
view-admit closed cb now = unfold admit ask in (refl, refl)
view-admit half_open cb now = unfold admit ask in (refl, refl)
view-admit opened cb now = view-admit_opened cb now

view-on_success :
    (s : CircuitBreakerState) (cb : CircuitBreaker) (now : ℕ)
    → view (on_success s cb now) now ≡ succeed cb.config s (view cb now)
unfolding on_success succeed view key_eq value_numeric count_of
view-on_success closed cb now = simp view_laws
view-on_success opened cb now = refl
view-on_success half_open cb now =
    elim (Bool-cases (leb cb.config.success_threshold ((view cb now).successes + 1))) [
      | inl enough ↦ simp (view_laws, enough)
      | inr more ↦ simp (view_laws, more)
    ]

counted_failure :
    (cb : CircuitBreaker) (now : ℕ)
    → view (on_failure closed cb now) now ≡ fail cb.config closed (view cb now) now
unfolding on_failure open_circuit fail view key_eq value_numeric count_of
counted_failure cb now =
    elim (Bool-cases (leb cb.config.failure_threshold ((view cb now).failures + 1))) [
      | inl enough ↦ simp (view_laws, enough)
      | inr more ↦ simp (view_laws, more)
    ]

view-on_failure :
    (s : CircuitBreakerState) (cb : CircuitBreaker) (now : ℕ)
    → view (on_failure s cb now) now ≡ fail cb.config s (view cb now) now
unfolding on_failure fail
view-on_failure half_open cb now = view-open_circuit cb now
view-on_failure closed cb now = counted_failure cb now
view-on_failure opened cb now = counted_failure cb now

pub phase-get_state : (cb : CircuitBreaker) (now : ℕ) → (get_state cb now).0 ≡ (view cb now).phase
unfolding get_state view
phase-get_state cb now = simp store_laws

-- The metrics are not part of the view.
pub view-metrics :
    (cb : CircuitBreaker) (m : Metrics) (now : ℕ)
    → view (record cb { metrics = m }) now ≡ view cb now
unfolding view
view-metrics cb m now = refl

-- What the state machine does with each of the three questions.
pub data Event : Type 0 where
  request success failure : Event

unfoldable pub react : CircuitBreaker → Event → ℕ → Bool × CircuitBreaker
react cb request now = allow_request cb now
react cb success now = (true, record_success cb now)
react cb failure now = (true, record_failure cb now)

unfoldable pub transition : Config → View → Event → ℕ → Bool × View
transition c v request now = ask c v.phase v now
transition c v success now = (true, succeed c v.phase v)
transition c v failure now = (true, fail c v.phase v now)

-- At every time, from every store, `allow_request`, `record_success` and `record_failure` answer
-- and change the stored state, the two counters and the opening time as the state machine says.
pub react-transition :
    (cb : CircuitBreaker) (ev : Event) (now : ℕ)
    → ((react cb ev now).0 ≡ (transition cb.config (view cb now) ev now).0)
      × (view (react cb ev now).1 now ≡ (transition cb.config (view cb now) ev now).1)
unfolding react transition allow_request record_success record_failure get_state
react-transition cb request now =
    let (s, cb') = get_state cb now in
    let (answer, after) = view-admit s cb' now in
    let seen = phase-get_state cb now in
    let kept = view-get_state cb now in (cc (answer, seen, kept), cc (after, seen, kept))
react-transition cb success now =
    let counted = record cb {
      metrics = record cb.metrics { total_success = cb.metrics.total_success + 1 };
    } in
    let (s, cb') = get_state counted now in
    (
      refl,
      cc (
        view-on_success s cb' now,
        phase-get_state counted now,
        view-get_state counted now,
        view-metrics cb counted.metrics now,
      ),
    )
react-transition cb failure now =
    let counted = record cb {
      metrics = record cb.metrics { total_failure = cb.metrics.total_failure + 1 };
    } in
    let (s, cb') = get_state counted now in
    (
      refl,
      cc (
        view-on_failure s cb' now,
        phase-get_state counted now,
        view-get_state counted now,
        view-metrics cb counted.metrics now,
      ),
    )

pub view-record_failure :
    (cb : CircuitBreaker) (now : ℕ)
    → view (record_failure cb now) now ≡ fail cb.config (view cb now).phase (view cb now) now
view-record_failure cb now = unfold react transition in (react-transition cb failure now).1

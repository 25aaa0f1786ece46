-- ===== src/Reliability/CircuitBreaker/Recovery.antt =====
-- From OPEN back to CLOSED: the trial calls of an open breaker.
use django_project_test.Reliability.CircuitBreaker.Trials.{
  trial_time, last, Until, Until-first, run_successes, successes_close,
}
use django_project_test.Reliability.StateStore
use django_project_test.Reliability.StateStore.Live.{
  alive_until, live-get_now, get-eq-live, live-set, count_of,
}
use django_project_test.Reliability.CircuitBreaker.View.{
  request, phase-get_state, view-get_state, view, ask, react, transition, react-transition,
}
use django_project_test.Reliability.CircuitBreaker.{
  number, state, opened_at_key, Config, CircuitBreaker, opened, closed, half_open, set_state,
  state_ttl, get_state, admit, allow_request, value_numeric, key_eq, state_eq, state_key,
  success_key,
}
use django_project_test.Base.{
  none, if◌then◌else◌, Bool, ≢→==, true, ◌==◌, some, refl, sym, subst, length, suc, ap, List, ◌∙◌,
  arith, false, leb, ◌≡◌, ◌+◌, ◌≤◌, ◌<◌, ◌*◌, ℕ,
}

opened_half_open : (opened == half_open) ≡ false
opened_half_open = ≢→== opened half_open (λ e. ground arith)

set_half_open_later :
    (cb : CircuitBreaker) (t later : ℕ)
    → later ≤ t + state_ttl cb.config * 1000
    → (view cb t).phase ≡ opened
    → (view (set_state cb half_open t) later).phase ≡ half_open
unfolding set_state view key_eq
set_half_open_later cb t later soon open_now =
    let seen = phase-get_state cb t ∙ open_now in
    let stored = (get_state cb t).1.store in
    rw (seen, opened_half_open)
      (rw
        (
          live-set stored state_key state_key (state half_open) (some (state_ttl cb.config)) t
              later,
          alive_until (state_ttl cb.config) t later soon,
        )
        refl)

admit_later :
    (cb : CircuitBreaker) (t later : ℕ)
    → later ≤ t + state_ttl cb.config * 1000
    → (view cb t).phase ≡ opened
    → (view cb t).opened_at + cb.config.recovery_time * 1000 ≤ t
    → (view (admit opened cb t).1 later).phase ≡ half_open
unfolding admit view key_eq
admit_later cb t later soon open_now waited =
    let cb' = record cb { store = (StateStore.get cb.store opened_at_key t).1 } in
    let due : leb ((view cb t).opened_at + cb.config.recovery_time * 1000) t ≡ true =
      ground arith in
    let same : (view cb' t).phase ≡ opened =
      rw (live-get_now cb.store opened_at_key state_key t) open_now in
    let half = set_half_open_later cb' t later soon same in
    rw (get-eq-live cb.store opened_at_key t) (
      rw due (
        rw
          (live-set (set_state cb' half_open t).store success_key state_key (number 0)
            (some (cb.config.recovery_time * 5)) t later)
          half))

zero_or_none : (b : Bool) → count_of (if b then none else some (number 0)) ≡ 0
unfolding count_of value_numeric
zero_or_none true = refl
zero_or_none false = refl

admitted_due :
    (cb : CircuitBreaker) (t : ℕ)
    → (view cb t).phase ≡ opened
    → (view cb t).opened_at + cb.config.recovery_time * 1000 ≤ t
    → (allow_request cb t).0 ≡ true
unfolding react transition ask
admitted_due cb t open_now waited = ground (arith, (react-transition cb request t).0)

admit_successes_later :
    (cb : CircuitBreaker) (t later : ℕ)
    → (view cb t).opened_at + cb.config.recovery_time * 1000 ≤ t
    → (view (admit opened cb t).1 later).successes ≡ 0
unfolding admit view key_eq count_of value_numeric
admit_successes_later cb t later waited =
    let cb' = record cb { store = (StateStore.get cb.store opened_at_key t).1 } in
    let due : leb ((view cb t).opened_at + cb.config.recovery_time * 1000) t ≡ true =
      ground arith in
    let written =
      live-set (set_state cb' half_open t).store success_key success_key (number 0)
        (some (cb.config.recovery_time * 5)) t later in
    rw (get-eq-live cb.store opened_at_key t) (rw due (rw written (zero_or_none _)))

config-allow_request : (cb : CircuitBreaker) (now : ℕ) → (allow_request cb now).1.config ≡ cb.config
unfolding allow_request admit get_state set_state
config-allow_request cb now = ground arith

allowed_later :
    (cb : CircuitBreaker) (t later : ℕ)
    → t ≤ later
    → later ≤ t + state_ttl cb.config * 1000
    → (view cb t).phase ≡ opened
    → (view cb t).opened_at + cb.config.recovery_time * 1000 ≤ t
    → ((view (allow_request cb t).1 later).phase ≡ half_open)
      × ((view (allow_request cb t).1 later).successes ≡ 0)
unfolding allow_request get_state
allowed_later cb t later after soon open_now waited =
    let (s, cb') = get_state cb t in
    let seen : s ≡ opened = phase-get_state cb t ∙ open_now in
    let kept : view cb' t ≡ view cb t = view-get_state cb t in
    let open' : (view cb' t).phase ≡ opened = ap (λ v. v.phase) kept ∙ open_now in
    let waited' : (view cb' t).opened_at + cb.config.recovery_time * 1000 ≤ t = rw kept waited in
    rw seen (admit_later cb' t later soon open' waited', admit_successes_later cb' t later waited')

-- With a recovery time that is not 0: once an open breaker has waited its recovery time, it lets a
-- call through, and as many successes as its success threshold, at times that do not decrease and lie
-- within five recovery times of that call, with no other call between them, close it and clear its failures.
pub recovers :
    (cb : CircuitBreaker) (start t : ℕ) (ts : List ℕ)
    → 0 < cb.config.recovery_time
    → (view cb start).phase ≡ opened
    → (view cb start).opened_at + cb.config.recovery_time * 1000 ≤ start
    → start ≤ t
    → Until (start + trial_time cb.config) t ts
    → suc (length ts) ≡ cb.config.success_threshold
    → let (admitted, trial) = allow_request cb start in
      let after = view (run_successes trial t ts) (last t ts) in
      (admitted ≡ true) × (after.phase ≡ closed) × (after.failures ≡ 0)
recovers cb start t ts some_time open_now waited begun times count =
    let end = start + trial_time cb.config in
    let trial = (allow_request cb start).1 in
    let same = config-allow_request cb start in
    let at_end = Until-first end t ts times in
    let later = λ (l : ℕ) (a : start ≤ l) (b : l ≤ end).
      allowed_later cb start l a (omega arith) open_now waited in
    let total : 0 + suc (length ts) ≡ cb.config.success_threshold = omega arith in
    let (phase, failures) =
      successes_close end trial t ts
        (subst (λ (c : Config). 0 < c.recovery_time) (sym same) some_time)
        (subst (λ (c : Config). end ≤ t + trial_time c) (sym same) (omega arith)) times
        (λ l a b. (later l (omega arith) b).0)
        (ap (λ k. k + suc (length ts)) (later t begun at_end).1
          ∙ total
          ∙ ap (λ (c : Config). c.success_threshold) (sym same)) in
    (admitted_due cb start open_now waited, phase, failures)

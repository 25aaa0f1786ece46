-- ===== src/Reliability/CircuitBreaker/Trials.antt =====
-- Successes of a half-open breaker, at times within the life of its keys.
use django_project_test.Reliability.StateStore.Live.{live-incr, live-get, incr_lem, count_of}
use django_project_test.Reliability.CircuitBreaker.View.{
  success, phase-get_state, view-metrics, view-get_state, view, succeed, react, transition,
  react-transition,
}
use django_project_test.Reliability.CircuitBreaker.{
  opened_at_key, failure_key, Config, CircuitBreaker, closed, half_open, set_state, get_state,
  on_success, record_success, value_numeric, key_eq, state_eq, state_key, success_key,
}
use django_project_test.Base.{
  refl, sym, subst, [], length, suc, ◌∷◌, ap, List, ◌∙◌, ltb, arith, false, leb, ◌≡◌, ◌+◌, ◌≤◌, ◌<◌,
  ◌*◌, ℕ,
}

abbrev pub trial_time : Config → ℕ
trial_time c = c.recovery_time * 5 * 1000

-- A success below the threshold, seen at a later time.
on_success_remembered :
    (cb : CircuitBreaker) (now later : ℕ)
    → 0 < cb.config.recovery_time
    → now ≤ later
    → later ≤ now + trial_time cb.config
    → (view cb now).successes + 1 < cb.config.success_threshold
    → ((view (on_success half_open cb now) later).successes ≡ (view cb now).successes + 1)
      × ((view (on_success half_open cb now) later).phase ≡ (view cb later).phase)
unfolding view on_success key_eq value_numeric count_of
on_success_remembered cb now later some_time after soon few =
    let below : leb cb.config.success_threshold ((view cb now).successes + 1) ≡ false =
      ground arith in
    let alive : ltb (now + cb.config.recovery_time * 5 * 1000) later ≡ false = ground arith in
    let positive : 0 < cb.config.recovery_time * 5 = omega arith in
    (
      simp (incr_lem, below, live-incr, positive, alive),
      simp (incr_lem, below, live-incr, positive),
    )

get_state_later :
    (cb : CircuitBreaker) (now later : ℕ)
    → now ≤ later
    → view (get_state cb now).1 later ≡ view cb later
unfolding view get_state
get_state_later cb now later h =
    rw
      (
        live-get cb.store state_key state_key now later h,
        live-get cb.store state_key failure_key now later h,
        live-get cb.store state_key success_key now later h,
        live-get cb.store state_key opened_at_key now later h,
      )
      refl

success_remembered :
    (cb : CircuitBreaker) (now later : ℕ)
    → 0 < cb.config.recovery_time
    → now ≤ later
    → later ≤ now + trial_time cb.config
    → (view cb now).phase ≡ half_open
    → (view cb now).successes + 1 < cb.config.success_threshold
    → ((view (record_success cb now) later).successes ≡ (view cb now).successes + 1)
      × ((view (record_success cb now) later).phase ≡ (view cb later).phase)
unfolding record_success get_state
success_remembered cb now later some_time after soon half few =
    let counted = record cb {
      metrics = record cb.metrics { total_success = cb.metrics.total_success + 1 };
    } in
    let (s, cb') = get_state counted now in
    let kept : view cb' now ≡ view cb now =
      view-get_state counted now ∙ view-metrics cb counted.metrics now in
    let kept_later : view cb' later ≡ view cb later =
      get_state_later counted now later after ∙ view-metrics cb counted.metrics later in
    let seen : s ≡ half_open =
      phase-get_state counted now
      ∙ ap (λ v. v.phase) (view-metrics cb counted.metrics now)
      ∙ half in
    let room : (view cb' now).successes + 1 < cb.config.success_threshold = rw kept few in
    let (count, phase) = on_success_remembered cb' now later some_time after soon room in
    (cc (count, seen, kept), cc (phase, seen, kept_later))

config-record_success : (cb : CircuitBreaker) (now : ℕ) → (record_success cb now).config ≡ cb.config
unfolding record_success on_success get_state set_state
config-record_success cb now = ground arith

-- Successes at `t` and then at the times `ts`.
unfoldable pub run_successes : CircuitBreaker → ℕ → List ℕ → CircuitBreaker
run_successes cb t [] = record_success cb t
run_successes cb t (t' ∷ ts) = run_successes (record_success cb t) t' ts

abbrev pub last : ℕ → List ℕ → ℕ
last t [] = t
last t (t' ∷ ts) = last t' ts

-- The times do not decrease, and none is after `end`.
abbrev pub Until : ℕ → ℕ → List ℕ → Type 0
Until end t [] = t ≤ end
Until end t (t' ∷ ts) = (t ≤ t') × Until end t' ts

pub Until-first : (end t : ℕ) (ts : List ℕ) → Until end t ts → t ≤ end
Until-first end t [] h = h
Until-first end t (t' ∷ ts) h = let later = Until-first end t' ts h.1 in omega arith

-- Half open up to `end`, if there is no further success.
abbrev pub HalfOpenUntil : ℕ → ℕ → CircuitBreaker → Type 0
HalfOpenUntil end t cb = (later : ℕ) → t ≤ later → later ≤ end → (view cb later).phase ≡ half_open

last_success :
    (cb : CircuitBreaker) (t : ℕ)
    → (view cb t).phase ≡ half_open
    → (view cb t).successes + 1 ≡ cb.config.success_threshold
    → ((view (record_success cb t) t).phase ≡ closed)
      × ((view (record_success cb t) t).failures ≡ 0)
unfolding succeed transition react
last_success cb t half enough = ground (arith, (react-transition cb success t).1)

pub successes_close :
    (end : ℕ) (cb : CircuitBreaker) (t : ℕ) (ts : List ℕ)
    → 0 < cb.config.recovery_time
    → end ≤ t + trial_time cb.config
    → Until end t ts
    → HalfOpenUntil end t cb
    → (view cb t).successes + suc (length ts) ≡ cb.config.success_threshold
    → ((view (run_successes cb t ts) (last t ts)).phase ≡ closed)
      × ((view (run_successes cb t ts) (last t ts)).failures ≡ 0)
unfolding run_successes
successes_close end cb t [] some_time soon times half count =
    last_success cb t (half t (omega arith) times) (omega arith)
successes_close end cb t (t' ∷ ts) some_time soon times half count =
    let at_end = Until-first end t' ts times.1 in
    let now = half t (omega arith) (omega arith) in
    let few : (view cb t).successes + 1 < cb.config.success_threshold = omega arith in
    let same = config-record_success cb t in
    let next = record_success cb t in
    let remembered = λ (later : ℕ) (a : t ≤ later) (b : later ≤ t + trial_time cb.config).
      success_remembered cb t later some_time a b now few in
    let counted = (remembered t' times.0 (omega arith)).0 in
    successes_close end next t' ts
      (subst (λ (c : Config). 0 < c.recovery_time) (sym same) some_time)
      (subst (λ (c : Config). end ≤ t' + trial_time c) (sym same) (omega arith)) times.1
      (λ later a b. (remembered later (omega arith) (omega arith)).1 ∙ half later (omega arith) b)
      (ap (λ k. k + suc (length ts)) counted
        ∙ omega arith
        ∙ ap (λ (c : Config). c.success_threshold) (sym same))

-- ===== src/Reliability/CircuitBreaker/Runs.antt =====
-- Runs of consecutive failures, at times that are not too far apart for the failure count to live.
use django_project_test.Reliability.StateStore.Live.{live-incr, incr_lem, count_of, live_later}
use django_project_test.Reliability.CircuitBreaker.View.{
  phase-get_state, view-metrics, view-record_failure, view-get_state, fail, view,
}
use django_project_test.Reliability.CircuitBreaker.{
  Config, opened, set_state, open_circuit, value_numeric, key_eq, state_ttl, get_state, on_failure,
  state_key, closed, record_failure, CircuitBreaker,
}
use django_project_test.Base.{
  dec_lt, ◌⊎◌, ap, length, ◌∙◌, [], suc, ◌∷◌, List, ltb, arith, false, leb, ◌<◌, ◌*◌, inr, inl, ◌+◌,
  ◌≡◌, ◌≤◌, ℕ,
}

closed_later :
    (cb : CircuitBreaker) (now later : ℕ)
    → now ≤ later
    → (view cb now).phase ≡ closed
    → (view cb later).phase ≡ closed
unfolding view
closed_later cb now later h c = elim (live_later cb.store state_key now later h) [
  | inl gone ↦ rw gone
  | inr same ↦ rw same c
]

-- A failure below the threshold is remembered for the life of its key.
on_failure_remembered :
    (cb : CircuitBreaker) (now later : ℕ)
    → later ≤ now + state_ttl cb.config * 1000
    → (view cb now).failures + 1 < cb.config.failure_threshold
    → (view (on_failure closed cb now) later).failures ≡ (view cb now).failures + 1
unfolding view on_failure key_eq value_numeric count_of
on_failure_remembered cb now later soon few =
    let below : leb cb.config.failure_threshold ((view cb now).failures + 1) ≡ false =
      ground arith in
    let alive : ltb (now + state_ttl cb.config * 1000) later ≡ false = ground arith in
    let positive : 0 < state_ttl cb.config = omega arith in
    simp (incr_lem, below, live-incr, positive, alive)

failure_remembered :
    (cb : CircuitBreaker) (now later : ℕ)
    → later ≤ now + state_ttl cb.config * 1000
    → (view cb now).phase ≡ closed
    → (view cb now).failures + 1 < cb.config.failure_threshold
    → (view (record_failure cb now) later).failures ≡ (view cb now).failures + 1
unfolding record_failure get_state
failure_remembered cb now later soon c few =
    let counted = record cb {
      metrics = record cb.metrics { total_failure = cb.metrics.total_failure + 1 };
    } in
    let (s, cb') = get_state counted now in
    let kept : view cb' now ≡ view cb now =
      view-get_state counted now ∙ view-metrics cb counted.metrics now in
    let seen : s ≡ closed =
      phase-get_state counted now ∙ ap (λ v. v.phase) (view-metrics cb counted.metrics now) ∙ c in
    let room : (view cb' now).failures + 1 < cb.config.failure_threshold = rw kept few in
    cc (on_failure_remembered cb' now later soon room, seen, kept)

config-record_failure : (cb : CircuitBreaker) (now : ℕ) → (record_failure cb now).config ≡ cb.config
unfolding record_failure on_failure get_state open_circuit set_state
config-record_failure cb now = ground arith

-- Failures at `t` and then at the times `ts`.
unfoldable pub run_failures : CircuitBreaker → ℕ → List ℕ → CircuitBreaker
run_failures cb t [] = record_failure cb t
run_failures cb t (t' ∷ ts) = run_failures (record_failure cb t) t' ts

abbrev pub last : ℕ → List ℕ → ℕ
last t [] = t
last t (t' ∷ ts) = last t' ts

-- Each time is at or after the one before it, and at most `ms` milliseconds later.
abbrev pub Spaced : ℕ → ℕ → List ℕ → Type 0
Spaced ms t [] = Unit
Spaced ms t (t' ∷ ts) = (t ≤ t') × (t' ≤ t + ms) × Spaced ms t' ts

step_below :
    (cb : CircuitBreaker) (t : ℕ)
    → (view cb t).phase ≡ closed
    → (view cb t).failures + 1 < cb.config.failure_threshold
    → (view (record_failure cb t) t).phase ≡ closed
unfolding fail
step_below cb t c few = ground (arith, view-record_failure cb t)

step_at :
    (cb : CircuitBreaker) (t : ℕ)
    → (view cb t).phase ≡ closed
    → (view cb t).failures + 1 ≡ cb.config.failure_threshold
    → ((view (record_failure cb t) t).phase ≡ opened)
      × ((view (record_failure cb t) t).opened_at ≡ t)
unfolding fail
step_at cb t c few = ground (arith, view-record_failure cb t)

-- The two cases of a run of failures.
run_failures_lem :
    (cb : CircuitBreaker) (t : ℕ) (ts : List ℕ)
    → (view cb t).phase ≡ closed
    → Spaced (state_ttl cb.config * 1000) t ts
    → ((view cb t).failures + suc (length ts) < cb.config.failure_threshold
        → (view (run_failures cb t ts) (last t ts)).phase ≡ closed)
      × ((view cb t).failures + suc (length ts) ≡ cb.config.failure_threshold
          → ((view (run_failures cb t ts) (last t ts)).phase ≡ opened)
            × ((view (run_failures cb t ts) (last t ts)).opened_at ≡ last t ts))
unfolding run_failures
run_failures_lem cb t [] c sp =
    (λ few. step_below cb t c (omega arith), λ full. step_at cb t c (omega arith))
run_failures_lem cb t (t' ∷ ts) c sp =
    let same = config-record_failure cb t in
    let spaced : Spaced (state_ttl (record_failure cb t).config * 1000) t' ts = rw same sp.2 in
    let threshold = ap (λ (k : Config). k.failure_threshold) same in
    let rest = λ (few : (view cb t).failures + 1 < cb.config.failure_threshold).
      run_failures_lem (record_failure cb t) t' ts
        (closed_later (record_failure cb t) t t' sp.0 (step_below cb t c few)) spaced in
    let count = λ (few : (view cb t).failures + 1 < cb.config.failure_threshold).
      failure_remembered cb t t' sp.1 c few in
    (
      λ few. (rest (omega arith)).0 (omega (arith, threshold, count (omega arith))),
      λ full. (rest (omega arith)).1 (omega (arith, threshold, count (omega arith))),
    )

-- From CLOSED, consecutive failures at times within the life of the failure count, which bring the count
-- to the threshold at most, leave the breaker CLOSED if the count stays below the threshold, and the
-- failure that brings it to the threshold opens it, with the time of that failure as its opening time.
pub failures_open_at_threshold :
    (cb : CircuitBreaker) (t : ℕ) (ts : List ℕ)
    → (view cb t).phase ≡ closed
    → Spaced (state_ttl cb.config * 1000) t ts
    → (view cb t).failures + suc (length ts) ≤ cb.config.failure_threshold
    → let after = view (run_failures cb t ts) (last t ts) in
      (((view cb t).failures + suc (length ts) < cb.config.failure_threshold)
        × (after.phase ≡ closed))
      ⊎ (((view cb t).failures + suc (length ts) ≡ cb.config.failure_threshold)
          × (after.phase ≡ opened)
          × (after.opened_at ≡ last t ts))
failures_open_at_threshold cb t ts c sp most =
    let (below, at) = run_failures_lem cb t ts c sp in
    elim (dec_lt ((view cb t).failures + suc (length ts)) cb.config.failure_threshold) [
      | yes few ↦ inl (few, below few)
      | no many ↦
          let full : (view cb t).failures + suc (length ts) ≡ cb.config.failure_threshold =
            omega arith in
          let (phase, time) = at full in inr (full, phase, time)
    ]

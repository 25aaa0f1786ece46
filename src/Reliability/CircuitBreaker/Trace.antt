-- ===== src/Reliability/CircuitBreaker/Trace.antt =====
-- What each method of the breaker adds to the trace of announced changes.
use django_project_test.Reliability.StateStore
use django_project_test.Reliability.CircuitBreaker.{
  record_failure, value_numeric, record_success, state_ttl, failure_key, success_key, time, to_time,
  opened_at_key, read, key_eq, state_eq, on_failure, on_success, admit, allow_request, open_circuit,
  settle, unexpected, half_open, expected, opened, returned, get_state, closed, enter, set_state,
  CircuitBreakerState, Outcome, CircuitBreaker, try_enter, count_total,
}
use django_project_test.Base.{
  sym, All-append, some, refl, ◌*◌, leb, ap, ◌∙◌, ==_false, inr, inl, ◌==◌, ◌++◌, Bool-cases, ◌⊎◌,
  [], ◌∷◌, length-append, arith, ◌≢◌, ◌+◌, length, All, ◌≡◌, List, ℕ,
}
use django_project_test.Reliability.CircuitBreaker.View.{view-get_state, phase-get_state, view}
use django_project_test.Reliability.StateStore.Live.{store_laws}

-- The arrows of the diagram in the file's header.
pub data Edge : CircuitBreakerState → CircuitBreakerState → Type 0 where
  trip : Edge closed opened
  probe : Edge opened half_open
  heal : Edge half_open closed
  relapse : Edge half_open opened

abbrev pub AllEdges : List (CircuitBreakerState × CircuitBreakerState) → Type 0
AllEdges = All (λ (a, b). Edge a b)

-- What one method adds to the trace: nothing, or one arrow.
abbrev pub Grows : CircuitBreaker → CircuitBreaker → Type 0
Grows cb cb' =
    ((cb'.announced ≡ cb.announced)
      × (cb'.metrics.state_transitions ≡ cb.metrics.state_transitions))
    ⊎ ((a : CircuitBreakerState) × (b : CircuitBreakerState) × Edge a b
        × (cb'.announced ≡ cb.announced ++ (a, b) ∷ [])
        × (cb'.metrics.state_transitions ≡ cb.metrics.state_transitions + 1))

Grows-set_state :
    (cb : CircuitBreaker) (p s : CircuitBreakerState) (now : ℕ)
    → (view cb now).phase ≡ p
    → (p ≢ s → Edge p s)
    → Grows cb (set_state cb s now)
unfolding set_state get_state
Grows-set_state cb p s now e edge =
    let seen : (get_state cb now).0 ≡ p = phase-get_state cb now ∙ e in
    elim (Bool-cases ((get_state cb now).0 == s)) [
      | inl same ↦ rw same (inl (refl, refl))
      | inr differ ↦ rw differ (
          inr (
            p,
            s,
            edge (λ q. ==_false _ s differ (seen ∙ q)),
            ap (λ (x : CircuitBreakerState). cb.announced ++ (x, s) ∷ []) seen,
            refl,
          ))
    ]

Grows-open_circuit :
    (cb : CircuitBreaker) (p : CircuitBreakerState) (now : ℕ)
    → (view cb now).phase ≡ p
    → (p ≢ opened → Edge p opened)
    → Grows cb (open_circuit cb now)
unfolding open_circuit view key_eq
Grows-open_circuit cb p now e edge =
    Grows-set_state
      (record cb {
        store = StateStore.set cb.store opened_at_key (time now) (some (state_ttl cb.config)) now;
      })
      p opened now (simp store_laws e) edge

Grows-admit :
    (s : CircuitBreakerState) (cb : CircuitBreaker) (now : ℕ)
    → (view cb now).phase ≡ s
    → Grows cb (admit s cb now).1
unfolding admit
Grows-admit closed cb now e = inl (refl, refl)
Grows-admit half_open cb now e = inl (refl, refl)
Grows-admit opened cb now e =
    let cb' = (read cb opened_at_key now).1 in
    let half =
      Grows-set_state cb' opened half_open now (unfold view key_eq read in simp store_laws e)
        (λ _. probe) in
    elim (Bool-cases
      (leb (to_time (read cb opened_at_key now).0 + cb.config.recovery_time * 1000) now)) [
        | inl due ↦ rw due (unfold read in half)
        | inr early ↦ rw early (unfold read in inl (refl, refl))
      ]

Grows-on_success :
    (s : CircuitBreakerState) (cb : CircuitBreaker) (now : ℕ)
    → (view cb now).phase ≡ s
    → Grows cb (on_success s cb now)
unfolding on_success
Grows-on_success closed cb now e = inl (refl, refl)
Grows-on_success opened cb now e = inl (refl, refl)
Grows-on_success half_open cb now e =
    let counted = StateStore.incr cb.store success_key 1 (some (cb.config.recovery_time * 5)) now in
    let done =
      Grows-set_state (record cb { store = counted.1 }) half_open closed now
        (unfold view key_eq in simp store_laws e) (λ _. heal) in
    elim (Bool-cases (leb cb.config.success_threshold counted.0)) [
      | inl enough ↦ rw enough done
      | inr more ↦ rw more (inl (refl, refl))
    ]

Grows-counted_failure :
    (cb : CircuitBreaker) (p : CircuitBreakerState) (now : ℕ)
    → (view cb now).phase ≡ p
    → (p ≢ opened → Edge p opened)
    → Grows cb (on_failure closed cb now)
unfolding on_failure
Grows-counted_failure cb p now e edge =
    let counted = StateStore.incr cb.store failure_key 1 (some (state_ttl cb.config)) now in
    let tripped =
      Grows-open_circuit (record cb { store = counted.1 }) p now
        (unfold view key_eq in simp store_laws e) edge in
    elim (Bool-cases (leb cb.config.failure_threshold counted.0)) [
      | inl enough ↦ rw enough tripped
      | inr more ↦ rw more (inl (refl, refl))
    ]

Grows-on_failure :
    (s : CircuitBreakerState) (cb : CircuitBreaker) (now : ℕ)
    → (view cb now).phase ≡ s
    → Grows cb (on_failure s cb now)
unfolding on_failure
Grows-on_failure closed cb now e = Grows-counted_failure cb closed now e (λ _. trip)
Grows-on_failure opened cb now e = Grows-counted_failure cb opened now e (λ ne. absurd (ne refl))
Grows-on_failure half_open cb now e = Grows-open_circuit cb half_open now e (λ _. relapse)

-- A method keeps the trace a path of the diagram, and adds to at most one counter.
abbrev pub Traced : CircuitBreaker → Type 0
Traced cb = AllEdges cb.announced × (cb.metrics.state_transitions ≡ length cb.announced)

Traced-Grows : (cb cb' : CircuitBreaker) → Grows cb cb' → Traced cb → Traced cb'
Traced-Grows cb cb' (inl (a, t)) (e, n) = (rw a e, rw (a, t) n)
Traced-Grows cb cb' (inr (p, q, edge, a, t)) (e, n) = (
  rw a (All-append (λ (x, y). Edge x y) cb.announced ((p, q) ∷ []) e (edge, tt)),
  rw a (omega (arith, length-append {0} cb.announced ((p, q) ∷ []))),
)

phase_seen :
    (cb : CircuitBreaker) (now : ℕ) → (view (get_state cb now).1 now).phase ≡ (get_state cb now).0
phase_seen cb now = ap (λ v. v.phase) (view-get_state cb now) ∙ sym (phase-get_state cb now)

Grows-allow_request : (cb : CircuitBreaker) (now : ℕ) → Grows cb (allow_request cb now).1
unfolding allow_request get_state
Grows-allow_request cb now =
    Grows-admit (get_state cb now).0 (get_state cb now).1 now (phase_seen cb now)

pub Traced-try_enter : (cb : CircuitBreaker) (now : ℕ) → Traced cb → Traced (try_enter cb now).1
unfolding try_enter
Traced-try_enter cb now h =
    let asked = allow_request cb now in
    let kept = Traced-Grows cb asked.1 (Grows-allow_request cb now) h in
    elim (Bool-cases asked.0) [ inl yes' ↦ rw yes' kept | inr no' ↦ rw no' kept ]

pub Traced-enter : (cb : CircuitBreaker) (now : ℕ) → Traced cb → Traced (enter cb now).1
unfolding enter count_total
Traced-enter cb now h = Traced-try_enter (count_total cb) now h

Traced-record_success : (cb : CircuitBreaker) (now : ℕ) → Traced cb → Traced (record_success cb now)
unfolding record_success
Traced-record_success cb now h =
    let counted = record cb {
      metrics = record cb.metrics { total_success = cb.metrics.total_success + 1 };
    } in
    let (s, cb') = get_state counted now in
    Traced-Grows cb' (on_success s cb' now) (Grows-on_success s cb' now (phase_seen counted now))
      (unfold get_state in h)

Traced-record_failure : (cb : CircuitBreaker) (now : ℕ) → Traced cb → Traced (record_failure cb now)
unfolding record_failure
Traced-record_failure cb now h =
    let counted = record cb {
      metrics = record cb.metrics { total_failure = cb.metrics.total_failure + 1 };
    } in
    let (s, cb') = get_state counted now in
    Traced-Grows cb' (on_failure s cb' now) (Grows-on_failure s cb' now (phase_seen counted now))
      (unfold get_state in h)

pub Traced-settle :
    {A E : Type 0} (cb : CircuitBreaker) (o : Outcome A E) (now : ℕ)
    → Traced cb
    → Traced (settle cb o now)
unfolding settle
Traced-settle cb (returned a) now h = Traced-record_success cb now h
Traced-settle cb (expected e) now h = Traced-record_failure cb now h
Traced-settle cb (unexpected e) now h = h

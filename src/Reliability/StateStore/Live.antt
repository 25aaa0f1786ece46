-- ===== src/Reliability/StateStore/Live.antt =====
-- What a client of the state store sees: a map whose entries vanish when their time has passed.
use django_project_test.Base.{
  false, ℕ, ◌+◌, ◌*◌, ◌<◌, ◌≤◌, ◌<◌, ◌≡◌, refl, true, Option, none, some, ltb, arith, if◌then◌else◌,
  Eq, ◌==◌, Option-cases, ◌⊎◌, inl, inr,
}
use django_project_test.Base.Dict.{Dict, lookup, lookup-insert, lookup-erase}
use django_project_test.Reliability.StateStore.{
  Entry, Numeric, has_expired, deadline, get_entry, get, set, delete, current, incr_entry, incr,
}

module _ {V : Type 0} where
  abbrev pub visible : Option (Entry V) → ℕ → Option V
  visible none now = none
  visible (some (v, expire_at)) now = if has_expired expire_at now then none else some v

  -- What has expired stays expired.
  visible_later :
      (v : V) (expire_at : Option ℕ) (now later : ℕ)
      → now ≤ later
      → has_expired expire_at now ≡ true
      → has_expired expire_at later ≡ true
  unfolding has_expired
  visible_later v none now later h x = x
  visible_later v (some t) now later h x = ground arith

-- The number under a key: 0 where none is visible.
unfoldable pub count_of : {V : Type 0} ⦃n : Numeric V⦄ → Option V → ℕ
count_of none = 0
count_of ⦃n⦄ (some v) = elim (n.to_int v) [ none ↦ 0 | some m ↦ m ]

pub alive_until :
    (ttl t later : ℕ) → later ≤ t + ttl * 1000 → has_expired (deadline (some ttl) t) later ≡ false
unfolding has_expired deadline
alive_until ttl t later h = ground arith

module _ {K V : Type 0} ⦃e : Eq K⦄ where
  -- The value that a client reads under a key at a time.
  unfoldable pub live : Dict K (Entry V) → K → ℕ → Option V
  live d k now = visible (lookup k d) now

  pub get-eq-live : (d : Dict K (Entry V)) (k : K) (now : ℕ) → (get d k now).0 ≡ live d k now
  unfolding get live
  get-eq-live d k now = ground arith

  -- Dropping an expired entry is not seen, then or later.
  pub live-get :
      (d : Dict K (Entry V)) (k j : K) (now later : ℕ)
      → now ≤ later
      → live (get d k now).1 j later ≡ live d j later
  unfolding get live
  live-get d k j now later h = elim (Option-cases (lookup k d)) [
    | inl e' ↦ rw (e', get_entry) refl
    | inr ((v, t), e') ↦ ground (arith, e', lookup-erase j k d, visible_later v t now later h)
  ]

  pub live-set :
      (d : Dict K (Entry V)) (k j : K) (v : V) (ttl : Option ℕ) (now later : ℕ)
      → live (set d k v ttl now) j later ≡ (
          if j == k
          then (if has_expired (deadline ttl now) later then none else some v)
          else live d j later)
  unfolding set live
  live-set d k j v ttl now later = ground (arith, lookup-insert j k (v, deadline ttl now) d)

  pub live-delete :
      (d : Dict K (Entry V)) (k j : K) (now : ℕ)
      → live (delete d k) j now ≡ (if j == k then none else live d j now)
  unfolding delete live
  live-delete d k j now = ground (arith, lookup-erase j k d)

  -- A count restarts where nothing is visible, and grows where a number is.
  pub incr_lem :
      ⦃n : Numeric V⦄ (d : Dict K (Entry V)) (k : K) (amount : ℕ) (ttl : Option ℕ) (now : ℕ)
      → (incr d k amount ttl now).0 ≡ count_of (live d k now) + amount
  unfolding incr live count_of
  incr_lem d k amount ttl now = ground arith

  pub live-incr :
      ⦃n : Numeric V⦄ (d : Dict K (Entry V)) (k j : K) (amount ttl now later : ℕ)
      → 0 < ttl
      → live (incr d k amount (some ttl) now).1 j later ≡ (
          if j == k
          then (if ltb (now + ttl * 1000) later
              then none
              else some (n.of_int (count_of (live d k now) + amount)))
          else live d j later)
  unfolding incr live has_expired deadline count_of
  live-incr ⦃n⦄ d k j amount ttl now later h =
      let entry = incr_entry (current (lookup k d) now) amount (some ttl) now in
      ground (arith, lookup-insert j k (n.of_int entry.0, entry.1) d)

  -- What is written is visible at the time of the write, whatever its `ttl`.
  pub live-set_now :
      (d : Dict K (Entry V)) (k j : K) (v : V) (ttl : Option ℕ) (now : ℕ)
      → live (set d k v ttl now) j now ≡ (if j == k then some v else live d j now)
  unfolding has_expired deadline
  live-set_now d k j v ttl now = ground (arith, live-set d k j v ttl now now)

  pub live-incr_now :
      ⦃n : Numeric V⦄ (d : Dict K (Entry V)) (k j : K) (amount ttl now : ℕ)
      → live (incr d k amount (some ttl) now).1 j now
        ≡ (if j == k then some (n.of_int (count_of (live d k now) + amount)) else live d j now)
  unfolding incr live has_expired deadline count_of
  live-incr_now ⦃n⦄ d k j amount ttl now =
      let entry = incr_entry (current (lookup k d) now) amount (some ttl) now in
      ground (arith, lookup-insert j k (n.of_int entry.0, entry.1) d)

  pub live-get_now :
      (d : Dict K (Entry V)) (k j : K) (now : ℕ) → live (get d k now).1 j now ≡ live d j now
  live-get_now d k j now = live-get d k j now now (omega arith)

  -- Nothing comes to life by waiting.
  pub live_later :
      (d : Dict K (Entry V)) (k : K) (now later : ℕ)
      → now ≤ later
      → (live d k later ≡ none) ⊎ (live d k later ≡ live d k now)
  unfolding live
  live_later d k now later h = elim (Option-cases (lookup k d)) [
    | inl e' ↦ inl (rw e' refl)
    | inr ((v, t), e') ↦ ground (arith, e', visible_later v t now later h)
  ]

pub ruleset store_laws =
    (get-eq-live, live-get_now, live-set_now, live-delete, incr_lem, live-incr_now)

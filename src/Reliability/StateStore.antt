-- ===== src/Reliability/StateStore.antt =====
-- framework/reliability/state_store.py: `InMemoryStateStore`. Each method holds the store's lock,
-- so it is one step; `now` is its reading of the clock in milliseconds, `ttl` is in seconds.
pub mod Live
use django_project_test.Base.{
  ℕ, ◌+◌, ◌*◌, ◌≡◌, Bool, true, false, ◌&&◌, Option, none, some, ltb, if◌then◌else◌, Eq, ◌==◌,
  nat_eq,
}
use django_project_test.Base.Dict.{Dict, lookup, insert, erase}

-- A value with the time at which it expires.
abbrev pub Entry : Type 0 → Type 0
Entry V = V × Option ℕ

-- `expire_at and time.time() > expire_at`
pub has_expired : Option ℕ → ℕ → Bool
has_expired none now = false
has_expired (some t) now = ltb 0 t && ltb t now

-- `time.time() + ttl if ttl else None`
pub deadline : Option ℕ → ℕ → Option ℕ
deadline none now = none
deadline (some ttl) now = if ttl == 0 then none else some (now + ttl * 1000)

-- What `int(v)` does with a stored value (`none` where it raises), and a number as a value.
pub record Numeric (V : Type 0) : Type 0 where
  pub to_int : V → Option ℕ
  pub of_int : ℕ → V

-- An entry that is there and has not expired.
current : {V : Type 0} → Option (Entry V) → ℕ → Option (Entry V)
unfolding has_expired
current none now = none
current (some (value, expire_at)) now =
    if has_expired expire_at now then none else some (value, expire_at)

-- `int(v[0]) + amount`, or `amount` where `int` raises
add_to : Option ℕ → ℕ → ℕ
add_to none amount = amount
add_to (some n) amount = n + amount

-- `v[1] if ttl is None else time.time() + ttl`
extend : Option ℕ → Option ℕ → ℕ → Option ℕ
extend expire_at none now = expire_at
extend expire_at (some ttl) now = some (now + ttl * 1000)

incr_entry : {V : Type 0} ⦃n : Numeric V⦄ → Option (Entry V) → ℕ → Option ℕ → ℕ → ℕ × Option ℕ
unfolding deadline add_to extend
incr_entry none amount ttl now = (amount, deadline ttl now)
incr_entry ⦃n⦄ (some (value, expire_at)) amount ttl now =
    (add_to (n.to_int value) amount, extend expire_at ttl now)

module _ {K V : Type 0} ⦃e : Eq K⦄ where
  get_entry : Option (Entry V) → Dict K (Entry V) → K → ℕ → Option V × Dict K (Entry V)
  get_entry none d key now = (none, d)
  get_entry (some (value, expire_at)) d key now =
      if has_expired expire_at now then (none, erase key d) else (some value, d)

  unfoldable pub get : Dict K (Entry V) → K → ℕ → Option V × Dict K (Entry V)
  unfolding get_entry has_expired
  get d key now = get_entry (lookup key d) d key now

  unfoldable pub set : Dict K (Entry V) → K → V → Option ℕ → ℕ → Dict K (Entry V)
  unfolding deadline
  set d key value ttl now = insert key (value, deadline ttl now) d

  unfoldable pub delete : Dict K (Entry V) → K → Dict K (Entry V)
  delete d key = erase key d

  unfoldable pub incr :
      ⦃n : Numeric V⦄ → Dict K (Entry V) → K → ℕ → Option ℕ → ℕ → ℕ × Dict K (Entry V)
  unfolding current incr_entry
  incr ⦃n⦄ d key amount ttl now =
      let (new_value, expire_at) = incr_entry (current (lookup key d) now) amount ttl now in
      (new_value, insert key (n.of_int new_value, expire_at) d)

  expire_entry : Option (Entry V) → Dict K (Entry V) → K → ℕ → ℕ → Dict K (Entry V)
  expire_entry none d key ttl now = d
  expire_entry (some (value, _)) d key ttl now = insert key (value, some (now + ttl * 1000)) d

  unfoldable pub expire : Dict K (Entry V) → K → ℕ → ℕ → Dict K (Entry V)
  unfolding expire_entry
  expire d key ttl now = expire_entry (lookup key d) d key ttl now

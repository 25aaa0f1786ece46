-- ===== src/Locks/Effects.antt =====
-- What one call of a lock object over an exclusive backend does to the holders of the names.
use django_project_test.Locks.Client
use django_project_test.Locks.Client.{RedisLock}
use django_project_test.Locks.{IsExclusive, LockBackend}
use django_project_test.Base.{
  refl, inl, string_eq, inr, ltb, ◌&&◌, Bool-cases, if◌then◌else◌, ◌==◌, false, some, ◌*◌, ◌⊎◌,
  true, none, ℕ, Bool, ◌≡◌, Option, String,
}

module _ (b : LockBackend) (holder : b.State → String → Option String)
    (laws : IsExclusive b holder) where
  -- What an operation of one lock object does to the others' view.
  abbrev pub Kept : RedisLock → b.State → RedisLock → b.State → Type 0
  Kept l s l' s' = (l'.held ≡ l.held) × ((n : String) → holder s' n ≡ holder s n)

  abbrev pub Taken : RedisLock → b.State → RedisLock → b.State → Type 0
  Taken l s l' s' =
      (holder s l.name ≡ none)
      × (holder s' l.name ≡ some l.owner)
      × ((n : String) → (n == l.name) ≡ false → holder s' n ≡ holder s n)

  abbrev pub Freed : RedisLock → b.State → RedisLock → b.State → Type 0
  Freed l s l' s' =
      (l.held ≡ true)
      × (l'.held ≡ false)
      × ((n : String) → (n == l.name) ≡ false → holder s' n ≡ holder s n)

  abbrev pub Change : RedisLock → b.State → RedisLock → b.State → Type 0
  Change l s l' s' =
      (l'.name ≡ l.name)
      × (l'.owner ≡ l.owner)
      × (Kept l s l' s' ⊎ (Taken l s l' s' ⊎ Freed l s l' s'))

  pub acquire-Change :
      (blocking : Bool) (l : RedisLock) (s : b.State)
      → (l.held ≡ true → holder s l.name ≡ some l.owner)
      → Change l s (Client.acquire b blocking l s).1 (Client.acquire b blocking l s).2
  unfolding Client.acquire
  acquire-Change blocking l s owned =
      let wait = if blocking then l.wait_ms else 0 in
      elim (Bool-cases (l.held && l.reentrant)) [
        | inl again ↦ rw again (refl, refl, inl (refl, λ n. refl))
        | inr first ↦ elim (Bool-cases (b.acquire s l.name l.owner (l.ttl * 1000) wait).0) [
          | inl taken ↦
              let (free, now_owned) = laws.acquired s l.name l.owner (l.ttl * 1000) wait taken in
              rw (first, taken)
                (
                  refl,
                  refl,
                  inr (
                      inl (
                        free,
                        now_owned,
                        λ n differ.
                            laws.acquire_apart s l.name l.owner (l.ttl * 1000) wait n differ,
                      )),
                )
          | inr refused ↦
              rw (first, refused)
                (
                  refl,
                  refl,
                  inl (refl, λ n. laws.refused s l.name l.owner (l.ttl * 1000) wait n refused),
                )
        ]
      ]

  pub release-Change :
      (l : RedisLock) (s : b.State)
      → (l.held ≡ true → holder s l.name ≡ some l.owner)
      → Change l s (Client.release b l s).1 (Client.release b l s).2
  unfolding Client.release
  release-Change l s owned = elim (Bool-cases l.held) [
    | inr idle ↦ rw idle (refl, refl, inl (refl, λ n. refl))
    | inl held ↦ elim (Bool-cases (ltb 1 l.reentrant_count)) [
      | inl more ↦ rw (held, more) (refl, refl, inl (refl, λ n. refl))
      | inr last ↦
          rw (held, last)
            (
              refl,
              refl,
              inr (inr (refl, refl, λ n differ. laws.release_apart s l.name l.owner n differ)),
            )
    ]
  ]

  pub renew-holder :
      (ttl : Option ℕ) (l : RedisLock) (s : b.State) (n : String)
      → holder (Client.renew b ttl l s).1 n ≡ holder s n
  unfolding Client.renew
  renew-holder none l s n = laws.renewed s l.name l.owner (l.ttl * 1000) n
  renew-holder (some ttl) l s n =
      laws.renewed s l.name l.owner ((if ltb 0 ttl then ttl else l.ttl) * 1000) n

-- ===== src/Locks.antt =====
-- framework/locks/core.py: lock backends, the reentrant lock object over a backend, and the lock
-- over several nodes. Times are in milliseconds.
mod Memory
mod Client
mod Effects
mod Exclusion
mod Quorum
mod Examples
use django_project_test.Base.{
  string_eq, String, ℕ, Bool, Option, ◌≡◌, ◌≢◌, true, false, none, some, Eq, ◌==◌,
}

-- The interface `LockBackend`. `State` is what the backend stores.
pub record LockBackend : Type 1 where
  pub State : Type 0
  pub acquire : State → String → String → ℕ → ℕ → Bool × State
  pub renew : State → String → String → ℕ → Bool × State
  pub release : State → String → String → Bool × State
  pub is_held : State → String → Bool

-- What the lock objects rely on, with the owner of each name as the abstract view: a lock is taken
-- only while it is free, given back only by its owner, and no call touches another name.
pub record IsExclusive (b : LockBackend) (holder : b.State → String → Option String) : Type 0 where
  pub acquired :
      (s : b.State) (name owner : String) (ttl wait : ℕ)
      → (b.acquire s name owner ttl wait).0 ≡ true
      → (holder s name ≡ none) × (holder (b.acquire s name owner ttl wait).1 name ≡ some owner)
  pub refused :
      (s : b.State) (name owner : String) (ttl wait : ℕ) (other : String)
      → (b.acquire s name owner ttl wait).0 ≡ false
      → holder (b.acquire s name owner ttl wait).1 other ≡ holder s other
  pub acquire_apart :
      (s : b.State) (name owner : String) (ttl wait : ℕ) (other : String)
      → (other == name) ≡ false
      → holder (b.acquire s name owner ttl wait).1 other ≡ holder s other
  pub released :
      (s : b.State) (name owner : String)
      → holder s name ≡ some owner
      → ((b.release s name owner).0 ≡ true) × (holder (b.release s name owner).1 name ≡ none)
  pub not_released :
      (s : b.State) (name owner other : String)
      → holder s name ≢ some owner
      → ((b.release s name owner).0 ≡ false)
        × (holder (b.release s name owner).1 other ≡ holder s other)
  pub release_apart :
      (s : b.State) (name owner other : String)
      → (other == name) ≡ false
      → holder (b.release s name owner).1 other ≡ holder s other
  pub renewed :
      (s : b.State) (name owner : String) (ttl : ℕ) (other : String)
      → holder (b.renew s name owner ttl).1 other ≡ holder s other

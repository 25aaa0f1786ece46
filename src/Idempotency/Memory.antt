-- ===== src/Idempotency/Memory.antt =====
-- `LocalMemoryIdempotencyBackend`. Each method holds the backend's lock, so it is one step.
pub mod Laws
use django_project_test.Base.Dict.{insert, erase, lookup, Dict}
use django_project_test.Base.{◌*◌, ◌+◌, none, string_eq, if◌then◌else◌, some, ℕ, Option, String}
use django_project_test.Idempotency.{is_expired, in_progress, IdempotencyStatus, IdempotencyRecord}

abbrev pub Store : Type 0 → Type 0
Store V = Dict String (IdempotencyRecord V)

-- A field that is `None` in the call keeps its value.
abbrev pub or_keep : {A : Type 0} → Option A → Option A → Option A
or_keep none old = old
or_keep (some a) old = some a

module _ {V : Type 0} where
  unfoldable pub fresh : String → String → ℕ → ℕ → String → IdempotencyRecord V
  fresh key fingerprint ttl now owner = record {
    key = key;
    fingerprint = fingerprint;
    status = in_progress;
    created_at = now;
    updated_at = now;
    response = none;
    error = none;
    owner = some owner;
    expires_at = some (now + ttl * 1000);
  }

  reserve_existing :
      Option (IdempotencyRecord V)
      → Store V
      → IdempotencyRecord V
      → ℕ
      → Option (IdempotencyRecord V) × Store V
  reserve_existing none store new now = (none, insert new.key new store)
  reserve_existing (some existing) store new now =
      if is_expired existing now then (none, insert new.key new store) else (some existing, store)

  unfoldable pub reserve :
      Store V → String → String → ℕ → ℕ → String → Option (IdempotencyRecord V) × Store V
  unfolding reserve_existing fresh
  reserve store key fingerprint ttl now owner =
      reserve_existing (lookup key store) store (fresh key fingerprint ttl now owner) now

  unfoldable pub updated :
      IdempotencyRecord V → IdempotencyStatus → Option V → Option String → ℕ → IdempotencyRecord V
  updated r status response error now = record r {
    status = status;
    updated_at = now;
    response = or_keep response r.response;
    error = or_keep error r.error;
  }

  update_existing :
      Option (IdempotencyRecord V)
      → Store V
      → String
      → IdempotencyStatus
      → Option V
      → Option String
      → ℕ
      → Store V
  unfolding updated
  update_existing none store key status response error now = store
  update_existing (some r) store key status response error now =
      insert key (updated r status response error now) store

  unfoldable pub update_status :
      Store V → String → IdempotencyStatus → Option V → Option String → ℕ → Store V
  unfolding update_existing
  update_status store key status response error now =
      update_existing (lookup key store) store key status response error now

  -- Unlike `reserve`, this does not look at the expiry time.
  unfoldable pub get : Store V → String → Option (IdempotencyRecord V)
  get store key = lookup key store

  unfoldable pub delete : Store V → String → Store V
  delete store key = erase key store

  abbrev unexpired : Option (IdempotencyRecord V) → ℕ → Option (IdempotencyRecord V)
  unexpired none now = none
  unexpired (some r) now = if is_expired r now then none else some r

  unfoldable pub found : Store V → String → ℕ → Option (IdempotencyRecord V)
  found store key now = unexpired (lookup key store) now

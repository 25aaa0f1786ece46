-- ===== src/Idempotency.antt =====
-- framework/idempotency/core.py: idempotency records, the in-memory backend that stores them, and the
-- context manager and decorator that run a function at most once for a key. Times are in milliseconds and
-- `ttl` is in seconds. A function's result is an `Option V`: `none` is Python's `None`.
pub mod Memory
pub mod Context
mod Laws
mod Once
mod Threads
mod Unprotected
mod Examples
use django_project_test.Base.{false, ℕ, String, Bool, Option, none, some, ltb, Eq}

pub data IdempotencyStatus : Type 0 where
  pending in_progress completed failed : IdempotencyStatus

pub record IdempotencyRecord (V : Type 0) : Type 0 where
  pub key : String
  pub fingerprint : String
  pub status : IdempotencyStatus
  pub created_at : ℕ
  pub updated_at : ℕ
  pub response : Option V
  pub error : Option String
  pub owner : Option String
  pub expires_at : Option ℕ

abbrev past : Option ℕ → ℕ → Bool
past none now = false
past (some t) now = ltb t now

unfoldable pub is_expired : {V : Type 0} → IdempotencyRecord V → ℕ → Bool
is_expired r now = past r.expires_at now

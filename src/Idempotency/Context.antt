-- ===== src/Idempotency/Context.antt =====
-- `idempotent_context` and the wrapper of `@idempotent`, over the in-memory backend.
use django_project_test.Idempotency.Memory
use django_project_test.Idempotency.Memory.{Store}
use django_project_test.Base.{
  string_eq, none, not, ◌==◌, some, false, true, if◌then◌else◌, Bool, ℕ, Option, String,
}
use django_project_test.Idempotency.{
  in_progress, failed, completed, IdempotencyRecord, IdempotencyStatus,
}

-- The arguments of `idempotent_context`; an empty fingerprint is replaced by the key.
pub record Request : Type 0 where
  pub key : String
  pub fingerprint : Option String
  pub ttl : ℕ
  pub raise_on_conflict : Bool

-- `fingerprint or key`
abbrev pub or_key : Option String → String → String
or_key none key = key
or_key (some fp) key = if fp == "" then key else fp

-- What `idempotent_context` does on entry: it raises, or yields a context that replays a stored
-- response, or yields one in which the caller is to do the work.
pub data Admission (V : Type 0) : Type 0 where
  empty_key : Admission V
  conflict : Admission V
  busy : Admission V
  replay : Option V → Admission V
  proceed : Admission V

module _ {V : Type 0} where
  -- The first comparison of the status.
  unfoldable pub if_completed : IdempotencyStatus → Option V → Option (Admission V)
  if_completed completed response = some (replay response)
  if_completed _ response = none

  -- The second one; the third, with `FAILED`, decides nothing.
  unfoldable pub if_in_progress : IdempotencyStatus → Admission V
  if_in_progress in_progress = busy
  if_in_progress _ = proceed

  -- All comparisons, of a record that does not change between them.
  unfoldable pub by_status : IdempotencyStatus → Option V → Admission V
  unfolding if_completed if_in_progress
  by_status status response = elim (if_completed status response) [
    | some a ↦ a
    | none ↦ if_in_progress status
  ]

  unfoldable pub admission : Option (IdempotencyRecord V) → String → Bool → Admission V
  unfolding by_status
  admission none fp raise_on_conflict = proceed
  admission (some existing) fp raise_on_conflict =
      if not (existing.fingerprint == fp)
      then (if raise_on_conflict then conflict else proceed)
      else by_status existing.status existing.response

  -- The entry up to the comparisons of the status; `none` where these are to decide.
  unfoldable pub start : Store V → Request → ℕ → String → Option (Admission V) × Store V
  start store q now owner =
      let fp = or_key q.fingerprint q.key in
      let (existing, store') = Memory.reserve store q.key fp q.ttl now owner in
      if q.key == "" then (some empty_key, store) else (
        elim existing [
          | none ↦ some proceed
          | some r ↦
              if not (r.fingerprint == fp)
              then some (if q.raise_on_conflict then conflict else proceed)
              else none
        ],
        store',
      )

  -- The whole entry of a call during which nothing else changes the record.
  unfoldable pub begin : Store V → Request → ℕ → String → Admission V × Store V
  unfolding admission
  begin store q now owner =
      let fp = or_key q.fingerprint q.key in
      let (existing, store') = Memory.reserve store q.key fp q.ttl now owner in
      if q.key == ""
      then (empty_key, store)
      else (admission existing fp q.raise_on_conflict, store')

-- How the work ended: its result, or the `repr` of the exception.
pub data Outcome (V : Type 0) : Type 0 where
  returned : Option V → Outcome V
  raised : String → Outcome V

module _ {V : Type 0} where
  -- `ctx.store(result)`
  unfoldable pub store_result : Store V → String → Option V → ℕ → Store V
  store_result store key result now = Memory.update_status store key completed result none now

  unfoldable pub delete_unless : Bool → Store V → String → Store V
  delete_unless true store key = store
  delete_unless false store key = Memory.delete store key

  -- `ctx.mark_failed(error, retryable)`
  unfoldable pub mark_failed : Store V → String → String → Bool → ℕ → Store V
  unfolding delete_unless
  mark_failed store key error retryable now =
      delete_unless retryable (Memory.update_status store key failed none (some error) now) key

  unfoldable pub finish : Store V → String → Outcome V → ℕ → Store V
  unfolding store_result mark_failed
  finish store key (returned result) now = store_result store key result now
  finish store key (raised error) now = mark_failed store key error true now

-- What the caller of a decorated function gets.
pub data Reply (V : Type 0) : Type 0 where
  result : Option V → Reply V
  exception : String → Reply V
  conflict_error : Reply V
  in_progress_error : Reply V
  value_error : Reply V

module _ {V : Type 0} where
  unfoldable pub reply_to : Outcome V → Reply V
  reply_to (returned r) = result r
  reply_to (raised e) = exception e

  unfoldable pub settle : Admission V → Store V → Request → Outcome V → ℕ → Bool × Reply V × Store V
  unfolding reply_to finish
  settle empty_key store q work later = (false, value_error, store)
  settle conflict store q work later = (false, conflict_error, store)
  settle busy store q work later = (false, in_progress_error, store)
  settle (replay r) store q work later = (false, result r, store)
  settle proceed store q work later = (true, reply_to work, finish store q.key work later)

  -- One call of a decorated function from `now` to `later`, with no other call in between. `work` is
  -- what the function would do; the first component says whether it ran.
  unfoldable pub invoke : Store V → Request → Outcome V → ℕ → ℕ → String → Bool × Reply V × Store V
  unfolding begin settle
  invoke store q work now later owner =
      let (admitted, store') = begin store q now owner in settle admitted store' q work later

-- ===== src/Reliability/Bulkhead.antt =====
-- `Bulkhead` of framework/reliability/bulkhead.py. The semaphore is its number of free slots; a call
-- that waits for a slot takes it, or gives up, in the step that ends its wait. The parts of `acquire`
-- and `call` are functions of their own, since other calls come between them.
mod Slots
mod Examples
use django_project_test.Base.{false, ◌-◌, true, ltb, ◌+◌, if◌then◌else◌, Bool, ℕ}

pub record Metrics : Type 0 where
  pub calls_total : ℕ
  pub calls_rejected : ℕ
  pub calls_completed : ℕ

pub record Bulkhead : Type 0 where
  pub max_concurrent : ℕ
  pub free : ℕ
  pub metrics : Metrics

abbrev pub initial : ℕ → Bulkhead
initial max_concurrent = record {
  max_concurrent = max_concurrent;
  free = max_concurrent;
  metrics = record { calls_total = 0; calls_rejected = 0; calls_completed = 0 };
}

-- `self.metrics["calls_total"] += 1`, where no other thread comes in between; and the other two.
unfoldable pub count_call : Bulkhead → Bulkhead
count_call b = record b { metrics = record b.metrics { calls_total = b.metrics.calls_total + 1 } }

unfoldable pub count_rejected : Bulkhead → Bulkhead
count_rejected b = record b {
  metrics = record b.metrics { calls_rejected = b.metrics.calls_rejected + 1 };
}

unfoldable pub count_completed : Bulkhead → Bulkhead
count_completed b = record b {
  metrics = record b.metrics { calls_completed = b.metrics.calls_completed + 1 };
}

-- `self._sem.acquire(...)`, at the moment that it answers
unfoldable pub take_slot : Bulkhead → Bool × Bulkhead
take_slot b = if ltb 0 b.free then (true, record b { free = b.free - 1 }) else (false, b)

after_take : Bool × Bulkhead → Bool × Bulkhead
after_take (true, b) = (true, b)
after_take (false, b) = (false, count_rejected b)

-- With no other call in between.
unfoldable pub acquire : Bulkhead → Bool × Bulkhead
unfolding after_take
acquire b = after_take (take_slot (count_call b))

-- A bounded semaphore refuses a release beyond its bound, and `release` ignores that.
unfoldable pub release : Bulkhead → Bulkhead
release b = if ltb b.free b.max_concurrent then record b { free = b.free + 1 } else b

-- The end of `call`, with no other call in between: whether the function returned, or raised.
unfoldable pub leave : Bulkhead → Bool → Bulkhead
leave b true = release (count_completed b)
leave b false = release b

-- ===== src/Reliability/Bulkhead/Examples.antt =====
-- Two calls in a bulkhead with one slot, whose first increments are one.
use django_project_test.Base.{arith, ◌≡◌, [], ◌∷◌, refl}
use django_project_test.Reliability.Bulkhead.{
  initial, acquire, take_slot, count_call, count_rejected,
}
use django_project_test.Reliability.Bulkhead.Slots.{
  reached-Bounded, Bounded, System, start, next, here, begins, takes, counts_call,
}

-- Both load `calls_total` before either stores, so that it shows 1 for two calls; one call runs.
abbrev two_calls : System
two_calls = record (start 1) {
  bulkhead = (take_slot (count_call (initial 1))).1;
  total = record { value = 1; loaded = []; stored = 2 };
  waiting = 1;
  running = 1;
}

reached-Bounded_example : Bounded 1 two_calls
unfolding take_slot count_call
reached-Bounded_example = reached-Bounded 1 (
    next
      (next (next (next (next here begins) begins) (counts_call 0 [] (0 ∷ []) refl))
        (counts_call 0 [] [] refl))
      (takes (omega arith) refl))

-- A call that finds no free slot is counted as rejected.
second_rejected :
    (acquire (acquire (initial 1)).1).1.metrics
    ≡ record { calls_total = 2; calls_rejected = 1; calls_completed = 0 }
unfolding acquire take_slot count_call count_rejected
second_rejected = refl

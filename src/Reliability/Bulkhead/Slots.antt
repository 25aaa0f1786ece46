-- ===== src/Reliability/Bulkhead/Slots.antt =====
-- The slots and the counters under any interleaving of the parts of calls. The semaphore acts at once;
-- the counters are increased without a lock.
use django_project_test.Base.{
  lt→ltb, refl, ltb, false, ◌-◌, true, ◌<◌, arith, ◌+◌, ◌≡◌, List, ℕ, ◌∷◌, ◌++◌,
}
use django_project_test.Reliability.Bulkhead.{release, take_slot, Bulkhead, initial}
use django_project_test.Reliability.Counter.{
  zero_counter, store_value, load_value, Behind, store_value-Behind, load_value-Behind, Counter,
}

-- The bulkhead, whose metrics are the values of the three counters, and the calls by where they are:
-- waiting for a slot, refused and about to count, running, about to count their return, and about to
-- release their slot.
pub record System : Type 0 where
  pub bulkhead : Bulkhead
  pub total : Counter
  pub rejected : Counter
  pub completed : Counter
  pub waiting : ℕ
  pub running : ℕ
  pub returned : ℕ
  pub ending : ℕ

abbrev with_total : Bulkhead → ℕ → Bulkhead
with_total b n = record b { metrics = record b.metrics { calls_total = n } }

abbrev with_rejected : Bulkhead → ℕ → Bulkhead
with_rejected b n = record b { metrics = record b.metrics { calls_rejected = n } }

abbrev with_completed : Bulkhead → ℕ → Bulkhead
with_completed b n = record b { metrics = record b.metrics { calls_completed = n } }

pub data Step (s : System) : System → Type 0 where
  begins : Step s (record s { total = load_value s.total })
  counts_call :
      (v : ℕ) (before after : List ℕ)
      → s.total.loaded ≡ before ++ v ∷ after
      → Step s (record s {
        total = store_value v (before ++ after) s.total;
        bulkhead = with_total s.bulkhead (v + 1);
        waiting = s.waiting + 1;
      })
  takes :
      0 < s.waiting
      → (take_slot s.bulkhead).0 ≡ true
      → Step s (record s {
        bulkhead = (take_slot s.bulkhead).1;
        waiting = s.waiting - 1;
        running = s.running + 1;
      })
  is_refused :
      0 < s.waiting
      → (take_slot s.bulkhead).0 ≡ false
      → Step s (record s { waiting = s.waiting - 1; rejected = load_value s.rejected })
  counts_rejected :
      (v : ℕ) (before after : List ℕ)
      → s.rejected.loaded ≡ before ++ v ∷ after
      → Step s (record s {
        rejected = store_value v (before ++ after) s.rejected;
        bulkhead = with_rejected s.bulkhead (v + 1);
      })
  returns :
      0 < s.running
      → Step s (record s {
        running = s.running - 1;
        returned = s.returned + 1;
        completed = load_value s.completed;
      })
  counts_completed :
      (v : ℕ) (before after : List ℕ)
      → 0 < s.returned
      → s.completed.loaded ≡ before ++ v ∷ after
      → Step s (record s {
        completed = store_value v (before ++ after) s.completed;
        bulkhead = with_completed s.bulkhead (v + 1);
        returned = s.returned - 1;
        ending = s.ending + 1;
      })
  raises : 0 < s.running → Step s (record s { running = s.running - 1; ending = s.ending + 1 })
  releases :
      0 < s.ending → Step s (record s { bulkhead = release s.bulkhead; ending = s.ending - 1 })

pub data Reach (s : System) : System → Type 0 where
  here : Reach s s
  next : {t u : System} → Reach s t → Step t u → Reach s u

abbrev pub start : ℕ → System
start max_concurrent = record {
  bulkhead = initial max_concurrent;
  total = zero_counter;
  rejected = zero_counter;
  completed = zero_counter;
  waiting = 0;
  running = 0;
  returned = 0;
  ending = 0;
}

-- A metric shows the value of its counter, which is not past the number of increments.
abbrev pub Shows : ℕ → Counter → Type 0
Shows n c = (n ≡ c.value) × Behind c

abbrev pub Bounded : ℕ → System → Type 0
Bounded max_concurrent s =
    (s.bulkhead.max_concurrent ≡ max_concurrent)
    × (s.bulkhead.free + s.running + s.returned + s.ending ≡ max_concurrent)
    × Shows s.bulkhead.metrics.calls_total s.total
    × Shows s.bulkhead.metrics.calls_rejected s.rejected
    × Shows s.bulkhead.metrics.calls_completed s.completed

taken : (b : Bulkhead) → (take_slot b).0 ≡ true → 0 < b.free
unfolding take_slot
taken b h = ground arith

Step-Bounded : (n : ℕ) {s t : System} → Step s t → Bounded n s → Bounded n t
unfolding take_slot release
Step-Bounded n {s} begins (bound, slots, t, r, c) =
    (bound, slots, (t.0, load_value-Behind s.total t.1), r, c)
Step-Bounded n {s} (counts_call w before after e) (bound, slots, t, r, c) =
    (bound, slots, (refl, store_value-Behind s.total w before after e t.1), r, c)
Step-Bounded n {s} (takes some_wait got) (bound, slots, t, r, c) =
    let some_free = taken s.bulkhead got in
    let space : ltb 0 s.bulkhead.free ≡ true = lt→ltb 0 s.bulkhead.free some_free in
    rw space (bound, omega arith, t, r, c)
Step-Bounded n {s} (is_refused some_wait full) (bound, slots, t, r, c) =
    (bound, slots, t, (r.0, load_value-Behind s.rejected r.1), c)
Step-Bounded n {s} (counts_rejected w before after e) (bound, slots, t, r, c) =
    (bound, slots, t, (refl, store_value-Behind s.rejected w before after e r.1), c)
Step-Bounded n {s} (returns some_run) (bound, slots, t, r, c) =
    (bound, omega arith, t, r, (c.0, load_value-Behind s.completed c.1))
Step-Bounded n {s} (counts_completed w before after some_back e) (bound, slots, t, r, c) =
    (bound, omega arith, t, r, (refl, store_value-Behind s.completed w before after e c.1))
Step-Bounded n {s} (raises some_run) (bound, slots, t, r, c) = (bound, omega arith, t, r, c)
Step-Bounded n {s} (releases some_end) (bound, slots, t, r, c) =
    let below : ltb s.bulkhead.free s.bulkhead.max_concurrent ≡ true =
      lt→ltb s.bulkhead.free s.bulkhead.max_concurrent (omega arith) in
    rw below (bound, omega arith, t, r, c)

-- However the parts of calls interleave, where an increment of a metric loads and stores in two steps:
-- the free slots and the calls that run or have not released their slot yet add up to
-- `max_concurrent`, so that no more calls run at once; and each metric is the value of its counter and
-- at most the number of its increments, of which some may have been lost.
pub reached-Bounded :
    (max_concurrent : ℕ) {s : System} → Reach (start max_concurrent) s → Bounded max_concurrent s
reached-Bounded n here = (
  refl,
  omega arith,
  (refl, (omega arith, tt)),
  (refl, (omega arith, tt)),
  (refl, (omega arith, tt)),
)
reached-Bounded n (next before st) = Step-Bounded n st (reached-Bounded n before)

-- ===== src/Locks/Memory.antt =====
-- `LocalMemoryLockBackend`: the owner of each held name. The mutex makes each try one step; what
-- other threads do while `acquire` sleeps is an argument.
use mathlib.Core.List.{mem-cons_self, mem-cons_of_mem}
use django_project_test.Base.Dict.{erase, insert, lookup, Dict}
use django_project_test.Base.{
  le→not-ltb, refl, inl, inr, Mem, Bool-cases, arith, ◌≡◌, length, ◌==◌, string_eq, [], ◌*◌, some,
  ltb, true, ◌≤◌, ◌∷◌, if◌then◌else◌, false, ◌+◌, none, List, Bool, Option, ℕ, String,
}

abbrev pub Locks : Type 0
Locks = Dict String String

-- `if name not in self._locks: self._locks[name] = owner`
unfoldable pub try_lock : Locks → String → String → Bool × Locks
try_lock locks name owner = elim (lookup name locks) [
  | none ↦ (true, insert name owner locks)
  | some _ ↦ (false, locks)
]

-- One round of the loop: what the clock shows at its test, and what the other threads have made of
-- the locks when this thread has the mutex again.
pub record Round : Type 0 where
  pub clock : ℕ
  pub others : Locks → Locks

-- `none`: the rounds given end before the loop does.
unfoldable pub poll : Locks → String → String → ℕ → List Round → Option (Bool × Locks)
poll locks name owner deadline [] = none
poll locks name owner deadline (r ∷ rs) =
    let seen = r.others locks in
    let (taken, after) = try_lock seen name owner in
    let rest = poll seen name owner deadline rs in
    if ltb r.clock deadline
    then (if taken then some (true, after) else rest)
    else some (false, locks)

unfoldable pub acquire : Locks → String → String → ℕ → ℕ → List Round → Option (Bool × Locks)
acquire locks name owner wait_ms started rounds =
    let (taken, after) = try_lock locks name owner in
    let rest = poll locks name owner (started + wait_ms) rounds in
    if taken then some (true, after) else rest

-- `self._locks.get(name) == owner`
abbrev pub owned_by : Option String → String → Bool
owned_by none owner = false
owned_by (some o) owner = o == owner

unfoldable pub renew : Locks → String → String → ℕ → Bool
renew locks name owner ttl_ms = owned_by (lookup name locks) owner

unfoldable pub release : Locks → String → String → Bool × Locks
release locks name owner =
    if owned_by (lookup name locks) owner then (true, erase name locks) else (false, locks)

unfoldable pub is_held : Locks → String → Bool
is_held locks name = elim (lookup name locks) [ none ↦ false | some _ ↦ true ]

-- Each round reads the clock at least 10 ms after the one before it, since it slept that long.
abbrev pub Sleeps : ℕ → List Round → Type 0
Sleeps last [] = Unit
Sleeps last (r ∷ rs) = (last + 10 ≤ r.clock) × Sleeps r.clock rs

poll_ends :
    (locks : Locks) (name owner : String) (deadline : ℕ) (r : Round) (rs : List Round)
    → Sleeps r.clock rs
    → deadline ≤ r.clock + 10 * length rs
    → (out : Bool × Locks) × (poll locks name owner deadline (r ∷ rs) ≡ some out)
unfolding poll
poll_ends locks name owner deadline r [] sl enough =
    ((false, locks), rw (le→not-ltb deadline r.clock (omega arith)) refl)
poll_ends locks name owner deadline r (r' ∷ rs) sl enough =
    let seen = r.others locks in
    let (out, e) = poll_ends seen name owner deadline r' rs sl.1 (omega arith) in
    elim (Bool-cases (ltb r.clock deadline)) [
      | inr over ↦ ((false, locks), rw over refl)
      | inl early ↦ elim (Bool-cases (try_lock seen name owner).0) [
        | inl taken ↦ ((true, (try_lock seen name owner).1), rw (early, taken) refl)
        | inr missed ↦ (out, rw (early, missed) e)
      ]
    ]

-- The wait ends: rounds that sleep at least 10 ms each, from a clock at or after the start, and
-- reaching past `wait_ms` in all, give `acquire` a result, whatever the other threads do.
pub acquire_ends :
    (locks : Locks) (name owner : String) (wait_ms started : ℕ) (r : Round) (rs : List Round)
    → started ≤ r.clock
    → Sleeps r.clock rs
    → wait_ms ≤ 10 * length rs
    → (out : Bool × Locks) × (acquire locks name owner wait_ms started (r ∷ rs) ≡ some out)
unfolding acquire
acquire_ends locks name owner wait_ms started r rs on_time sl enough =
    let (out, e) = poll_ends locks name owner (started + wait_ms) r rs sl (omega arith) in
    elim (Bool-cases (try_lock locks name owner).0) [
      | inl taken ↦ ((true, (try_lock locks name owner).1), rw taken refl)
      | inr missed ↦ (out, rw missed e)
    ]

pub try_lock_taken :
    (locks : Locks) (name owner : String)
    → (try_lock locks name owner).0 ≡ true
    → (lookup name locks ≡ none) × ((try_lock locks name owner).1 ≡ insert name owner locks)
unfolding try_lock
try_lock_taken locks name owner taken = ground arith

pub try_lock_missed :
    (locks : Locks) (name owner : String)
    → (try_lock locks name owner).0 ≡ false
    → (try_lock locks name owner).1 ≡ locks
unfolding try_lock
try_lock_missed locks name owner missed = ground arith

-- Why `acquire` returned: the name was free in the locks seen at that moment and now belongs to the
-- owner; or a round's clock had reached the deadline.
abbrev pub Explained : String → String → ℕ → List Round → Option (Bool × Locks) → Type 0
Explained name owner deadline rounds none = Unit
Explained name owner deadline rounds (some (true, after)) =
    (seen : Locks) × (lookup name seen ≡ none) × (after ≡ insert name owner seen)
Explained name owner deadline rounds (some (false, after)) =
    (r : Round) × Mem r rounds × (deadline ≤ r.clock)

Explained-cons :
    (name owner : String) (deadline : ℕ) (r : Round) (rs : List Round) (o : Option (Bool × Locks))
    → Explained name owner deadline rs o
    → Explained name owner deadline (r ∷ rs) o
Explained-cons name owner deadline r rs none h = tt
Explained-cons name owner deadline r rs (some (true, after)) h = h
Explained-cons name owner deadline r rs (some (false, after)) (x, m, late) =
    (x, mem-cons_of_mem r m, late)

poll-Explained :
    (locks : Locks) (name owner : String) (deadline : ℕ) (rounds : List Round)
    → Explained name owner deadline rounds (poll locks name owner deadline rounds)
unfolding poll
poll-Explained locks name owner deadline [] = tt
poll-Explained locks name owner deadline (r ∷ rs) =
    let seen = r.others locks in
    let rest = poll-Explained seen name owner deadline rs in
    elim (Bool-cases (ltb r.clock deadline)) [
      | inr over ↦ rw over (r, mem-cons_self, ground arith)
      | inl early ↦ elim (Bool-cases (try_lock seen name owner).0) [
        | inl taken ↦
            let (free, now_owned) = try_lock_taken seen name owner taken in
            rw (early, taken) (seen, free, now_owned)
        | inr missed ↦ rw (early, missed) (Explained-cons name owner deadline r rs _ rest)
      ]
    ]

-- A result of `acquire` has its reason: a lock that was given was free in the locks seen at that
-- moment and belongs to the owner from then on, and a refusal came at or after the deadline.
pub acquire-Explained :
    (locks : Locks) (name owner : String) (wait_ms started : ℕ) (rounds : List Round)
    → Explained name owner
        (started + wait_ms)
        rounds
        (acquire locks name owner wait_ms started rounds)
unfolding acquire
acquire-Explained locks name owner wait_ms started rounds =
    elim (Bool-cases (try_lock locks name owner).0) [
      | inl taken ↦
          let (free, now_owned) = try_lock_taken locks name owner taken in
          rw taken (locks, free, now_owned)
      | inr missed ↦ rw missed (poll-Explained locks name owner (started + wait_ms) rounds)
    ]

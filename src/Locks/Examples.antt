-- ===== src/Locks/Examples.antt =====
-- Runs of the locks on concrete data, and the in-memory backend as an exclusive one.
use django_project_test.Locks.Client
use django_project_test.Locks.Client.{RedisLock}
use django_project_test.Locks.Memory
use django_project_test.Locks.Memory.{
  try_lock_missed, try_lock_taken, Locks, Round, Sleeps, acquire_ends, acquire-Explained, try_lock,
  release, is_held, owned_by,
}
use django_project_test.Locks.Exclusion
use django_project_test.Locks.Quorum
use django_project_test.Locks.Quorum.{RedLock}
use django_project_test.Locks.{IsExclusive, LockBackend}
use django_project_test.Locks.Memory.{try_lock, Locks}
use django_project_test.Base.{
  zero, suc, ◌==◌, Bool-cases, inr, inl, Option-cases, ◌∙◌, some, ◌≤◌, nat_eq, ap, ◌≡◌, ◌∷◌, List,
  true, [], ℕ, false, refl, ==→≡, ==_refl, string_eq, Option, String,
}
use django_project_test.Base.Dict.{
  insert, lookup-erase, lookup-erase_self, lookup-insert, lookup-insert_self, lookup,
}

-- The in-memory backend with the try that decides: the waits before it are steps of other threads.
abbrev memory : LockBackend
memory = record {
  State = Locks;
  acquire = λ s name owner ttl wait. try_lock s name owner;
  renew = λ s name owner ttl. (Memory.renew s name owner ttl, s);
  release = release;
  is_held = is_held;
}

abbrev holder : Locks → String → Option String
holder s name = lookup name s

memory-IsExclusive : IsExclusive memory holder
unfolding try_lock Memory.renew release
memory-IsExclusive = record {
  acquired = λ s name owner ttl wait taken.
      let (free, after) = try_lock_taken s name owner taken in
      (free, ap (lookup name) after ∙ lookup-insert_self name owner s);
  refused = λ s name owner ttl wait other no. ap (lookup other) (try_lock_missed s name owner no);
  acquire_apart = λ s name owner ttl wait other differ.
      elim (Bool-cases (try_lock s name owner).0) [
        | inl taken ↦
            ap (lookup other) (try_lock_taken s name owner taken).1
            ∙ lookup-insert other name owner s
            ∙ rw differ refl
        | inr missed ↦ ap (lookup other) (try_lock_missed s name owner missed)
      ];
  released = λ s name owner own.
      let self = ==_refl owner in rw (own, self) (refl, lookup-erase_self name s);
  not_released = λ s name owner other not_own. elim (Option-cases (lookup name s)) [
    | inl free ↦ rw free (refl, refl)
    | inr (o, taken) ↦ elim (Bool-cases (o == owner)) [
      | inl same ↦ absurd (not_own (taken ∙ ap some (==→≡ o owner same)))
      | inr apart ↦ rw (taken, apart) (refl, refl)
    ]
  ];
  release_apart = λ s name owner other differ. elim (Bool-cases (owned_by (lookup name s) owner)) [
    | inl own ↦ rw own (lookup-erase other name s ∙ rw differ refl)
    | inr other_owner ↦ rw other_owner refl
  ];
  renewed = λ s name owner ttl other. refl;
}

abbrev lock_object : String → RedisLock
lock_object owner = record {
  name = "jobs";
  owner = owner;
  ttl = 30;
  wait_ms = 0;
  auto_renewal = false;
  reentrant = true;
  held = false;
  reentrant_count = 0;
  renewing = false;
}

-- Two objects of one name over an empty backend.
abbrev objects : ℕ → RedisLock
objects zero = lock_object "worker-1"
objects (suc _) = lock_object "worker-2"

abbrev idle : Exclusion.System memory
idle = record { state = []; locks = objects }

objects_idle : (i : ℕ) → (idle.locks i).held ≡ false
objects_idle zero = refl
objects_idle (suc i) = refl

abbrev held_object : RedisLock
held_object = record (lock_object "worker-1") { held = true; reentrant_count = 1 }

abbrev red_lock : String → RedLock
red_lock owner = record {
  name = "jobs";
  owner = owner;
  ttl = 30;
  quorum = 2;
  held = false;
  validity_ms = 0;
}

abbrev three_nodes : List Locks
three_nodes = [] ∷ [] ∷ [] ∷ []

-- Two of three nodes belong to another worker.
abbrev busy_nodes : List Locks
busy_nodes = (("jobs", "other") ∷ []) ∷ (("jobs", "other") ∷ []) ∷ [] ∷ []

abbrev round_at : ℕ → Round
round_at clock = record { clock = clock; others = λ s. s }

abbrev held_jobs : Locks
held_jobs = ("jobs", "other") ∷ []

mutual_exclusion_example :
    ◌≡◌ {A = ℕ} 0 0
    × (lookup "jobs" (Client.acquire memory true (lock_object "worker-1") []).2 ≡ some "worker-1")
unfolding Client.acquire try_lock lookup insert Exclusion.put nat_eq string_eq
mutual_exclusion_example =
    Exclusion.mutual_exclusion memory holder memory-IsExclusive idle _ objects_idle
      (Exclusion.next Exclusion.here (Exclusion.takes 0 true)) 0 0 refl refl refl

majority_excludes_example :
    (Quorum.acquire memory 1
      (red_lock "worker-2")
      (Quorum.acquire memory 1 (red_lock "worker-1") three_nodes).2).0
    ≡ false
unfolding Quorum.acquire Quorum.acquire_each Quorum.quorum_of try_lock lookup
majority_excludes_example =
    Quorum.majority_excludes memory holder memory-IsExclusive (red_lock "worker-1")
      (red_lock "worker-2") three_nodes 1 1 refl refl refl refl

failed_acquire_keeps_nodes_example :
    let (_, l', nodes') = Quorum.acquire memory 1 (red_lock "worker-1") busy_nodes in
    (Quorum.release memory l' nodes' ≡ (false, l', nodes'))
    × ((Quorum.acquire_each memory (red_lock "worker-1") busy_nodes).0
        ≤ Quorum.owned memory holder memory-IsExclusive "jobs" "worker-1" nodes')
unfolding Quorum.acquire Quorum.acquire_each Quorum.quorum_of try_lock lookup string_eq
failed_acquire_keeps_nodes_example =
    Quorum.failed_acquire_keeps_nodes memory holder memory-IsExclusive 1 (red_lock "worker-1")
      busy_nodes refl refl

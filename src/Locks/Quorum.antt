-- ===== src/Locks/Quorum.antt =====
-- `RedLock`: one lock over several nodes, each a backend of the same kind; held when a quorum of
-- them gave it.
use native.Mathlib.Omega.{arith}
use django_project_test.Base.{
  refl, ap, lt→ltb, ==_refl, ◌<◌, ◌≡◌, length, inr, inl, none, ◌-◌, leb, [], Bool-cases, false, not,
  ltb, some, ◌≤◌, true, if◌then◌else◌, ◌*◌, ◌+◌, ◌∷◌, ◌/◌, Bool, List, ℕ, Option, String,
}
use django_project_test.Locks.{IsExclusive, LockBackend}
use django_project_test.Locks.Memory.{owned_by}

pub record RedLock : Type 0 where
  pub name : String
  pub owner : String
  pub ttl : ℕ
  pub quorum : ℕ
  pub held : Bool
  pub validity_ms : ℕ

-- `quorum or (len(self.backends) // 2 + 1)`
unfoldable pub quorum_of : Option ℕ → ℕ → ℕ
quorum_of none nodes = nodes / 2 + 1
quorum_of (some quorum) nodes = if ltb 0 quorum then quorum else nodes / 2 + 1

module _ (b : LockBackend) where
  -- The loop of `acquire`: how many nodes gave the lock, and the nodes after it.
  unfoldable pub acquire_each : RedLock → List b.State → ℕ × List b.State
  acquire_each l [] = (0, [])
  acquire_each l (s ∷ nodes) =
      let (given, s') = b.acquire s l.name l.owner (l.ttl * 1000) 0 in
      let (count, nodes') = acquire_each l nodes in
      (if given then count + 1 else count, s' ∷ nodes')

  unfoldable pub release_each : RedLock → List b.State → ℕ × List b.State
  release_each l [] = (0, [])
  release_each l (s ∷ nodes) =
      let (freed, s') = b.release s l.name l.owner in
      let (count, nodes') = release_each l nodes in
      (if freed then count + 1 else count, s' ∷ nodes')

  unfoldable pub release : RedLock → List b.State → Bool × RedLock × List b.State
  release l nodes =
      let (released, nodes') = release_each l nodes in
      if not l.held
      then (false, l, nodes)
      else (leb l.quorum released, record l { held = false }, nodes')

  -- `elapsed_ms`: the time that the loop took. `max(0, ...)` is the subtraction of ℕ.
  unfoldable pub acquire : ℕ → RedLock → List b.State → Bool × RedLock × List b.State
  acquire elapsed_ms l nodes =
      let (acquired, nodes') = acquire_each l nodes in
      let (_, l', rolled_back) = release l nodes' in
      if ltb acquired l.quorum
      then (false, l', rolled_back)
      else (true, record l { held = true; validity_ms = l.ttl * 1000 - elapsed_ms - 2 }, nodes')

  module _ (holder : b.State → String → Option String) (laws : IsExclusive b holder) where
    is_free : Option String → Bool
    is_free none = true
    is_free (some _) = false

    free : String → List b.State → ℕ
    free name [] = 0
    free name (s ∷ nodes) =
        let rest = free name nodes in if is_free (holder s name) then rest + 1 else rest

    -- Two of the counts the exclusion goes by: no more nodes give a lock than were free, and as many
    -- fewer are free after it.
    acquire_each-free :
        (l : RedLock) (nodes : List b.State)
        → (acquire_each l nodes).0 + free l.name (acquire_each l nodes).1 ≤ free l.name nodes
    unfolding acquire_each free is_free
    acquire_each-free l [] = omega arith
    acquire_each-free l (s ∷ nodes) =
        let ih = acquire_each-free l nodes in
        let step = b.acquire s l.name l.owner (l.ttl * 1000) 0 in
        elim (Bool-cases step.0) [
          | inl given ↦
              let (was, now) = laws.acquired s l.name l.owner (l.ttl * 1000) 0 given in
              rw (given, was, now) (omega arith)
          | inr refused ↦
              let same = laws.refused s l.name l.owner (l.ttl * 1000) 0 l.name refused in
              rw (refused, same)
                (elim (Bool-cases (is_free (holder s l.name))) [
                  | inl e ↦ rw e (omega arith)
                  | inr e ↦ rw e (omega arith)
                ])
        ]

    free-length : (name : String) (nodes : List b.State) → free name nodes ≤ length nodes
    unfolding free
    free-length name [] = omega arith
    free-length name (s ∷ nodes) =
        let ih = free-length name nodes in
        elim (Bool-cases (is_free (holder s name))) [
          | inl e ↦ rw e (omega arith)
          | inr e ↦ rw e (omega arith)
        ]

    acquire_true :
        (elapsed_ms : ℕ) (l : RedLock) (nodes : List b.State)
        → (acquire elapsed_ms l nodes).0 ≡ true
        → (l.quorum ≤ (acquire_each l nodes).0)
          × ((acquire elapsed_ms l nodes).2 ≡ (acquire_each l nodes).1)
    unfolding acquire
    acquire_true elapsed_ms l nodes ok = elim (Bool-cases (ltb (acquire_each l nodes).0 l.quorum)) [
      | inl few ↦ ground arith
      | inr enough ↦ rw enough (ground arith, refl)
    ]

    acquire_false :
        (elapsed_ms : ℕ) (l : RedLock) (nodes : List b.State)
        → (acquire_each l nodes).0 < l.quorum
        → (acquire elapsed_ms l nodes).0 ≡ false
    unfolding acquire
    acquire_false elapsed_ms l nodes few = rw (lt→ltb _ _ few) refl

    -- Over exclusive backends, with the default quorum for the number of nodes: once one lock object has acquired, the
    -- acquisition of another one of the same name over the nodes as they are then is refused.
    pub majority_excludes :
        (l l' : RedLock) (nodes : List b.State) (elapsed_ms elapsed_ms' : ℕ)
        → l.quorum ≡ quorum_of none (length nodes)
        → l'.quorum ≡ quorum_of none (length nodes)
        → l'.name ≡ l.name
        → (acquire elapsed_ms l nodes).0 ≡ true
        → (acquire elapsed_ms' l' (acquire elapsed_ms l nodes).2).0 ≡ false
    unfolding quorum_of
    majority_excludes l l' nodes elapsed_ms elapsed_ms' majority majority' same ok =
        let (enough, after) = acquire_true elapsed_ms l nodes ok in
        let left = acquire_each-free l nodes in
        let bound = free-length l.name nodes in
        let nodes' = (acquire_each l nodes).1 in
        let mine = acquire_each-free l' nodes' in
        let names : free l'.name nodes' ≡ free l.name nodes' = ap (λ n. free n nodes') same in
        rw after (acquire_false elapsed_ms' l' nodes' (omega arith))

    unfoldable pub owned : String → String → List b.State → ℕ
    owned name owner [] = 0
    owned name owner (s ∷ nodes) =
        let rest = owned name owner nodes in
        if owned_by (holder s name) owner then rest + 1 else rest

    owned-acquire_each :
        (l : RedLock) (nodes : List b.State)
        → (acquire_each l nodes).0 ≤ owned l.name l.owner (acquire_each l nodes).1
    unfolding acquire_each owned
    owned-acquire_each l [] = omega arith
    owned-acquire_each l (s ∷ nodes) =
        let ih = owned-acquire_each l nodes in
        let step = b.acquire s l.name l.owner (l.ttl * 1000) 0 in
        elim (Bool-cases step.0) [
          | inl given ↦
              let (was, now) = laws.acquired s l.name l.owner (l.ttl * 1000) 0 given in
              rw (given, now, ==_refl l.owner) (omega arith)
          | inr refused ↦ rw refused (elim (Bool-cases (owned_by (holder step.1 l.name) l.owner)) [
            | inl e ↦ rw e (omega arith)
            | inr e ↦ rw e (omega arith)
          ])
        ]

    release_idle :
        (l : RedLock) (nodes : List b.State) → l.held ≡ false → release l nodes ≡ (false, l, nodes)
    unfolding release
    release_idle l nodes idle = ground arith

    -- Over exclusive backends, a refused `acquire` of an object that is not held gives no node back, and neither does a
    -- `release` after it: at least as many nodes as gave the lock name its owner as their holder.
    pub failed_acquire_keeps_nodes :
        (elapsed_ms : ℕ) (l : RedLock) (nodes : List b.State)
        → l.held ≡ false
        → (acquire elapsed_ms l nodes).0 ≡ false
        → let (_, l', nodes') = acquire elapsed_ms l nodes in
          (release l' nodes' ≡ (false, l', nodes'))
          × ((acquire_each l nodes).0 ≤ owned l.name l.owner nodes')
    unfolding acquire
    failed_acquire_keeps_nodes elapsed_ms l nodes idle refused =
        elim (Bool-cases (ltb (acquire_each l nodes).0 l.quorum)) [
          | inl few ↦
              rw
                (
                  few,
                  release_idle l (acquire_each l nodes).1 idle,
                  release_idle l (acquire_each l nodes).1 idle,
                )
                (refl, owned-acquire_each l nodes)
          | inr enough ↦ let no : true ≡ false = ground arith in cc
        ]

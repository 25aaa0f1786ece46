-- ===== src/Locks/Client.antt =====
-- `RedisLock`, the reentrant lock object, over any backend. The watchdog thread that renews the key
-- is a flag: its renewals change no owner.
use django_project_test.Base.{
  none, zero, ◌-◌, ltb, some, ◌+◌, not, ◌&&◌, suc, ◌*◌, false, true, if◌then◌else◌, ◌||◌, Option,
  Bool, ℕ, String,
}
use django_project_test.Locks.{LockBackend}

pub record RedisLock : Type 0 where
  pub name : String
  pub owner : String
  pub ttl : ℕ
  pub wait_ms : ℕ
  pub auto_renewal : Bool
  pub reentrant : Bool
  pub held : Bool
  pub reentrant_count : ℕ
  pub renewing : Bool

pub data Acquired : Type 0 where
  acquired : Acquired
  timeout_error : Acquired
  acquire_error : Acquired

module _ (b : LockBackend) where
  take : Bool → Bool × b.State → RedisLock → Acquired × RedisLock × b.State
  take blocking (true, s) l = (
    acquired,
    record l { held = true; reentrant_count = 1; renewing = l.renewing || l.auto_renewal },
    s,
  )
  take blocking (false, s) l = (if blocking then timeout_error else acquire_error, l, s)

  unfoldable pub acquire : Bool → RedisLock → b.State → Acquired × RedisLock × b.State
  unfolding take
  acquire blocking l s =
      if l.held && l.reentrant
      then (acquired, record l { reentrant_count = l.reentrant_count + 1 }, s)
      else take blocking
          (b.acquire s l.name l.owner (l.ttl * 1000) (if blocking then l.wait_ms else 0)) l

  -- `acquire(blocking=False)` with `LockAcquireError` caught
  is_acquired : Acquired → Bool
  is_acquired acquired = true
  is_acquired timeout_error = false
  is_acquired acquire_error = false

  unfoldable pub try_acquire : RedisLock → b.State → Bool × RedisLock × b.State
  unfolding is_acquired
  try_acquire l s = let (r, l', s') = acquire false l s in (is_acquired r, l', s')

  -- `ttl or self.ttl`
  unfoldable pub renew : Option ℕ → RedisLock → b.State → Bool × b.State
  renew none l s = b.renew s l.name l.owner (l.ttl * 1000)
  renew (some ttl) l s = b.renew s l.name l.owner ((if ltb 0 ttl then ttl else l.ttl) * 1000)

  let_go : Bool × b.State → RedisLock → Bool × RedisLock × b.State
  let_go (ok, s) l = (ok, record l { held = false; reentrant_count = 0; renewing = false }, s)

  unfoldable pub release : RedisLock → b.State → Bool × RedisLock × b.State
  unfolding let_go
  release l s =
      if not l.held
      then (false, l, s)
      else if ltb 1 l.reentrant_count
      then (true, record l { reentrant_count = l.reentrant_count - 1 }, s)
      else let_go (b.release s l.name l.owner) l

  unfoldable pub is_held : RedisLock → b.State → Bool
  is_held l s = l.held || b.is_held s l.name

  -- `n` further acquisitions by a holder, then `n` releases.
  pub acquire_more : ℕ → RedisLock → b.State → RedisLock × b.State
  acquire_more zero l s = (l, s)
  acquire_more (suc n) l s = let (r, l', s') = acquire true l s in acquire_more n l' s'

  pub release_times : ℕ → RedisLock → b.State → RedisLock × b.State
  release_times zero l s = (l, s)
  release_times (suc n) l s = let (r, l', s') = release l s in release_times n l' s'

  with_count : RedisLock → b.State → ℕ → RedisLock × b.State
  with_count l s n = (record l { reentrant_count = n }, s)

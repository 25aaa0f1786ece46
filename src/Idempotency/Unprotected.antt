-- ===== src/Idempotency/Unprotected.antt =====
-- Two situations in which a key does not protect its function.
use django_project_test.Idempotency.Memory
use django_project_test.Idempotency.Memory.{updated, Store}
use django_project_test.Idempotency.Context.{
  Reply, store_result, finish, result, Admission, returned, proceed, by_status, admission, begin,
  Request,
}
use django_project_test.Idempotency.{completed, is_expired, failed, IdempotencyRecord}
use django_project_test.Base.{
  Bool, ◌∙◌, sym, none, refl, string_eq, arith, ap, ◌≢◌, some, false, ◌≡◌, ◌==◌, String, ℕ,
}
use django_project_test.Idempotency.Once.{
  met_completed, met_ignored_conflict, invoke-found, met, invoke_call, stamp, Call,
}
use django_project_test.Idempotency.Memory.Laws.{lookup-update_status_self, reserve_taken}
use django_project_test.Base.Dict.{lookup}

module _ {V : Type 0} (store : Store V) (q : Request) (r : IdempotencyRecord V) where
  begin_failed :
      (now : ℕ) (owner : String)
      → (q.key == "") ≡ false
      → Memory.found store q.key now ≡ some r
      → r.fingerprint ≡ stamp q
      → r.status ≡ failed
      → begin store q now owner ≡ (proceed, store)
  unfolding begin admission by_status
  begin_failed now owner named there print status =
      rw (reserve_taken store q.key (stamp q) q.ttl now owner r there, named) (ground arith)

  -- While a key's record says FAILED, two workers that enter one after the other, before either has
  -- finished, are both let through to run the function.
  pub failed_key_admits_two :
      (now later : ℕ) (owner other : String)
      → (q.key == "") ≡ false
      → Memory.found store q.key now ≡ some r
      → Memory.found store q.key later ≡ some r
      → r.fingerprint ≡ stamp q
      → r.status ≡ failed
      → let (first, between) = begin store q now owner in
        (first ≡ proceed) × ((begin between q later other).0 ≡ proceed)
  failed_key_admits_two now later owner other named there still print status =
      rw (begin_failed now owner named there print status) (
        refl,
        ap (λ (b : Admission V × Store V). b.0) (begin_failed later other named still print status),
      )

module _ {V : Type 0} (store : Store V) (key : String) (r : IdempotencyRecord V) where
  lookup_of_found : (now : ℕ) → Memory.found store key now ≡ some r → lookup key store ≡ some r
  unfolding Memory.found
  lookup_of_found now there = ground arith

  found-finish :
      (v : V) (now later t : ℕ)
      → Memory.found store key now ≡ some r
      → is_expired r t ≡ false
      → Memory.found (finish store key (returned (some v)) later) key t
        ≡ some (updated r completed (some v) none later)
  unfolding Memory.found finish store_result is_expired updated
  found-finish v now later t there alive = ground (
    arith,
    lookup_of_found now there,
    lookup-update_status_self store key completed (some v) none later r,
  )

-- A call whose fingerprint differs runs with `raise_on_conflict=False` and replaces the stored
-- response: a later call with the first fingerprint is answered with the result of the other payload.
pub ignored_conflict_replaces_response :
    {V : Type 0} (store : Store V) (r : IdempotencyRecord V) (mine theirs : Call V) (v : V)
    → (mine.request.key == "") ≡ false
    → theirs.request.key ≡ mine.request.key
    → Memory.found store mine.request.key theirs.now ≡ some r
    → r.fingerprint ≡ stamp mine.request
    → stamp theirs.request ≢ stamp mine.request
    → theirs.request.raise_on_conflict ≡ false
    → theirs.work ≡ returned (some v)
    → is_expired r mine.now ≡ false
    → (invoke_call (invoke_call store theirs).2 mine).1 ≡ result (some v)
unfolding updated met
ignored_conflict_replaces_response store r mine theirs v named same there print other lax ret
      alive =
    let key = mine.request.key in
    let overwritten = finish store key (returned (some v)) theirs.later in
    let ran : invoke_call store theirs ≡ met store theirs.request theirs.work theirs.later r =
      invoke-found store theirs.request theirs.work theirs.now theirs.later theirs.owner r
        (rw same named) (rw same there) in
    let differ : r.fingerprint ≢ stamp theirs.request = λ e. other (sym e ∙ print) in
    let stored : (invoke_call store theirs).2 ≡ overwritten =
      ap (λ (x : Bool × Reply _ × Store _). x.2)
        (ran ∙ met_ignored_conflict store theirs.request theirs.work theirs.later r differ lax)
      ∙ cc (same, ret) in
    let answered =
      invoke-found overwritten mine.request mine.work mine.now mine.later mine.owner _ named
        (found-finish store key r v theirs.now theirs.later mine.now there alive)
      ∙ met_completed overwritten mine.request mine.work mine.later _ print refl in
    rw stored (ap (λ (x : Bool × Reply _ × Store _). x.1) answered)

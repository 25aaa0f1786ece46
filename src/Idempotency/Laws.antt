-- ===== src/Idempotency/Laws.antt =====
-- What a caller of a decorated function can rely on.
use django_project_test.Idempotency.Memory
use django_project_test.Idempotency.Context.{
  reply_to, proceed, admission, Admission, settle, raised, returned, mark_failed, store_result,
  or_key, Outcome, Request, invoke, finish, begin,
}
use django_project_test.Idempotency.Memory.{fresh, Store}
use django_project_test.Base.{refl, true, none, string_eq, ◌∙◌, arith, false, ◌≡◌, ◌==◌, String, ℕ}
use django_project_test.Base.Dict.{insert, lookup}
use django_project_test.Idempotency.Memory.Laws.{
  reserve_free, lookup-update_status_ne, lookup-reserve_ne,
}

module _ {V : Type 0} where
  pub lookup-begin_ne :
      (store : Store V) (q : Request) (now : ℕ) (owner j : String)
      → (j == q.key) ≡ false
      → lookup j (begin store q now owner).1 ≡ lookup j store
  unfolding begin
  lookup-begin_ne store q now owner j ne =
      ground (arith, lookup-reserve_ne store j q.key (or_key q.fingerprint q.key) q.ttl now owner)

  pub lookup-finish_ne :
      (store : Store V) (key : String) (o : Outcome V) (now : ℕ) (j : String)
      → (j == key) ≡ false
      → lookup j (finish store key o now) ≡ lookup j store
  unfolding finish store_result mark_failed
  lookup-finish_ne store key (returned r) now j ne =
      lookup-update_status_ne store j key _ _ _ now ne
  lookup-finish_ne store key (raised e) now j ne = lookup-update_status_ne store j key _ _ _ now ne

  lookup-settle_ne :
      (a : Admission V) (store : Store V) (q : Request) (w : Outcome V) (later : ℕ) (j : String)
      → (j == q.key) ≡ false
      → lookup j (settle a store q w later).2 ≡ lookup j store
  unfolding settle
  lookup-settle_ne proceed store q w later j ne = lookup-finish_ne store q.key w later j ne
  lookup-settle_ne _ store q w later j ne = refl

  pub lookup-invoke_ne :
      (store : Store V) (q : Request) (w : Outcome V) (now later : ℕ) (owner j : String)
      → (j == q.key) ≡ false
      → lookup j (invoke store q w now later owner).2 ≡ lookup j store
  unfolding invoke
  lookup-invoke_ne store q w now later owner j ne =
      let (a, store') = begin store q now owner in
      lookup-settle_ne a store' q w later j ne ∙ lookup-begin_ne store q now owner j ne

  -- A call whose function is to be found fresh reserves the key and, if the function returns a value,
  -- leaves a completed record that lives until the reservation expires.
  pub lookup-invoke-fresh :
      (store : Store V) (q : Request) (w : Outcome V) (now later : ℕ) (owner : String)
      → (q.key == "") ≡ false
      → Memory.found store q.key now ≡ none
      → invoke store q w now later owner ≡ (
        true,
        reply_to w,
        finish
            (insert q.key (fresh q.key (or_key q.fingerprint q.key) q.ttl now owner) store)
            q.key
            w
            later,
      )
  unfolding invoke begin settle admission
  lookup-invoke-fresh store q w now later owner named free =
      rw (reserve_free store q.key (or_key q.fingerprint q.key) q.ttl now owner free, named) refl

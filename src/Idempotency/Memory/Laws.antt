-- ===== src/Idempotency/Memory/Laws.antt =====
-- What the operations of the in-memory backend leave under a key.
use django_project_test.Idempotency.Memory
use django_project_test.Idempotency.Memory.{update_existing, fresh, updated, Store}
use django_project_test.Base.{
  inr, string_eq, inl, Option-cases, arith, some, none, false, Option, ◌≡◌, ◌==◌, ℕ, String,
}
use django_project_test.Idempotency.{IdempotencyRecord, IdempotencyStatus}
use django_project_test.Base.Dict.{lookup-insert_self, lookup-insert, insert, lookup-erase, lookup}

module _ {V : Type 0} (store : Store V) where
  pub lookup-reserve_ne :
      (j key fp : String) (ttl now : ℕ) (owner : String)
      → (j == key) ≡ false
      → lookup j (Memory.reserve store key fp ttl now owner).1 ≡ lookup j store
  unfolding Memory.reserve
  lookup-reserve_ne j key fp ttl now owner ne =
      ground (arith, lookup-insert j key (fresh key fp ttl now owner) store)

  pub lookup-update_status_ne :
      (j key : String) (s : IdempotencyStatus) (r : Option V) (e : Option String) (now : ℕ)
      → (j == key) ≡ false
      → lookup j (Memory.update_status store key s r e now) ≡ lookup j store
  unfolding Memory.update_status
  lookup-update_status_ne j key s r e now ne = elim (Option-cases (lookup key store)) [
    | inl missing ↦ rw (missing, update_existing)
    | inr (old, there) ↦ rw (there, update_existing) (simp (lookup-insert, ne))
  ]

  pub lookup-delete_ne :
      (j key : String) → (j == key) ≡ false → lookup j (Memory.delete store key) ≡ lookup j store
  unfolding Memory.delete
  lookup-delete_ne j key ne = simp (lookup-erase, ne)

  -- A key with no unexpired record is reserved, and otherwise the record found is handed out.
  pub reserve_free :
      (key fp : String) (ttl now : ℕ) (owner : String)
      → Memory.found store key now ≡ none
      → Memory.reserve store key fp ttl now owner
        ≡ (none, insert key (fresh key fp ttl now owner) store)
  unfolding Memory.reserve Memory.found
  reserve_free key fp ttl now owner free = ground arith

  pub reserve_taken :
      (key fp : String) (ttl now : ℕ) (owner : String) (r : IdempotencyRecord V)
      → Memory.found store key now ≡ some r
      → Memory.reserve store key fp ttl now owner ≡ (some r, store)
  unfolding Memory.reserve Memory.found
  reserve_taken key fp ttl now owner r taken = ground arith

  pub lookup-update_status_self :
      (key : String) (s : IdempotencyStatus) (resp : Option V) (e : Option String) (now : ℕ)
      (r : IdempotencyRecord V)
      → lookup key store ≡ some r
      → lookup key (Memory.update_status store key s resp e now) ≡ some (updated r s resp e now)
  unfolding Memory.update_status
  lookup-update_status_self key s resp e now r there =
      rw (there, update_existing) (lookup-insert_self key (updated r s resp e now) store)

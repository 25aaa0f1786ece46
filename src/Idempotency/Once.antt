-- ===== src/Idempotency/Once.antt =====
-- At most one run for a key: replay, conflict, concurrent calls and retries after a failure.
use django_project_test.Idempotency.Memory
use django_project_test.Idempotency.Context.{
  conflict_error, in_progress_error, reply_to, result, by_status, admission, raised, settle,
  returned, mark_failed, Reply, begin, store_result, or_key, invoke, finish, Outcome, Request,
}
use django_project_test.Idempotency.Memory.{fresh, updated, Store}
use django_project_test.Base.{
  sym, ◌≢◌, true, arith, ◌*◌, ◌+◌, ◌≤◌, refl, string_eq, some, none, ◌∙◌, false, [], ◌≡◌, ◌==◌, All,
  ◌∷◌, List, Bool, ℕ, String,
}
use django_project_test.Idempotency.{in_progress, is_expired, failed, completed, IdempotencyRecord}
use django_project_test.Base.Dict.{lookup-insert_self, lookup}
use django_project_test.Idempotency.Laws.{lookup-invoke-fresh, lookup-invoke_ne}
use django_project_test.Idempotency.Memory.Laws.{reserve_taken, lookup-update_status_self}

-- A call of some decorated function, with what the function would do.
pub record Call (V : Type 0) : Type 0 where
  pub request : Request
  pub work : Outcome V
  pub now : ℕ
  pub later : ℕ
  pub owner : String

abbrev pub invoke_call : {V : Type 0} → Store V → Call V → Bool × Reply V × Store V
invoke_call store c = invoke store c.request c.work c.now c.later c.owner

pub run_calls : {V : Type 0} → Store V → List (Call V) → Store V
run_calls store [] = store
run_calls store (c ∷ cs) = run_calls (invoke_call store c).2 cs

abbrev pub OtherKeys : {V : Type 0} → String → List (Call V) → Type 0
OtherKeys key cs = All (λ c. (key == c.request.key) ≡ false) cs

-- The fingerprint under which a request is stored.
abbrev pub stamp : Request → String
stamp q = or_key q.fingerprint q.key

-- The record of a call whose function has ended.
unfoldable pub ended : {V : Type 0} → Outcome V → IdempotencyRecord V → ℕ → IdempotencyRecord V
ended (returned r) f later = updated f completed r none later
ended (raised e) f later = updated f failed none (some e) later

expires-ended :
    {V : Type 0} (w : Outcome V) (f : IdempotencyRecord V) (later : ℕ)
    → (ended w f later).expires_at ≡ f.expires_at
unfolding ended updated
expires-ended (returned r) f later = refl
expires-ended (raised e) f later = refl

print-ended :
    {V : Type 0} (w : Outcome V) (f : IdempotencyRecord V) (later : ℕ)
    → (ended w f later).fingerprint ≡ f.fingerprint
unfolding ended updated
print-ended (returned r) f later = refl
print-ended (raised e) f later = refl

ended_raised :
    {V : Type 0} (w : Outcome V) (f : IdempotencyRecord V) (later : ℕ) (error : String)
    → w ≡ raised error
    → (ended w f later).status ≡ failed
unfolding ended updated
ended_raised w f later error e = ground arith

module _ {V : Type 0} where
  lookup-run_calls :
      (store : Store V) (cs : List (Call V)) (key : String)
      → OtherKeys key cs
      → lookup key (run_calls store cs) ≡ lookup key store
  unfolding run_calls
  lookup-run_calls store [] key h = refl
  lookup-run_calls store (c ∷ cs) key h =
      lookup-run_calls (invoke_call store c).2 cs key h.1
      ∙ lookup-invoke_ne store c.request c.work c.now c.later c.owner key h.0

  lookup-finish_fresh :
      (store : Store V) (q : Request) (w : Outcome V) (now later : ℕ) (owner : String)
      → (q.key == "") ≡ false
      → Memory.found store q.key now ≡ none
      → lookup q.key (invoke store q w now later owner).2
        ≡ some (ended w (fresh q.key (stamp q) q.ttl now owner) later)
  unfolding finish store_result mark_failed ended
  lookup-finish_fresh store q (returned r) now later owner named free =
      rw (lookup-invoke-fresh store q (returned r) now later owner named free) (
        lookup-update_status_self _ q.key completed r none later _
          (lookup-insert_self q.key (fresh q.key (stamp q) q.ttl now owner) store))
  lookup-finish_fresh store q (raised e) now later owner named free =
      rw (lookup-invoke-fresh store q (raised e) now later owner named free) (
        lookup-update_status_self _ q.key failed none (some e) later _
          (lookup-insert_self q.key (fresh q.key (stamp q) q.ttl now owner) store))

  -- A later call that finds the record of an earlier one.
  pub invoke-found :
      (store : Store V) (q : Request) (w : Outcome V) (now later : ℕ) (owner : String)
      (r : IdempotencyRecord V)
      → (q.key == "") ≡ false
      → Memory.found store q.key now ≡ some r
      → invoke store q w now later owner
        ≡ settle (admission (some r) (stamp q) q.raise_on_conflict) store q w later
  unfolding invoke begin
  invoke-found store q w now later owner r named there =
      rw (reserve_taken store q.key (stamp q) q.ttl now owner r there, named) refl

module _ {V : Type 0} (store : Store V) (q : Request) (w : Outcome V) (later : ℕ) where
  module _ (r : IdempotencyRecord V) where
    unfoldable pub met : Bool × Reply V × Store V
    met = settle (admission (some r) (stamp q) q.raise_on_conflict) store q w later

    pub met_completed :
        r.fingerprint ≡ stamp q → r.status ≡ completed → met ≡ (false, result r.response, store)
    unfolding met settle admission by_status
    met_completed print status = ground arith

    pub met_failed :
        r.fingerprint ≡ stamp q
        → r.status ≡ failed
        → met ≡ (true, reply_to w, finish store q.key w later)
    unfolding met settle admission by_status
    met_failed print status = ground arith

    pub met_busy :
        r.fingerprint ≡ stamp q → r.status ≡ in_progress → met ≡ (false, in_progress_error, store)
    unfolding met settle admission by_status
    met_busy print status = ground arith

    pub met_conflict :
        r.fingerprint ≢ stamp q → q.raise_on_conflict ≡ true → met ≡ (false, conflict_error, store)
    unfolding met settle admission
    met_conflict print strict = ground arith

    pub met_ignored_conflict :
        r.fingerprint ≢ stamp q
        → q.raise_on_conflict ≡ false
        → met ≡ (true, reply_to w, finish store q.key w later)
    unfolding met settle admission
    met_ignored_conflict print lax = ground arith

-- The store after a first call for a key and any calls for other keys.
abbrev pub after : {V : Type 0} → Store V → Call V → List (Call V) → Store V
after store first others = run_calls (invoke_call store first).2 others

-- The first call finds no record of its non-empty key, and the other calls use other keys.
pub record IsFirst {V : Type 0} (store : Store V) (first : Call V) (others : List (Call V))
    : Type 0 where
  pub named : (first.request.key == "") ≡ false
  pub free : Memory.found store first.request.key first.now ≡ none
  pub apart : OtherKeys first.request.key others

module _ {V : Type 0} (store : Store V) (first : Call V) (others : List (Call V)) where
  found-after :
      (t : ℕ)
      → IsFirst store first others
      → t ≤ first.now + first.request.ttl * 1000
      → Memory.found (after store first others) first.request.key t
        ≡ some (
            ended first.work
              (fresh first.request.key
                (stamp first.request)
                first.request.ttl
                first.now
                first.owner)
              first.later)
  unfolding Memory.found is_expired fresh
  found-after t h alive =
      let reserved : IdempotencyRecord V =
        fresh first.request.key (stamp first.request) first.request.ttl first.now first.owner in
      let there =
        lookup-run_calls (invoke_call store first).2 others first.request.key h.apart
        ∙ lookup-finish_fresh store first.request first.work first.now first.later first.owner
            h.named h.free in
      ground (arith, there, expires-ended first.work reserved first.later)

  -- The record that the first call leaves.
  first_record : IdempotencyRecord V
  first_record =
      ended first.work
        (fresh first.request.key (stamp first.request) first.request.ttl first.now first.owner)
        first.later

  first_print : first_record.fingerprint ≡ stamp first.request
  unfolding first_record fresh
  first_print = print-ended first.work _ first.later

  first_raised : (error : String) → first.work ≡ raised error → first_record.status ≡ failed
  unfolding first_record
  first_raised error e = ended_raised first.work _ first.later error e

  module _ (c : Call V) (same_key : c.request.key ≡ first.request.key) where
    invoke_after :
        IsFirst store first others
        → c.now ≤ first.now + first.request.ttl * 1000
        → invoke_call (after store first others) c
          ≡ met (after store first others) c.request c.work c.later first_record
    unfolding met first_record
    invoke_after h alive =
        invoke-found (after store first others) c.request c.work c.now c.later c.owner _
          (rw same_key h.named) (rw same_key (found-after c.now h alive))

    -- With another fingerprint the call raises, does not run its function and changes nothing,
    -- however the first call ended.
    pub conflict_after_first :
        IsFirst store first others
        → stamp c.request ≢ stamp first.request
        → c.request.raise_on_conflict ≡ true
        → c.now ≤ first.now + first.request.ttl * 1000
        → invoke_call (after store first others) c
          ≡ (false, conflict_error, after store first others)
    conflict_after_first h other_print strict alive =
        invoke_after h alive
        ∙ met_conflict (after store first others) c.request c.work c.later first_record
            (λ e. other_print (sym e ∙ first_print)) strict

    -- After a first call that raised, a call with the same key and fingerprint runs its function and
    -- stores how that ended.
    pub retry_after_exception :
        (error : String)
        → IsFirst store first others
        → first.work ≡ raised error
        → stamp c.request ≡ stamp first.request
        → c.now ≤ first.now + first.request.ttl * 1000
        → invoke_call (after store first others) c
          ≡ (true, reply_to c.work, finish (after store first others) c.request.key c.work c.later)
    retry_after_exception error h fails same_print alive =
        invoke_after h alive
        ∙ met_failed (after store first others) c.request c.work c.later first_record
            (first_print ∙ sym same_print) (first_raised error fails)

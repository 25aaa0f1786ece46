-- ===== src/Idempotency/Threads.antt =====
-- Workers that call one decorated function with the same request at the same time. The reservation,
-- each of the two comparisons of the status of the stored record, which the workers share, and the
-- storing of the result are separate steps; calls for other keys come in between.
use mathlib.Core.Option.{some-injective}
use django_project_test.Idempotency.Memory
use django_project_test.Idempotency.Memory.{updated, fresh, Store}
use django_project_test.Idempotency.Context.{
  if_in_progress, if_completed, start, store_result, Outcome, returned, finish, or_key, proceed,
  begin, Request, Admission,
}
use django_project_test.Base.{
  subst, sym, nat_eq, if◌then◌else◌, ==_refl, ◌-◌, ◌∙◌, refl, arith, ◌<◌, string_eq, inr, Option,
  inl, some, ◌⊎◌, ◌*◌, false, none, ◌+◌, ◌≡◌, ◌≤◌, ◌==◌, String, ℕ,
}
use django_project_test.Idempotency.{
  IdempotencyStatus, is_expired, completed, in_progress, IdempotencyRecord,
}
use django_project_test.Base.Dict.{lookup-insert_self, insert, lookup}
use django_project_test.Idempotency.Memory.Laws.{
  lookup-update_status_self, reserve_free, reserve_taken,
}
use django_project_test.Idempotency.Laws.{lookup-finish_ne, lookup-begin_ne}

pub record System (V : Type 0) : Type 0 where
  pub store : Store V
  -- How many workers were let through to run the function, and how many runs returned.
  pub runs : ℕ
  pub returns : ℕ
  -- How many workers are before the first comparison, and how many before the second.
  pub before_first : ℕ
  pub before_second : ℕ
  -- How many were before the second when the first run returned.
  pub caught : ℕ

abbrev pub let_through : {V : Type 0} → Admission V → ℕ
let_through proceed = 1
let_through _ = 0

abbrev pub run_of : {V : Type 0} → Option (Admission V) → ℕ
run_of none = 0
run_of (some a) = let_through a

abbrev pub undecided : {V : Type 0} → Option (Admission V) → ℕ
undecided none = 1
undecided (some a) = 0

-- `opens` is the time before which nothing happens; the reservation of a worker that enters then or
-- later lives until `opens + ttl` at least.
pub data Step (V : Type 0) (q : Request) (opens : ℕ) (s : System V) : System V → Type 0 where
  enters :
      (now : ℕ) (owner : String)
      → opens ≤ now
      → now ≤ opens + q.ttl * 1000
      → Step V q opens s (record s {
        store = (start s.store q now owner).1;
        runs = s.runs + run_of (start s.store q now owner).0;
        before_first = s.before_first + undecided (start s.store q now owner).0;
      })
  first_reads :
      (r : IdempotencyRecord V)
      → lookup q.key s.store ≡ some r
      → 0 < s.before_first
      → Step V q opens s (record s {
        before_first = s.before_first - 1;
        before_second = s.before_second + undecided (if_completed r.status r.response);
      })
  second_reads :
      (r : IdempotencyRecord V)
      → lookup q.key s.store ≡ some r
      → 0 < s.before_second
      → Step V q opens s (record s {
        before_second = s.before_second - 1;
        runs = s.runs + let_through (if_in_progress {V = V} r.status);
      })
  returns :
      (r : Option V) (now : ℕ)
      → s.returns < s.runs
      → Step V q opens s (record s {
        store = finish s.store q.key (returned r) now;
        returns = s.returns + 1;
        caught = if s.returns == 0 then s.before_second else s.caught;
      })
  other_enters :
      (other : Request) (now : ℕ) (owner : String)
      → (q.key == other.key) ≡ false
      → Step V q opens s (record s { store = (begin s.store other now owner).1 })
  other_ends :
      (other : String) (w : Outcome V) (now : ℕ)
      → (q.key == other) ≡ false
      → Step V q opens s (record s { store = finish s.store other w now })

pub data Reach (V : Type 0) (q : Request) (opens : ℕ) (s : System V) : System V → Type 0 where
  here : Reach V q opens s s
  next : {t u : System V} → Reach V q opens s t → Step V q opens t u → Reach V q opens s u

abbrev pub no_worker : {V : Type 0} → Store V → System V
no_worker store = record {
  store = store;
  runs = 0;
  returns = 0;
  before_first = 0;
  before_second = 0;
  caught = 0;
}

-- The record is that of the worker that was let through.
record IsHeld {V : Type 0} (q : Request) (until : ℕ) (r : IdempotencyRecord V) : Type 0 where
  print : r.fingerprint ≡ or_key q.fingerprint q.key
  alive : (t : ℕ) → t ≤ until → is_expired r t ≡ false

abbrev Phase : {V : Type 0} → System V → IdempotencyStatus → Type 0
Phase s status =
    ((status ≡ in_progress) × (s.returns ≡ 0) × (s.runs ≡ 1) × (s.caught ≡ 0))
    ⊎ ((status ≡ completed) × (0 < s.returns) × (s.runs + s.before_second ≤ 1 + s.caught))

abbrev Idle : {V : Type 0} → System V → Type 0
Idle s =
    (s.runs ≡ 0) × (s.returns ≡ 0) × (s.before_first ≡ 0) × (s.before_second ≡ 0) × (s.caught ≡ 0)

abbrev Inv : {V : Type 0} → Request → ℕ → System V → Type 0
Inv {V} q opens s =
    ((lookup q.key s.store ≡ none) × Idle s)
    ⊎ ((r : IdempotencyRecord V) × (lookup q.key s.store ≡ some r)
        × IsHeld q (opens + q.ttl * 1000) r
        × Phase s r.status)

module _ (V : Type 0) (q : Request) (opens : ℕ) where
  start_first :
      (s : System V) (now : ℕ) (owner : String)
      → (q.key == "") ≡ false
      → lookup q.key s.store ≡ none
      → start s.store q now owner ≡ (
        some proceed,
        insert q.key (fresh q.key (or_key q.fingerprint q.key) q.ttl now owner) s.store,
      )
  unfolding start
  start_first s now owner named free =
      rw
        (
          reserve_free s.store q.key (or_key q.fingerprint q.key) q.ttl now owner
              (unfold Memory.found in rw free refl),
          named,
        )
        refl

  start_held :
      (s : System V) (now : ℕ) (owner : String) (r : IdempotencyRecord V)
      → (q.key == "") ≡ false
      → lookup q.key s.store ≡ some r
      → IsHeld q (opens + q.ttl * 1000) r
      → now ≤ opens + q.ttl * 1000
      → start s.store q now owner ≡ (none, s.store)
  unfolding start
  start_held s now owner r named there held soon =
      let seen : Memory.found s.store q.key now ≡ some r =
        unfold Memory.found in rw there (rw (held.alive now soon) refl) in
      rw
        (
          reserve_taken s.store q.key (or_key q.fingerprint q.key) q.ttl now owner r seen,
          named,
          held.print,
          ==_refl {A = String} (or_key q.fingerprint q.key),
        )
        refl

  fresh-IsHeld :
      (now : ℕ) (owner : String)
      → opens ≤ now
      → IsHeld {V = V} q
          (opens + q.ttl * 1000)
          (fresh q.key (or_key q.fingerprint q.key) q.ttl now owner)
  unfolding fresh is_expired
  fresh-IsHeld now owner early = record { print = refl; alive = λ t h. ground arith }

  updated-IsHeld :
      (r : IdempotencyRecord V) (response : Option V) (now until : ℕ)
      → IsHeld q until r
      → IsHeld q until (updated r completed response none now)
  unfolding updated is_expired
  updated-IsHeld r response now until held = record { print = held.print; alive = held.alive }

  updated-status :
      (r : IdempotencyRecord V) (response : Option V) (now : ℕ)
      → (updated r completed response none now).status ≡ completed
  unfolding updated
  updated-status r response now = refl

  fresh-status :
      (now : ℕ) (owner : String)
      → (fresh {V = V} q.key (or_key q.fingerprint q.key) q.ttl now owner).status ≡ in_progress
  unfolding fresh
  fresh-status now owner = refl

  Inv-lookup :
      (s : System V) (store : Store V)
      → lookup q.key store ≡ lookup q.key s.store
      → Inv q opens s
      → Inv q opens (record s { store = store })
  Inv-lookup s store same (inl (free, idle)) = inl (same ∙ free, idle)
  Inv-lookup s store same (inr (r, there, held, phase)) = inr (r, same ∙ there, held, phase)

  -- The step of a worker that compares the status first, or second.
  first-Phase :
      (s : System V) (status : IdempotencyStatus) (response : Option V)
      → Phase s status
      → Phase
          (record s {
            before_first = s.before_first - 1;
            before_second = s.before_second + undecided (if_completed status response);
          })
          status
  unfolding if_completed
  first-Phase s status response (inl (e, none_back, one, zero_caught)) =
      inl (e, none_back, one, zero_caught)
  first-Phase s status response (inr (e, back, bound)) = inr (e, back, rw e (omega (arith, bound)))

  second-Phase :
      (s : System V) (status : IdempotencyStatus)
      → 0 < s.before_second
      → Phase s status
      → Phase
          (record s {
            before_second = s.before_second - 1;
            runs = s.runs + let_through (if_in_progress {V = V} status);
          })
          status
  unfolding if_in_progress
  second-Phase s status some_left (inl (e, none_back, one, zero_caught)) =
      inl (e, none_back, rw e (omega (arith, one)), zero_caught)
  second-Phase s status some_left (inr (e, back, bound)) =
      inr (e, back, rw e (omega (arith, bound)))

  returned-bound :
      (s : System V) (status : IdempotencyStatus)
      → Phase s status
      → s.runs + s.before_second ≤ 1 + (if s.returns == 0 then s.before_second else s.caught)
  unfolding nat_eq
  returned-bound s status (inl (_, none_back, one, _)) = rw none_back (omega (arith, one))
  returned-bound s status (inr (_, back, bound)) = ground (arith, back, bound)

  Step-Inv :
      {s t : System V} → (q.key == "") ≡ false → Step V q opens s t → Inv q opens s → Inv q opens t
  Step-Inv {s} named (enters now owner early soon) (inl (free, (none_run, none_back, _, _, calm))) =
      rw (start_first s now owner named free) (
        inr (
          fresh q.key (or_key q.fingerprint q.key) q.ttl now owner,
          lookup-insert_self q.key _ s.store,
          fresh-IsHeld now owner early,
          inl (fresh-status now owner, none_back, omega (arith, none_run), calm),
        ))
  Step-Inv {s} named (enters now owner early soon) (inr (r, there, held, inl (e, b, one, c))) =
      rw (start_held s now owner r named there held soon)
        (inr (r, there, held, inl (e, b, omega (arith, one), c)))
  Step-Inv {s} named (enters now owner early soon) (inr (r, there, held, inr (e, b, bound))) =
      rw (start_held s now owner r named there held soon)
        (inr (r, there, held, inr (e, b, omega (arith, bound))))
  Step-Inv {s} named (first_reads r seen left) (inl (free, (_, _, zero_first, _, _))) =
      absurd (omega (arith, zero_first))
  Step-Inv {s} named (first_reads r seen left) (inr (old, there, held, phase)) =
      let e = some-injective _ _ (sym there ∙ seen) in
      let p = subst (λ x. Phase s x.status) e phase in
      inr (
        r,
        seen,
        subst (λ x. IsHeld q (opens + q.ttl * 1000) x) e held,
        first-Phase s r.status r.response p,
      )
  Step-Inv {s} named (second_reads r seen left) (inl (free, (_, _, _, zero_second, _))) =
      absurd (omega (arith, zero_second))
  Step-Inv {s} named (second_reads r seen left) (inr (old, there, held, phase)) =
      let e = some-injective _ _ (sym there ∙ seen) in
      let p = subst (λ x. Phase s x.status) e phase in
      inr (
        r,
        seen,
        subst (λ x. IsHeld q (opens + q.ttl * 1000) x) e held,
        second-Phase s r.status left p,
      )
  Step-Inv {s} named (returns r now some_runs) (inl (free, (none_run, _, _, _, _))) =
      absurd (omega (arith, none_run))
  Step-Inv {s} named (returns r now some_runs) (inr (old, there, held, phase)) = inr (
    updated old completed r none now,
    unfold finish store_result in
        lookup-update_status_self s.store q.key completed r none now old there,
    updated-IsHeld old r now _ held,
    inr (updated-status old r now, omega arith, returned-bound s old.status phase),
  )
  Step-Inv {s} named (other_enters other now owner apart) v =
      Inv-lookup s _ (lookup-begin_ne s.store other now owner q.key apart) v
  Step-Inv {s} named (other_ends other w now apart) v =
      Inv-lookup s _ (lookup-finish_ne s.store other w now q.key apart) v

  Reach-Inv :
      {s t : System V} → (q.key == "") ≡ false → Reach V q opens s t → Inv q opens s → Inv q opens t
  Reach-Inv named here v = v
  Reach-Inv named (next r st) v = Step-Inv named st (Reach-Inv named r v)

  -- Workers enter with one request during its `ttl`, from a store without its key, calls for other keys
  -- come in between, and no run of the function raises: until a run has returned, at most one worker is
  -- let through, and after that, no more than one and those that were between the two comparisons of
  -- the status when the first run returned.
  pub at_most_one_run :
      (store : Store V) {t : System V}
      → (q.key == "") ≡ false
      → lookup q.key store ≡ none
      → Reach V q opens (no_worker store) t
      → (t.returns ≡ 0 → t.runs ≤ 1) × (t.runs ≤ 1 + t.caught)
  at_most_one_run store {t} named free r =
      elim (Reach-Inv named r (inl (free, (refl, refl, refl, refl, refl)))) [
        | inl (_, (none_run, _, _, _, _)) ↦ (λ h. omega (arith, none_run), omega (arith, none_run))
        | inr (_, _, _, inl (_, _, one, _)) ↦ (λ h. omega (arith, one), omega (arith, one))
        | inr (_, _, _, inr (_, back, bound)) ↦
            (λ h. absurd (omega (arith, h, back)), omega (arith, bound))
      ]

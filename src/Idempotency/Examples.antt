-- ===== src/Idempotency/Examples.antt =====
-- Tests of the idempotency context, and its theorems at concrete inputs.
use django_project_test.Idempotency.Memory
use django_project_test.Idempotency.Context.{
  store_result, finish, if_in_progress, if_completed, start, returned, Outcome, Request,
}
use django_project_test.Idempotency.Once.{stamp, Call}
use django_project_test.Base.Dict.{lookup, insert}
use django_project_test.Base.{
  ◌≤◌, nat_eq, arith, refl, ◌≡◌, none, ==_false, false, ◌≢◌, [], true, ◌+◌, ℕ, some, string_eq,
}
use django_project_test.Idempotency.{is_expired, failed, IdempotencyRecord}
use django_project_test.Idempotency.Memory.{updated, fresh}
use django_project_test.Idempotency.Threads.{
  System, second_reads, returns, first_reads, enters, here, next, at_most_one_run,
}

abbrev pay : Request
pay = record { key = "pay"; fingerprint = some "a"; ttl = 600; raise_on_conflict = true }

abbrev pay_other : Request
pay_other = record pay { fingerprint = some "b" }

abbrev call : Request → Outcome ℕ → ℕ → Call ℕ
call q w now = record { request = q; work = w; now = now; later = now + 5; owner = "w" }

abbrev ship : Call ℕ
ship = call (record pay { key = "ship" }) (returned (some 3)) 20

prints_differ : stamp pay_other ≢ stamp pay
unfolding string_eq
prints_differ = ==_false "b" "a" refl

-- The second worker reads the status before the first one returns and once more after it.
abbrev ran_twice : System ℕ
ran_twice = record {
  store = finish (start {V = ℕ} [] pay 5 "w").1 "pay" (returned (some 3)) 7;
  runs = 2;
  returns = 1;
  before_first = 0;
  before_second = 0;
  caught = 1;
}

at_most_one_run_example :
    (ran_twice.returns ≡ 0 → ran_twice.runs ≤ 1) × (ran_twice.runs ≤ 1 + ran_twice.caught)
unfolding lookup string_eq nat_eq start Memory.reserve Memory.found fresh if_completed
    if_in_progress finish store_result Memory.update_status updated insert is_expired
at_most_one_run_example = at_most_one_run ℕ pay 5 [] {t = ran_twice} refl refl (
    next
      (next
        (next
          (next (next here (enters 5 "w" (omega arith) (omega arith)))
            (enters 6 "v" (omega arith) (omega arith)))
          (first_reads _ refl (omega arith)))
        (returns (some 3) 7 (omega arith)))
      (second_reads _ refl (omega arith)))

abbrev broken : IdempotencyRecord ℕ
broken = record {
  key = "pay";
  fingerprint = "a";
  status = failed;
  created_at = 0;
  updated_at = 0;
  response = none;
  error = some "e";
  owner = none;
  expires_at = some 600000;
}

abbrev lax_other : Call ℕ
lax_other = call (record pay_other { raise_on_conflict = false }) (returned (some 9)) 10

-- ===== src/Reliability/Retry/Examples.antt =====
-- A run of the retry loop: two failures, then a result.
use django_project_test.Reliability.Retry.{RetryPolicy, Outcome, failed, returned, exponential}
use django_project_test.Reliability.Retry.Attempts
use django_project_test.Base.{zero, suc, String, none, ℕ, false}

abbrev policy : RetryPolicy
policy = record {
  max_attempts = 3;
  backoff = exponential;
  initial_delay = 100;
  max_delay = 30000;
  multiplier = 2;
  jitter = false;
  max_total_time = none;
}

abbrev outcomes : ℕ → Outcome ℕ String
outcomes zero = failed "timeout"
outcomes (suc zero) = failed "timeout"
outcomes (suc (suc zero)) = failed "timeout"
outcomes (suc (suc (suc n))) = returned 7
